-- ===== src/CharLock/Release.antt =====
-- `cl_unlock_char` and `cl_unlock_all_char_by_gsid`.
use bnetd.Prelude.{
  ℕ, ◌%◌, ◌≡◌, refl, sym, ap, ◌∙◌, true, false, ◌&&◌, not, Option, some, ◌==◌, arith, Bool-cases,
  inl, inr, if◌then◌else◌,
}
use bnetd.Prelude.Text.{Text}
use bnetd.Util.Case.{same_name, same_name_symm, same_name_trans}
use bnetd.Channel.{ok}
use bnetd.Channel.Invariant.{contains, AllDistinct}
use bnetd.CharLock.{
  CharLockInfo, LockTable, Status, unlocked, bucket, is_long, search, cl_query_charlock_status,
  erase, cl_delete_from_gsq_list, drop_lock, cl_unlock_char,
}
use bnetd.CharLock.Hash.{string_hash-same_name}
use bnetd.CharLock.Chain.{
  contains-erase, AllDistinct-erase, contains_own, contains-update, AllDistinct-update,
}
use bnetd.CharLock.Table.{IsPlaced, IsTable, IsFound, here, nowhere, search-IsFound}
use bnetd.CharLock.Lookup.{IsHeld, held, loose, some-IsHeld, query_held}

-- The lock `pcl` is dropped under the name by which it was found.
module _ (t : LockTable) (v : IsTable t) (name : Text) (pcl : ℕ) (lock : CharLockInfo)
    (at : t.info pcl ≡ some lock) (same : same_name lock.charname name ≡ true) where
  abbrev left : LockTable
  left = drop_lock name lock.gsid pcl t

  info_kept :
      (p : ℕ) (l : CharLockInfo) → left.info p ≡ some l → ((pcl == p) ≡ false) × (t.info p ≡ some l)
  unfolding drop_lock cl_delete_from_gsq_list
  info_kept p l h = ground arith

  kept_info :
      (p : ℕ) (l : CharLockInfo) → (pcl == p) ≡ false → t.info p ≡ some l → left.info p ≡ some l
  unfolding drop_lock cl_delete_from_gsq_list
  kept_info p l e h = ground arith

  only_chain : (k : ℕ) → contains pcl (t.clitbl k) ≡ true → bucket t name ≡ k
  only_chain k h =
      let (l, there, slot) = v.chained k pcl h in
      let payload : l ≡ lock = ground (arith, there, at) in
      ap (λ x. x % t.clitbl_len) (sym (string_hash-same_name lock.charname name same))
      ∙ ap (λ x. bucket t x.charname) (sym payload)
      ∙ slot

  only_queue : (k : ℕ) → contains pcl (t.gsqtbl k) ≡ true → lock.gsid % t.gsqtbl_len ≡ k
  only_queue k h =
      let (l, there, slot) = v.queued k pcl h in
      let payload : l ≡ lock = ground (arith, there, at) in
      ap (λ x. x.gsid % t.gsqtbl_len) (sym payload) ∙ slot

  -- The lock stands in no other chain than the two that it is taken from.
  chains_kept :
      (k p : ℕ)
      → (contains p (left.clitbl k) ≡ (contains p (t.clitbl k) && not (p == pcl)))
        × (contains p (left.gsqtbl k) ≡ (contains p (t.gsqtbl k) && not (p == pcl)))
  unfolding drop_lock cl_delete_from_gsq_list
  chains_kept k p =
      let i = bucket t name in
      let j = lock.gsid % t.gsqtbl_len in
      (
        ground (
          arith,
          contains-update t.clitbl i k p (erase pcl (t.clitbl i)),
          contains-erase pcl p (t.clitbl i) (v.chain_distinct i),
          ap (λ x. contains p (t.clitbl x)),
          only_chain k,
          contains_own p pcl (t.clitbl k),
        ),
        ground (
          arith,
          contains-update t.gsqtbl j k p (erase pcl (t.gsqtbl j)),
          contains-erase pcl p (t.gsqtbl j) (v.queue_distinct j),
          only_queue k,
          contains_own p pcl (t.gsqtbl k),
        ),
      )

  left-distinct : (k : ℕ) → AllDistinct (left.clitbl k) × AllDistinct (left.gsqtbl k)
  unfolding drop_lock cl_delete_from_gsq_list
  left-distinct k =
      let i = bucket t name in
      let j = lock.gsid % t.gsqtbl_len in
      (
        AllDistinct-update t.clitbl i k (erase pcl (t.clitbl i))
            (AllDistinct-erase pcl (t.clitbl i) (v.chain_distinct i)) (v.chain_distinct k),
        AllDistinct-update t.gsqtbl j k (erase pcl (t.gsqtbl j))
            (AllDistinct-erase pcl (t.gsqtbl j) (v.queue_distinct j)) (v.queue_distinct k),
      )

  left-chained :
      (k p : ℕ)
      → contains p (left.clitbl k) ≡ true
      → (l : CharLockInfo) × (left.info p ≡ some l) × (bucket left l.charname ≡ k)
  unfolding drop_lock cl_delete_from_gsq_list
  left-chained k p h =
      let listed = (chains_kept k p).0 in
      let (l, there, slot) = v.chained k p (ground arith) in
      (l, kept_info p l (ground arith) there, slot)

  left-queued :
      (k p : ℕ)
      → contains p (left.gsqtbl k) ≡ true
      → (l : CharLockInfo) × (left.info p ≡ some l) × (l.gsid % left.gsqtbl_len ≡ k)
  unfolding drop_lock cl_delete_from_gsq_list
  left-queued k p h =
      let listed = (chains_kept k p).1 in
      let (l, there, slot) = v.queued k p (ground arith) in
      (l, kept_info p l (ground arith) there, slot)

  left-IsPlaced : (p : ℕ) (l : CharLockInfo) → left.info p ≡ some l → IsPlaced left p l
  unfolding drop_lock cl_delete_from_gsq_list
  left-IsPlaced p l h =
      let (other, there) = info_kept p l h in
      let before = v.placed p l there in
      record {
        in_chain = ground (arith, (chains_kept (bucket t l.charname) p).0, before.in_chain);
        in_gsq = ground (arith, (chains_kept (l.gsid % t.gsqtbl_len) p).1, before.in_gsq);
        short = before.short;
      }

  pub left-IsTable : IsTable left
  unfolding drop_lock cl_delete_from_gsq_list
  left-IsTable = record {
    ready = v.ready;
    chained = left-chained;
    queued = left-queued;
    chain_distinct = λ k. (left-distinct k).0;
    queue_distinct = λ k. (left-distinct k).1;
    placed = left-IsPlaced;
    alone = λ p q l m hp hq e. v.alone p q l m (info_kept p l hp).1 (info_kept q m hq).1 e;
  }

  -- What the drop leaves of the names.
  other-IsHeld :
      (n : Text) (st : Status) → same_name name n ≡ false → IsHeld t n st → IsHeld left n st
  other-IsHeld n _ other (held p l there match) = elim (Bool-cases (pcl == p)) [
    | inr e ↦ held p l (kept_info p l e there) match
    | inl e ↦
        let own : pcl ≡ p = ground arith in
        let payload : l ≡ lock = ground (arith, there, at, ap t.info own) in
        ground (
          arith,
          ap (λ x. same_name x.charname n) payload,
          same_name_symm lock.charname name,
          same_name_trans name lock.charname n,
        )
  ]
  other-IsHeld n _ other (loose h) = loose (λ p l there. h p l (info_kept p l there).1)

  free-IsHeld : (n : Text) → same_name name n ≡ true → IsHeld left n unlocked
  free-IsHeld n e = loose (λ p l there. elim (Bool-cases (same_name l.charname n)) [
    | inr f ↦ f
    | inl f ↦
        let (other, kept) = info_kept p l there in
        let one = v.alone pcl p lock l at kept (
          same_name_trans lock.charname n l.charname (same_name_trans lock.charname name n same e)
            (same_name_symm n l.charname ∙ f)) in
        ground arith
  ])

  pub left-queries :
      (n : Text)
      → is_long n ≡ false
      → cl_query_charlock_status left n
        ≡ (if same_name name n then some unlocked else cl_query_charlock_status t n)
  left-queries n short = elim (Bool-cases (same_name name n)) [
    | inl e ↦ rw e (query_held left left-IsTable n unlocked short (free-IsHeld n e))
    | inr e ↦
        let (st, h) = some-IsHeld t v n in
        rw e (
          query_held left left-IsTable n st short (other-IsHeld n st e h)
          ∙ sym (query_held t v n st short h))
  ]

-- The name, in any case, is unlocked, and nothing else has changed.
pub record IsUnlocked (name : Text) (t t' : LockTable) : Type 0 where
  pub table : IsTable t'
  pub size : t'.gsqtbl_len ≡ t.gsqtbl_len
  pub queries :
      (n : Text)
      → is_long n ≡ false
      → cl_query_charlock_status t' n
        ≡ (if same_name name n then some unlocked else cl_query_charlock_status t n)

module _ (t : LockTable) (v : IsTable t) (name : Text) (short : is_long name ≡ false) where
  absent-IsUnlocked :
      ((p : ℕ) (l : CharLockInfo) → t.info p ≡ some l → same_name l.charname name ≡ false)
      → IsUnlocked name t t
  absent-IsUnlocked absent = record {
    table = v;
    size = refl;
    queries = λ n short'. elim (Bool-cases (same_name name n)) [
      | inr e ↦ rw e refl
      | inl e ↦ rw e (
          query_held t v n unlocked short' (
            loose (λ p l at.
              ground
                (arith, absent p l at, same_name_trans l.charname n name, same_name_symm name n))))
    ];
  }

  unlock_found :
      (o : Option ℕ)
      → search t.info (t.clitbl (bucket t name)) name ≡ some o
      → IsFound t name o
      → (t' : LockTable) × (cl_unlock_char name t ≡ some (ok, t')) × IsUnlocked name t t'
  unfolding cl_unlock_char drop_lock cl_delete_from_gsq_list
  unlock_found _ run (here p l at same) = (
    drop_lock name l.gsid p t,
    rw (v.ready, short, run, at) refl,
    record {
      table = left-IsTable t v name p l at same;
      size = refl;
      queries = left-queries t v name p l at same;
    },
  )
  unlock_found _ run (nowhere h) = (t, rw (v.ready, short, run) refl, absent-IsUnlocked h)

  pub cl_unlock_char-IsUnlocked :
      (t' : LockTable) × (cl_unlock_char name t ≡ some (ok, t')) × IsUnlocked name t t'
  cl_unlock_char-IsUnlocked =
      let (o, run, found) = search-IsFound t v name in unlock_found o run found
