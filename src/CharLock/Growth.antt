-- ===== src/CharLock/Growth.antt =====
-- The tables with a new lock.
use bnetd.Prelude.{
  ◌⊎◌, ℕ, ◌%◌, ◌≡◌, sym, ap, ◌∙◌, true, false, ◌&&◌, ◌||◌, [], ◌∷◌, ◌++◌, none, some, ◌==◌, arith,
  Bool-cases, inl, inr, take,
}
use mathlib.Core.Path.{subst}
use bnetd.Prelude.Text.{Text}
use bnetd.Util.Case.{same_name, same_name_symm}
use bnetd.Channel.Invariant.{contains, AllDistinct}
use bnetd.CharLock.{
  CharLockInfo, LockTable, Status, bucket, is_long, cl_insert_to_gsq_list, add_lock,
}
use bnetd.CharLock.Chain.{contains-append, AllDistinct-append, contains-update, AllDistinct-update}
use bnetd.CharLock.Table.{IsPlaced, IsTable}
use bnetd.CharLock.Lookup.{IsHeld, held, loose}

module _ (t : LockTable) (v : IsTable t) (name realm : Text) (gsid pcl : ℕ)
    (short : is_long name ≡ false) (fresh : t.info pcl ≡ none)
    (absent : (p : ℕ) (l : CharLockInfo)
      → t.info p ≡ some l
      → same_name l.charname name ≡ false) where
  abbrev pub grown : LockTable
  grown = add_lock name realm gsid pcl t

  abbrev pub new_lock : CharLockInfo
  new_lock = record { charname = name; realmname = take 31 realm; gsid = gsid }

  -- What the heap has: the new lock, or what it had.
  info_cases :
      (p : ℕ) (l : CharLockInfo)
      → grown.info p ≡ some l
      → ((p ≡ pcl) × (l ≡ new_lock)) ⊎ (((pcl == p) ≡ false) × (t.info p ≡ some l))
  unfolding add_lock cl_insert_to_gsq_list
  info_cases p l h = elim (Bool-cases (pcl == p)) [
    | inl e ↦ inl (ground arith, ground arith)
    | inr e ↦ inr (e, ground arith)
  ]

  old_info :
      (p : ℕ) (l : CharLockInfo)
      → t.info p ≡ some l
      → ((pcl == p) ≡ false) × (grown.info p ≡ some l)
  unfolding add_lock cl_insert_to_gsq_list
  old_info p l h = elim (Bool-cases (pcl == p)) [
    | inl e ↦ let own : pcl ≡ p = ground arith in ground (arith, ap t.info own)
    | inr e ↦ (e, rw e h)
  ]

  pub new_info : grown.info pcl ≡ some new_lock
  unfolding add_lock cl_insert_to_gsq_list
  new_info = ground arith

  in_chains :
      (k p : ℕ)
      → (contains p (grown.clitbl k) ≡ (contains p (t.clitbl k) || bucket t name == k && pcl == p))
        × (contains p (grown.gsqtbl k)
            ≡ (contains p (t.gsqtbl k) || gsid % t.gsqtbl_len == k && pcl == p))
  unfolding add_lock cl_insert_to_gsq_list
  in_chains k p =
      let i = bucket t name in
      let j = gsid % t.gsqtbl_len in
      (
        ground (
          arith,
          contains-update t.clitbl i k p (t.clitbl i ++ pcl ∷ []),
          contains-append p pcl (t.clitbl i),
          ap (λ x. contains p (t.clitbl x)),
        ),
        ground (arith, contains-update t.gsqtbl j k p (pcl ∷ t.gsqtbl j)),
      )

  stranger : (k : ℕ) → (contains pcl (t.clitbl k) ≡ false) × (contains pcl (t.gsqtbl k) ≡ false)
  stranger k = (
    elim (Bool-cases (contains pcl (t.clitbl k))) [
      | inl e ↦ let (l, at, same) = v.chained k pcl e in ground (arith, at)
      | inr e ↦ e
    ],
    elim (Bool-cases (contains pcl (t.gsqtbl k))) [
      | inl e ↦ let (l, at, same) = v.queued k pcl e in ground (arith, at)
      | inr e ↦ e
    ],
  )

  grown-chained :
      (k p : ℕ)
      → contains p (grown.clitbl k) ≡ true
      → (l : CharLockInfo) × (grown.info p ≡ some l) × (bucket grown l.charname ≡ k)
  unfolding add_lock cl_insert_to_gsq_list
  grown-chained k p h = elim (Bool-cases (contains p (t.clitbl k))) [
    | inl e ↦ let (l, at, same) = v.chained k p e in (l, (old_info p l at).1, same)
    | inr e ↦
        let own : pcl ≡ p = ground (arith, (in_chains k p).0) in
        (new_lock, ap grown.info (sym own) ∙ new_info, ground (arith, (in_chains k p).0))
  ]

  grown-queued :
      (k p : ℕ)
      → contains p (grown.gsqtbl k) ≡ true
      → (l : CharLockInfo) × (grown.info p ≡ some l) × (l.gsid % grown.gsqtbl_len ≡ k)
  unfolding add_lock cl_insert_to_gsq_list
  grown-queued k p h = elim (Bool-cases (contains p (t.gsqtbl k))) [
    | inl e ↦ let (l, at, same) = v.queued k p e in (l, (old_info p l at).1, same)
    | inr e ↦
        let own : pcl ≡ p = ground (arith, (in_chains k p).1) in
        (new_lock, ap grown.info (sym own) ∙ new_info, ground (arith, (in_chains k p).1))
  ]

  grown-distinct : (k : ℕ) → AllDistinct (grown.clitbl k) × AllDistinct (grown.gsqtbl k)
  unfolding add_lock cl_insert_to_gsq_list
  grown-distinct k =
      let i = bucket t name in
      let j = gsid % t.gsqtbl_len in
      (
        AllDistinct-update t.clitbl i k (t.clitbl i ++ pcl ∷ [])
            (AllDistinct-append pcl (t.clitbl i) (stranger i).0 (v.chain_distinct i))
            (v.chain_distinct k),
        AllDistinct-update t.gsqtbl j k (pcl ∷ t.gsqtbl j) ((stranger j).1, v.queue_distinct j)
            (v.queue_distinct k),
      )

  new-IsPlaced : IsPlaced grown pcl new_lock
  unfolding add_lock cl_insert_to_gsq_list
  new-IsPlaced = record {
    in_chain = ground (arith, (in_chains (bucket t name) pcl).0);
    in_gsq = ground (arith, (in_chains (gsid % t.gsqtbl_len) pcl).1);
    short = short;
  }

  grown-IsPlaced : (p : ℕ) (l : CharLockInfo) → grown.info p ≡ some l → IsPlaced grown p l
  unfolding add_lock cl_insert_to_gsq_list
  grown-IsPlaced p l h = elim (info_cases p l h) [
    | inl (own, payload) ↦
        subst (λ x. IsPlaced grown x l) (sym own)
          (subst (λ x. IsPlaced grown pcl x) (sym payload) new-IsPlaced)
    | inr (other, at) ↦
        let before = v.placed p l at in
        record {
          in_chain = ground (arith, (in_chains (bucket t l.charname) p).0, before.in_chain);
          in_gsq = ground (arith, (in_chains (l.gsid % t.gsqtbl_len) p).1, before.in_gsq);
          short = before.short;
        }
  ]

  grown-alone :
      (p q : ℕ) (l m : CharLockInfo)
      → grown.info p ≡ some l
      → grown.info q ≡ some m
      → same_name l.charname m.charname ≡ true
      → p ≡ q
  grown-alone p q l m hp hq same = elim (info_cases p l hp) [
    | inl (own, payload) ↦ elim (info_cases q m hq) [
      | inl (own', payload') ↦ own ∙ sym own'
      | inr (other, at) ↦ ground (
        arith,
        absent q m at,
        same_name_symm m.charname name,
        ap (λ x. same_name x.charname m.charname) payload,
      )
    ]
    | inr (other, at) ↦ elim (info_cases q m hq) [
      | inl (own, payload) ↦
          ground (arith, absent p l at, ap (λ x. same_name l.charname x.charname) payload)
      | inr (other', at') ↦ v.alone p q l m at at' same
    ]
  ]

  pub grown-IsTable : IsTable grown
  unfolding add_lock cl_insert_to_gsq_list
  grown-IsTable = record {
    ready = v.ready;
    chained = grown-chained;
    queued = grown-queued;
    chain_distinct = λ k. (grown-distinct k).0;
    queue_distinct = λ k. (grown-distinct k).1;
    placed = grown-IsPlaced;
    alone = grown-alone;
  }

  -- Other names are as they were; this one is held by the server.
  pub grown-IsHeld :
      (n : Text) (st : Status) → same_name name n ≡ false → IsHeld t n st → IsHeld grown n st
  grown-IsHeld n _ other (held p l at same) = held p l (old_info p l at).1 same
  grown-IsHeld n _ other (loose h) = loose (λ p l at. elim (info_cases p l at) [
    | inl (own, payload) ↦ ap (λ x. same_name x.charname n) payload ∙ other
    | inr (kept, before) ↦ h p l before
  ])
