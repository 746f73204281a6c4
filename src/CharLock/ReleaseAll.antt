-- ===== src/CharLock/ReleaseAll.antt =====
-- `cl_unlock_all_char_by_gsid`.
use bnetd.Prelude.{
  ℕ, ◌%◌, ◌≡◌, refl, sym, ap, ◌∙◌, true, false, List, [], ◌∷◌, Option, none, some, ◌==◌, arith,
  Bool-cases, inl, inr, if◌then◌else◌,
}
use bnetd.Prelude.Text.{Text}
use bnetd.Util.Case.{same_name, same_name_refl}
use bnetd.Channel.{ok}
use bnetd.Channel.Invariant.{contains}
use bnetd.CharLock.{
  CharLockInfo, LockTable, Status, invalid, unlocked, locked, bucket, is_long, search,
  cl_query_charlock_status, erase, cl_delete_from_gsq_list, drop_lock, cl_unlock_char, unlock_loop,
  cl_unlock_all_char_by_gsid,
}
use bnetd.CharLock.Chain.{erase-head}
use bnetd.CharLock.Table.{IsTable, IsFound, here, nowhere, search-IsFound}
use bnetd.CharLock.Lookup.{IsHeld, held, loose, some-IsHeld, query_held}
use bnetd.CharLock.Release.{left-IsTable, left-queries}

-- Unlocking the name of a lock drops that lock.
module _ (t : LockTable) (v : IsTable t) (p : ℕ) (l : CharLockInfo) (at : t.info p ≡ some l) where
  own_found :
      (o : Option ℕ)
      → search t.info (t.clitbl (bucket t l.charname)) l.charname ≡ some o
      → IsFound t l.charname o
      → cl_unlock_char l.charname t ≡ some (ok, drop_lock l.charname l.gsid p t)
  unfolding cl_unlock_char
  own_found _ run (nowhere h) = ground (arith, h p l at, same_name_refl l.charname)
  own_found _ run (here q m at' same) =
      let one : q ≡ p = v.alone q p m l at' at same in
      let run' = run ∙ ap (λ x. some (some x)) one in
      rw (v.ready, (v.placed p l at).short, run', at) refl

  unlock_own : cl_unlock_char l.charname t ≡ some (ok, drop_lock l.charname l.gsid p t)
  unlock_own = let (o, run, found) = search-IsFound t v l.charname in own_found o run found

  -- The queue that the lock is the first of.
  next_in_queue :
      (k : ℕ) (chain : List ℕ)
      → l.gsid % t.gsqtbl_len ≡ k
      → t.gsqtbl k ≡ p ∷ chain
      → (drop_lock l.charname l.gsid p t).gsqtbl k ≡ chain
  unfolding drop_lock cl_delete_from_gsq_list
  next_in_queue k chain slot queue =
      let first : t.gsqtbl (l.gsid % t.gsqtbl_len) ≡ p ∷ chain = ap t.gsqtbl slot ∙ queue in
      ground (arith, slot, ap (erase p) first, erase-head p chain)

-- A server's locks are gone, up to the size of the table.
abbrev pub freed : (k size : ℕ) → Option Status → Option Status
freed k size (some (locked g)) = if g % size == k then some unlocked else some (locked g)
freed k size (some unlocked) = some unlocked
freed k size (some invalid) = some invalid
freed k size none = none

pub record IsReleased (k : ℕ) (t t' : LockTable) : Type 0 where
  pub table : IsTable t'
  pub size : t'.gsqtbl_len ≡ t.gsqtbl_len
  pub queries :
      (n : Text)
      → is_long n ≡ false
      → cl_query_charlock_status t' n ≡ freed k t.gsqtbl_len (cl_query_charlock_status t n)

nothing_queued : (t : LockTable) (v : IsTable t) (k : ℕ) → t.gsqtbl k ≡ [] → IsReleased k t t
nothing_queued t v k empty = record {
  table = v;
  size = refl;
  queries = λ n short.
      let (st, h) = some-IsHeld t v n in
      let answer = query_held t v n st short h in rw answer (unchanged n st h);
}
  where
    unchanged : (n : Text) (st : Status) → IsHeld t n st → some st ≡ freed k t.gsqtbl_len (some st)
    unchanged n _ (loose h) = refl
    unchanged n _ (held p l at same) = elim (Bool-cases (l.gsid % t.gsqtbl_len == k)) [
      | inr e ↦ rw e refl
      | inl e ↦
          let slot : l.gsid % t.gsqtbl_len ≡ k = ground arith in
          let queued = (v.placed p l at).in_gsq in
          let there : contains p [] ≡ true =
            sym (ap (contains p) (ap t.gsqtbl slot ∙ empty)) ∙ queued in
          ground arith
    ]

after_drop :
    (t : LockTable) (v : IsTable t) (p : ℕ) (l : CharLockInfo) (at : t.info p ≡ some l) (k : ℕ)
    (t' : LockTable)
    → l.gsid % t.gsqtbl_len ≡ k
    → IsReleased k (drop_lock l.charname l.gsid p t) t'
    → IsReleased k t t'
unfolding drop_lock cl_delete_from_gsq_list
after_drop t v p l at k t' slot r =
    let own_freed : freed k t.gsqtbl_len (some (locked l.gsid)) ≡ some unlocked =
      ground (arith, slot) in
    record {
      table = r.table;
      size = r.size;
      queries = λ n short.
          let dropped = left-queries t v l.charname p l at (same_name_refl l.charname) n short in
          let after = r.queries n short in
          elim (Bool-cases (same_name l.charname n)) [
            | inl e ↦
                let before = query_held t v n (locked l.gsid) short (held p l at e) in
                let now : cl_query_charlock_status (drop_lock l.charname l.gsid p t) n
                    ≡ some unlocked =
                  dropped ∙ ap (λ b. if b then some unlocked else cl_query_charlock_status t n) e in
                after
                ∙ ap (freed k t.gsqtbl_len) now
                ∙ sym (ap (freed k t.gsqtbl_len) before ∙ own_freed)
            | inr e ↦
                let now : cl_query_charlock_status (drop_lock l.charname l.gsid p t) n
                    ≡ cl_query_charlock_status t n =
                  dropped ∙ ap (λ b. if b then some unlocked else cl_query_charlock_status t n) e in
                after ∙ ap (freed k t.gsqtbl_len) now
          ];
    }

unlock_loop-IsReleased :
    (chain : List ℕ) (k : ℕ) (t : LockTable)
    → IsTable t
    → t.gsqtbl k ≡ chain
    → (t' : LockTable) × (unlock_loop chain t ≡ some t') × IsReleased k t t'
unfolding unlock_loop
unlock_loop-IsReleased [] k t v queue = (t, refl, nothing_queued t v k queue)
unlock_loop-IsReleased (p ∷ chain) k t v queue =
    let (l, at, slot) = v.queued k p (ap (contains p) queue ∙ ground arith) in
    let t₁ = drop_lock l.charname l.gsid p t in
    let v₁ = left-IsTable t v l.charname p l at (same_name_refl l.charname) in
    let (t', ran, released) =
      unlock_loop-IsReleased chain k t₁ v₁ (next_in_queue t v p l at k chain slot queue) in
    (t', rw (at, unlock_own t v p l at) ran, after_drop t v p l at k t' slot released)

-- In tables that are in order, the locks of a server are dropped when it goes, without reading a
-- lock that was freed, and the tables stay in order. Afterwards every name is unlocked that was
-- held by a server with the same remainder by the size of the table of servers, and each other one
-- is as before.
pub cl_unlock_all_char_by_gsid-IsReleased :
    (t : LockTable)
    → IsTable t
    → (gsid : ℕ)
    → (t' : LockTable) × (cl_unlock_all_char_by_gsid gsid t ≡ some t')
      × IsReleased (gsid % t.gsqtbl_len) t t'
unfolding cl_unlock_all_char_by_gsid
cl_unlock_all_char_by_gsid-IsReleased t v gsid =
    let k = gsid % t.gsqtbl_len in
    let (t', ran, released) = unlock_loop-IsReleased (t.gsqtbl k) k t v refl in
    let sized : (t.gsqtbl_len == 0) ≡ false = ground (arith, v.ready) in
    (t', rw sized ran, released)
