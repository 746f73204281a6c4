-- ===== src/CharLock/Locking.antt =====
-- `cl_lock_char`.
use bnetd.Prelude.{
  ℕ, ◌≡◌, refl, sym, true, false, Option, none, some, arith, Bool-cases, inl, inr, if◌then◌else◌,
}
use bnetd.Prelude.Text.{Text}
use bnetd.Util.Case.{same_name, same_name_symm, same_name_trans}
use bnetd.Channel.{Rc, ok, fail}
use bnetd.CharLock.{
  CharLockInfo, LockTable, Status, invalid, unlocked, locked, bucket, is_long, search,
  cl_query_charlock_status, cl_insert_to_gsq_list, add_lock, cl_lock_char,
}
use bnetd.CharLock.Table.{IsTable, IsFound, here, nowhere, search-IsFound}
use bnetd.CharLock.Lookup.{held, loose, some-IsHeld, query_held}
use bnetd.CharLock.Growth.{new_lock, new_info, grown-IsTable, grown-IsHeld}

-- A name that nobody holds is taken by the server, and no other one.
abbrev pub taken_by : ℕ → Option Status → Option Status
taken_by gsid (some unlocked) = some (locked gsid)
taken_by gsid (some (locked g)) = some (locked g)
taken_by gsid (some invalid) = some invalid
taken_by gsid none = none

-- The table is in order, and a name is held by whom it was held, but for the given one, which is
-- held by the server if nobody held it.
pub record IsLocked (name : Text) (gsid : ℕ) (t t' : LockTable) : Type 0 where
  pub table : IsTable t'
  pub size : t'.gsqtbl_len ≡ t.gsqtbl_len
  pub queries :
      (n : Text)
      → is_long n ≡ false
      → cl_query_charlock_status t' n ≡ (
          if same_name name n
          then taken_by gsid (cl_query_charlock_status t n)
          else cl_query_charlock_status t n)

module _ (t : LockTable) (v : IsTable t) (name : Text) (gsid : ℕ) where
  already-IsLocked :
      (p : ℕ) (l : CharLockInfo)
      → t.info p ≡ some l
      → same_name l.charname name ≡ true
      → IsLocked name gsid t t
  already-IsLocked p l at same = record {
    table = v;
    size = refl;
    queries = λ n short'. elim (Bool-cases (same_name name n)) [
      | inr e ↦ rw e refl
      | inl e ↦
          let answer =
            query_held t v n (locked l.gsid) short'
              (held p l at (same_name_trans l.charname name n same e)) in
          rw (e, answer) refl
    ];
  }

module _ (t : LockTable) (v : IsTable t) (name realm : Text) (gsid pcl : ℕ)
    (short : is_long name ≡ false) (fresh : t.info pcl ≡ none) where
  added-IsLocked :
      (absent : (p : ℕ) (l : CharLockInfo) → t.info p ≡ some l → same_name l.charname name ≡ false)
      → IsLocked name gsid t (add_lock name realm gsid pcl t)
  unfolding add_lock cl_insert_to_gsq_list
  added-IsLocked absent =
      let v' = grown-IsTable t v name realm gsid pcl short fresh absent in
      let t' = add_lock name realm gsid pcl t in
      record {
        table = v';
        size = refl;
        queries = λ n short'. elim (Bool-cases (same_name name n)) [
          | inr e ↦
              let (st, h) = some-IsHeld t v n in
              let before = query_held t v n st short' h in
              let after =
                query_held t' v' n st short'
                  (grown-IsHeld t v name realm gsid pcl short fresh absent n st e h) in
              rw (e, after) (sym before)
          | inl e ↦
              let before = query_held t v n unlocked short' (
                loose (λ p l at. ground (
                  arith,
                  absent p l at,
                  same_name_trans l.charname n name,
                  same_name_symm name n,
                ))) in
              let after = query_held t' v' n (locked gsid) short' (
                held pcl (new_lock t v name realm gsid pcl short fresh absent)
                  (new_info t v name realm gsid pcl short fresh absent) e) in
              rw (e, before, after) refl
        ];
      }

-- By the outcome.
abbrev pub IsTried : Text → ℕ → LockTable → Rc → LockTable → Type 0
IsTried name gsid t ok t' = IsLocked name gsid t t'
IsTried name gsid t fail t' = t' ≡ t

module _ (t : LockTable) (v : IsTable t) (name realm : Text) (gsid : ℕ) (malloc : Option ℕ)
    (fresh : (pcl : ℕ) → malloc ≡ some pcl → t.info pcl ≡ none) where
  made :
      (m : Option ℕ)
      → ((pcl : ℕ) → m ≡ some pcl → t.info pcl ≡ none)
      → is_long name ≡ false
      → search t.info (t.clitbl (bucket t name)) name ≡ some none
      → ((p : ℕ) (l : CharLockInfo) → t.info p ≡ some l → same_name l.charname name ≡ false)
      → (r : Rc × LockTable) × (cl_lock_char m name realm gsid t ≡ some r)
        × IsTried name gsid t r.0 r.1
  unfolding cl_lock_char
  made none empty short run absent = ((fail, t), rw (v.ready, short, run) refl, refl)
  made (some pcl) empty short run absent = (
    (ok, add_lock name realm gsid pcl t),
    rw (v.ready, short, run) refl,
    added-IsLocked t v name realm gsid pcl short (empty pcl refl) absent,
  )

  searched :
      (o : Option ℕ)
      → is_long name ≡ false
      → search t.info (t.clitbl (bucket t name)) name ≡ some o
      → IsFound t name o
      → (r : Rc × LockTable) × (cl_lock_char malloc name realm gsid t ≡ some r)
        × IsTried name gsid t r.0 r.1
  unfolding cl_lock_char
  searched _ short run (here p l at same) =
      ((ok, t), rw (v.ready, short, run) refl, already-IsLocked t v name gsid p l at same)
  searched _ short run (nowhere h) = made malloc fresh short run h

  pub cl_lock_char-IsTried :
      (r : Rc × LockTable) × (cl_lock_char malloc name realm gsid t ≡ some r)
      × IsTried name gsid t r.0 r.1
  unfolding cl_lock_char
  cl_lock_char-IsTried = elim (Bool-cases (is_long name)) [
    | inl e ↦ ((fail, t), rw (v.ready, e) refl, refl)
    | inr e ↦ let (o, run, found) = search-IsFound t v name in searched o e run found
  ]
