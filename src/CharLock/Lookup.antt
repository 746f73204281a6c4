-- ===== src/CharLock/Lookup.antt =====
-- What `cl_query_charlock_status` answers.
use bnetd.Prelude.{ℕ, ◌≡◌, refl, ap, ◌∙◌, true, false, Option, some, arith}
use bnetd.Prelude.Text.{Text}
use bnetd.Util.Case.{same_name, same_name_symm, same_name_trans}
use bnetd.CharLock.{
  CharLockInfo, LockTable, Status, unlocked, locked, bucket, is_long, search,
  cl_query_charlock_status,
}
use bnetd.CharLock.Table.{IsTable, IsFound, here, nowhere, search-IsFound}

-- The state of a name, by the locks on the heap.
pub data IsHeld (t : LockTable) (name : Text) : Status → Type 0 where
  held :
      (pcl : ℕ) (l : CharLockInfo)
      → t.info pcl ≡ some l
      → same_name l.charname name ≡ true
      → IsHeld t name (locked l.gsid)
  loose :
      ((pcl : ℕ) (l : CharLockInfo) → t.info pcl ≡ some l → same_name l.charname name ≡ false)
      → IsHeld t name unlocked

module _ (t : LockTable) (v : IsTable t) (name : Text) where
  found-IsHeld : (o : Option ℕ) → IsFound t name o → (st : Status) × IsHeld t name st
  found-IsHeld _ (here p l at same) = (locked l.gsid, held p l at same)
  found-IsHeld _ (nowhere h) = (unlocked, loose h)

  pub some-IsHeld : (st : Status) × IsHeld t name st
  some-IsHeld = let (o, run, found) = search-IsFound t v name in found-IsHeld o found

  answer :
      (o : Option ℕ) (st : Status)
      → search t.info (t.clitbl (bucket t name)) name ≡ some o
      → is_long name ≡ false
      → IsFound t name o
      → IsHeld t name st
      → cl_query_charlock_status t name ≡ some st
  unfolding cl_query_charlock_status
  answer _ _ run short (here p l at same) (held q m at' same') =
      let one = v.alone p q l m at at' (
        same_name_trans l.charname name m.charname same (same_name_symm name m.charname ∙ same')) in
      let read : t.info p ≡ some m = ap t.info one ∙ at' in rw (v.ready, short, run, read) refl
  answer _ _ run short (here p l at same) (loose h) = ground (arith, h p l at)
  answer _ _ run short (nowhere h) (held q m at same) = ground (arith, h q m at)
  answer _ _ run short (nowhere h) (loose g) = rw (v.ready, short, run) refl

  pub query_held :
      (st : Status)
      → is_long name ≡ false
      → IsHeld t name st
      → cl_query_charlock_status t name ≡ some st
  query_held st short h =
      let (o, run, found) = search-IsFound t v name in answer o st run short found h
