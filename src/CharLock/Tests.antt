-- ===== src/CharLock/Tests.antt =====
-- Two servers lock characters, on a heap that has two addresses.
use bnetd.Prelude.{ℕ, ◌≡◌, refl, sym, ap, ◌∙◌, false, List, [], ◌∷◌, Option, none, some, arith}
use bnetd.Prelude.Text.{Text, codes}
use bnetd.Channel.{Rc}
use bnetd.CharLock.{LockTable, CharLockInfo, unlocked, is_long, cl_query_charlock_status}
use bnetd.CharLock.Refinement.{
  Request, lock, unlock, unlock_all, serve, meanings, first_tables, serve-meanings,
}

-- The first address that is free.
abbrev first_free : Option CharLockInfo → Option CharLockInfo → Option ℕ
first_free none second = some 0
first_free (some l) none = some 1
first_free (some l) (some m) = none

abbrev two_slots : LockTable → Option ℕ
two_slots t = first_free (t.info 0) (t.info 1)

free_is_free :
    (info : ℕ → Option CharLockInfo) (a b : Option CharLockInfo) (pcl : ℕ)
    → info 0 ≡ a
    → info 1 ≡ b
    → first_free a b ≡ some pcl
    → info pcl ≡ none
free_is_free info none b pcl p q h = let own : 0 ≡ pcl = ground arith in ap info (sym own) ∙ p
free_is_free info (some l) none pcl p q h =
    let own : 1 ≡ pcl = ground arith in ap info (sym own) ∙ q
free_is_free info (some l) (some m) pcl p q h = ground arith

two_slots_fresh : (t : LockTable) (pcl : ℕ) → two_slots t ≡ some pcl → t.info pcl ≡ none
two_slots_fresh t pcl h = free_is_free t.info (t.info 0) (t.info 1) pcl refl refl h

abbrev requests : List Request
requests =
    lock (codes "Amazon") (codes "D2CS") 1
    ∷ lock (codes "amazon") (codes "D2CS") 2
    ∷ lock (codes "Druid") (codes "D2CS") 2
    ∷ unlock_all 1
    ∷ unlock (codes "DRUID")
    ∷ []

serve-meanings_example :
    (rcs : List Rc) × (t : LockTable) × (serve two_slots requests (first_tables 65000 256)
      ≡ some (rcs, t))
    × ((n : Text)
        → is_long n ≡ false
        → cl_query_charlock_status t n ≡ meanings 256 requests rcs n (some unlocked))
serve-meanings_example =
    serve-meanings 65000 256 (omega arith) (omega arith) two_slots two_slots_fresh requests
