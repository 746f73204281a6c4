-- ===== src/Elems/Relink.antt =====
-- How the end of a chain of cells is set to another address, and cells that do not overlap.
use bnetd.Prelude.{ℕ, ◌≡◌, refl, List, [], ◌∷◌, ◌++◌, Option, some, true, false, ◌||◌, arith}
use mathlib.Core.Path.{subst}
use bnetd.Elems.{Heap, store, relink}
use bnetd.Elems.Purge.{Cell, IsSegment, lies_in, AreApart}

-- The last of the cells is at the address.
abbrev pub EndsAt : List Cell → ℕ → Type 0
EndsAt [] k = ⊥
EndsAt (c ∷ []) k = c.0 ≡ k
EndsAt (c ∷ d ∷ cs) k = EndsAt (d ∷ cs) k

pub EndsAt-append : (cs : List Cell) (c : Cell) → EndsAt (cs ++ c ∷ []) c.0
EndsAt-append [] c = refl
EndsAt-append (d ∷ []) c = refl
EndsAt-append (d ∷ e ∷ cs) c = EndsAt-append (e ∷ cs) c

pub lies_in_end : (cs : List Cell) (k : ℕ) → EndsAt cs k → lies_in k cs ≡ true
unfolding lies_in
lies_in_end [] k e = absurd e
lies_in_end (c ∷ []) k e = ground arith
lies_in_end (c ∷ d ∷ cs) k e = ground (arith, lies_in_end (d ∷ cs) k e)

pub lies_in-append :
    (i : ℕ) (cs ds : List Cell) → lies_in i (cs ++ ds) ≡ (lies_in i cs || lies_in i ds)
unfolding lies_in
lies_in-append i [] ds = refl
lies_in-append i (c ∷ cs) ds = ground (arith, lies_in-append i cs ds)

-- Without one of them the cells are apart, and it is not among the others.
pub AreApart-append :
    (cs ds : List Cell) (c : Cell)
    → AreApart (cs ++ c ∷ ds)
    → AreApart (cs ++ ds) × (lies_in c.0 (cs ++ ds) ≡ false)
unfolding lies_in
AreApart-append [] ds c a = (a.1, a.0)
AreApart-append (b ∷ cs) ds c a =
    let (rest, out) = AreApart-append cs ds c a.1 in
    let across = lies_in-append b.0 cs (c ∷ ds) in
    let within = lies_in-append b.0 cs ds in ((ground arith, rest), ground arith)

-- What `change` is set to.
abbrev Relinked : Heap → Heap → ℕ → Option ℕ → Type 0
Relinked heap heap' k to' =
    (item : Option ℕ) × (heap' ≡ store heap k (some (record { item = item; next = to' })))

pub relink-IsSegment :
    (heap : Heap) (cs : List Cell) (k : ℕ) (from to to' : Option ℕ)
    → EndsAt cs k
    → AreApart cs
    → IsSegment heap from cs to
    → (item : Option ℕ) × (relink heap (some k) to'
        ≡ some (store heap k (some (record { item = item; next = to' }))))
      × IsSegment (store heap k (some (record { item = item; next = to' }))) from cs to'
unfolding relink store lies_in
relink-IsSegment heap [] k from to to' e a s = absurd e
relink-IsSegment heap (c ∷ []) k from to to' e a (start, next, here, rest) =
    let there = subst (λ i. heap i ≡ some (record { item = c.1; next = next })) e here in
    (c.1, rw (there, relink) refl, (start, to', ground arith, refl))
relink-IsSegment heap (c ∷ d ∷ cs) k from to to' e a (start, next, here, rest) =
    let (item, run, seg) = relink-IsSegment heap (d ∷ cs) k next to to' e a.1 rest in
    (item, run, (start, next, ground (arith, lies_in_end (d ∷ cs) k e, here), seg))

pub AreApart-front : (cs ds : List Cell) → AreApart (cs ++ ds) → AreApart cs
AreApart-front [] ds a = tt
AreApart-front (c ∷ cs) ds a =
    (ground (arith, lies_in-append c.0 cs ds, a.0), AreApart-front cs ds a.1)

-- The address at which some cells end is not among those behind them.
pub lies_in_behind :
    (cs ds : List Cell) (k : ℕ) → EndsAt cs k → AreApart (cs ++ ds) → lies_in k ds ≡ false
unfolding lies_in
lies_in_behind [] ds k e a = absurd e
lies_in_behind (c ∷ []) ds k e a = ground (arith, a.0)
lies_in_behind (c ∷ d ∷ cs) ds k e a = lies_in_behind (d ∷ cs) ds k e a.1
