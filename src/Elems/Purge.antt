-- ===== src/Elems/Purge.antt =====
-- Lists in the heap: the elements as cells with an address, chained by `next`.
use bnetd.Prelude.{ℕ, ◌≡◌, sym, List, [], ◌∷◌, ◌++◌, Option, some, ◌==◌, Bool, false, ◌||◌, arith}
use mathlib.Core.Path.{subst}
use bnetd.Elems.{Elem, Heap, store}

-- An element of a list: its address and its data.
abbrev pub Cell : Type 0
Cell = ℕ × Option ℕ

-- The cells lie in the heap from the first address to the second.
abbrev pub IsSegment : Heap → Option ℕ → List Cell → Option ℕ → Type 0
IsSegment heap from [] to = from ≡ to
IsSegment heap from (c ∷ cs) to =
    (from ≡ some c.0)
    × (next : Option ℕ) × (heap c.0 ≡ some (record { item = c.1; next = next }))
    × IsSegment heap next cs to

unfoldable pub lies_in : ℕ → List Cell → Bool
lies_in i [] = false
lies_in i (c ∷ cs) = i == c.0 || lies_in i cs

abbrev pub AreApart : List Cell → Type 0
AreApart [] = Unit
AreApart (c ∷ cs) = (lies_in c.0 cs ≡ false) × AreApart cs

-- A write elsewhere leaves a segment alone.
pub store-IsSegment :
    (heap : Heap) (i : ℕ) (e : Option Elem) (cs : List Cell) (from to : Option ℕ)
    → lies_in i cs ≡ false
    → IsSegment heap from cs to
    → IsSegment (store heap i e) from cs to
unfolding store lies_in
store-IsSegment heap i e [] from to h s = s
store-IsSegment heap i e (c ∷ cs) from to h (start, next, here, rest) =
    (start, next, ground (arith, here), store-IsSegment heap i e cs next to (ground arith) rest)

pub append-IsSegment :
    (heap : Heap) (cs ds : List Cell) (from mid to : Option ℕ)
    → IsSegment heap from cs mid
    → IsSegment heap mid ds to
    → IsSegment heap from (cs ++ ds) to
append-IsSegment heap [] ds from mid to s t = subst (λ x. IsSegment heap x ds to) (sym s) t
append-IsSegment heap (c ∷ cs) ds from mid to (start, next, here, rest) t =
    (start, next, here, append-IsSegment heap cs ds next mid to rest t)
