-- ===== src/Elems/Removal.antt =====
-- `list_remove_elem` marks a cell where it lies.
use bnetd.Prelude.{
  ℕ, suc, ◌+◌, ◌-◌, ◌^◌, ◌≡◌, refl, sym, ap, ◌∙◌, List, [], ◌∷◌, ◌++◌, Option, none, some, true,
  length, u32, arith,
}
use bnetd.Elems.{Heap, store, LinkedList, list_remove_elem}
use bnetd.Elems.Purge.{Cell, IsSegment, lies_in, AreApart, store-IsSegment}
use bnetd.Elems.Relink.{lies_in-append}
use bnetd.Elems.Purging.{live, end}
use bnetd.Elems.Represent.{IsList}

module _ (i d : ℕ) (ys : List Cell) where
  abbrev before : List Cell → List Cell
  before xs = xs ++ (i, some d) ∷ ys

  abbrev after : List Cell → List Cell
  after xs = xs ++ (i, none) ∷ ys

  same_places : (j : ℕ) (xs : List Cell) → lies_in j (after xs) ≡ lies_in j (before xs)
  unfolding lies_in
  same_places j xs =
      lies_in-append j xs ((i, none) ∷ ys) ∙ sym (lies_in-append j xs ((i, some d) ∷ ys))

  after-AreApart : (xs : List Cell) → AreApart (before xs) → AreApart (after xs)
  after-AreApart [] a = a
  after-AreApart (c ∷ xs) a = (same_places c.0 xs ∙ a.0, after-AreApart xs a.1)

  after-IsSegment :
      (xs : List Cell) (heap : Heap) (from to : Option ℕ)
      → AreApart (before xs)
      → IsSegment heap from (before xs) to
      → (next : Option ℕ) × (heap i ≡ some (record { item = some d; next = next }))
        × IsSegment (store heap i (some (record { item = none; next = next }))) from (after xs) to
  unfolding store lies_in
  after-IsSegment [] heap from to a (start, next, here, rest) = (
    next,
    here,
    (
      start,
      next,
      ground arith,
      store-IsSegment heap i (some (record { item = none; next = next })) ys next to a.0 rest,
    ),
  )
  after-IsSegment (c ∷ xs) heap from to a (start, next, here, rest) =
      let (next', there, seg) = after-IsSegment xs heap next to a.1 rest in
      (
        next',
        there,
        (start, next, ground (arith, here, lies_in-append c.0 xs ((i, some d) ∷ ys), a.0), seg),
      )

  end-after : (p : Option ℕ) (xs : List Cell) → end p (after xs) ≡ end p (before xs)
  end-after p [] = refl
  end-after p (c ∷ xs) = end-after (some c.0) xs

  live-after : (xs : List Cell) → live (after xs) ≡ live xs ++ live ys
  unfolding live
  live-after [] = refl
  live-after ((j, none) ∷ xs) = live-after xs
  live-after ((j, some e) ∷ xs) = ap (λ x. (j, some e) ∷ x) (live-after xs)

  one_less : (xs : List Cell) → length (live (before xs)) ≡ suc (length (live (after xs)))
  unfolding live
  one_less [] = refl
  one_less ((j, none) ∷ xs) = one_less xs
  one_less ((j, some e) ∷ xs) = ap suc (one_less xs)

  counted_down : (n m k : ℕ) → n ≡ u32 m → m ≡ suc k → u32 (n + 2 ^ 32 - 1) ≡ u32 k
  counted_down n m k e f = omega arith

  -- What comes of a removal: the data is gone, and the other cells are as before.
  pub record IsRemoved (xs : List Cell) (heap' : Heap) (list' : LinkedList) : Type 0 where
    pub stands : IsList heap' list' (xs ++ (i, none) ∷ ys)
    pub remaining : live (xs ++ (i, none) ∷ ys) ≡ live xs ++ live ys

  -- On a list that stands for some cells `list_remove_elem` succeeds for an element that is one of
  -- them and not marked: the element stays in its place
  -- with a mark, and the list stands for the others.
  pub list_remove_elem-IsRemoved :
      (heap : Heap) (list : LinkedList) (xs : List Cell)
      → IsList heap list (xs ++ (i, some d) ∷ ys)
      → (heap' : Heap) × (list' : LinkedList) × (list_remove_elem heap list i
          ≡ some (true, heap', list'))
        × IsRemoved xs heap' list'
  unfolding list_remove_elem
  list_remove_elem-IsRemoved heap list xs v =
      let (next, here, seg) = after-IsSegment xs heap list.head none v.apart v.chain in
      (
        store heap i (some (record { item = none; next = next })),
        record list { len = u32 (list.len + 2 ^ 32 - 1) },
        rw (here, list_remove_elem) refl,
        record {
          stands = record {
            chain = seg;
            last = v.last ∙ sym (end-after none xs);
            counted =
                counted_down list.len (length (live (before xs))) (length (live (after xs)))
                  v.counted (one_less xs);
            apart = after-AreApart xs v.apart;
          };
          remaining = live-after xs;
        },
      )
