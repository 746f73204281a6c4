-- ===== src/Elems/Represent.antt =====
-- What the operations of src/common/list.c do to the cells that a list stands for.
use bnetd.Prelude.{
  ℕ, ◌+◌, ◌<◌, ◌≡◌, refl, sym, ap, ◌∙◌, List, [], ◌∷◌, ◌++◌, Option, none, some, ◌==◌, true, false,
  length, length-append, u32, arith, Bool-cases, inl, inr,
}
use bnetd.Elems.{
  Elem, Heap, store, LinkedList, relink, list_purge, or_else, list_prepend_data, list_append_data,
}
use bnetd.Elems.Purge.{Cell, IsSegment, lies_in, AreApart, store-IsSegment, append-IsSegment}
use bnetd.Elems.Relink.{EndsAt, lies_in-append, relink-IsSegment, lies_in_end}
use bnetd.Elems.Purging.{live, dead, end, first, purge_first}

-- The list stands for the cells: they are chained from `head` to `tail`, and `len` counts those
-- that are not marked, as far as 32 bits hold it.
pub record IsList (heap : Heap) (list : LinkedList) (cs : List Cell) : Type 0 where
  pub chain : IsSegment heap list.head cs none
  pub last : list.tail ≡ end none cs
  pub counted : list.len ≡ u32 (length (live cs))
  pub apart : AreApart cs

live_twice : (cs : List Cell) → live (live cs) ≡ live cs
unfolding live
live_twice [] = refl
live_twice ((i, none) ∷ cs) = live_twice cs
live_twice ((i, some item) ∷ cs) = ap (λ x. (i, some item) ∷ x) (live_twice cs)

lies_in-live : (i : ℕ) (cs : List Cell) → lies_in i cs ≡ false → lies_in i (live cs) ≡ false
unfolding live lies_in
lies_in-live i [] h = refl
lies_in-live i ((j, none) ∷ cs) h = lies_in-live i cs (ground arith)
lies_in-live i ((j, some item) ∷ cs) h = ground (arith, lies_in-live i cs)

AreApart-live : (cs : List Cell) → AreApart cs → AreApart (live cs)
unfolding live
AreApart-live [] a = tt
AreApart-live ((i, none) ∷ cs) a = AreApart-live cs a.1
AreApart-live ((i, some item) ∷ cs) a = (lies_in-live i cs a.0, AreApart-live cs a.1)

-- What comes of a purge.
pub record IsPurged (heap : Heap) (cs : List Cell) (heap' : Heap) (list : LinkedList) : Type 0 where
  pub stands : IsList heap' list (live cs)
  pub freed : (i : ℕ) → lies_in i (dead cs) ≡ true → heap' i ≡ none
  pub others : (i : ℕ) → lies_in i cs ≡ false → heap' i ≡ heap i

-- On a list that stands for some cells, with more fuel than there are cells, `list_purge` comes to
-- its end and reads and writes only what is allocated. It frees the marked cells, touches nothing
-- outside the list, and the list stands for the cells that are left.
pub list_purge-IsPurged :
    (heap : Heap) (list : LinkedList) (cs : List Cell) (fuel : ℕ)
    → IsList heap list cs
    → length cs < fuel
    → (heap' : Heap) × (list' : LinkedList) × (list_purge fuel heap list ≡ some (heap', list'))
      × IsPurged heap cs heap' list'
unfolding list_purge
list_purge-IsPurged heap list cs fuel v l =
    let (heap', run, whole, frame, freed) = purge_first cs fuel heap list.head l v.apart v.chain in
    (
      heap',
      record list { head = first (live cs); tail = end none (live cs) },
      rw (run, list_purge) refl,
      record {
        stands = record {
          chain = whole;
          last = refl;
          counted = v.counted ∙ ap (λ x. u32 (length x)) (sym (live_twice cs));
          apart = AreApart-live cs v.apart;
        };
        freed = freed;
        others = frame;
      },
    )

or_else-end : (k elem : ℕ) (cs : List Cell) → or_else (end (some k) cs) elem ≡ end (some k) cs
or_else-end k elem [] = refl
or_else-end k elem (c ∷ cs) = or_else-end c.0 elem cs

end_of_new : (elem : ℕ) (cs : List Cell) → or_else (end none cs) elem ≡ end (some elem) cs
end_of_new elem [] = refl
end_of_new elem (c ∷ cs) = or_else-end c.0 elem cs

end-append : (p : Option ℕ) (cs : List Cell) (c : Cell) → end p (cs ++ c ∷ []) ≡ some c.0
end-append p [] c = refl
end-append p (d ∷ cs) c = end-append (some d.0) cs c

end-EndsAt :
    (c : Cell) (cs : List Cell) → (k : ℕ) × (end none (c ∷ cs) ≡ some k) × EndsAt (c ∷ cs) k
end-EndsAt c [] = (c.0, refl, refl)
end-EndsAt c (d ∷ cs) = end-EndsAt d cs

live-append :
    (cs : List Cell) (i item : ℕ)
    → live (cs ++ (i, some item) ∷ []) ≡ live cs ++ (i, some item) ∷ []
unfolding live
live-append [] i item = refl
live-append ((j, none) ∷ cs) i item = live-append cs i item
live-append ((j, some d) ∷ cs) i item = ap (λ x. (j, some d) ∷ x) (live-append cs i item)

-- A new cell behind the others is apart from them.
AreApart-snoc :
    (cs : List Cell) (c : Cell) → AreApart cs → lies_in c.0 cs ≡ false → AreApart (cs ++ c ∷ [])
unfolding lies_in
AreApart-snoc [] c a h = (refl, tt)
AreApart-snoc (d ∷ cs) c a h =
    (ground (arith, lies_in-append d.0 cs (c ∷ []), a.0), AreApart-snoc cs c a.1 (ground arith))

one_more : (n m : ℕ) → n ≡ u32 m → u32 (n + 1) ≡ u32 (m + 1)
one_more n m e = omega arith

-- On a list that stands for some cells, and with an element that is none of them,
-- `list_prepend_data` succeeds and gives a list that stands for the new cell before the others.
list_prepend_data-IsList :
    (heap : Heap) (list : LinkedList) (cs : List Cell) (elem item : ℕ)
    → IsList heap list cs
    → lies_in elem cs ≡ false
    → (heap' : Heap) × (list' : LinkedList) × (list_prepend_data heap list elem item
        ≡ some (heap', list'))
      × IsList heap' list' ((elem, some item) ∷ cs)
unfolding list_prepend_data store live
list_prepend_data-IsList heap list cs elem item v new =
    let e : Option Elem = some (record { item = some item; next = list.head }) in
    (
      store heap elem e,
      record { len = u32 (list.len + 1); head = some elem; tail = or_else list.tail elem },
      refl,
      record {
        chain = (
          refl,
          list.head,
          ground arith,
          store-IsSegment heap elem e cs list.head none new v.chain,
        );
        last = ap (λ x. or_else x elem) v.last ∙ end_of_new elem cs;
        counted = one_more list.len (length (live cs)) v.counted ∙ omega arith;
        apart = (new, v.apart);
      },
    )

append_run :
    (heap heap' : Heap) (list : LinkedList) (elem item k c : ℕ)
    → list.tail ≡ some k
    → list.head ≡ some c
    → relink
        (store heap elem (some (record { item = some item; next = none })))
        (some k)
        (some elem)
      ≡ some heap'
    → list_append_data heap list elem item
      ≡ some (heap', record { len = u32 (list.len + 1); head = list.head; tail = some elem })
unfolding list_append_data
append_run heap heap' list elem item k c tail head run = rw (tail, run, head, list_append_data) refl

not_the_end :
    (cs : List Cell) (k elem : ℕ) → EndsAt cs k → lies_in elem cs ≡ false → (elem == k) ≡ false
not_the_end cs k elem e h = elim (Bool-cases (elem == k)) [
  | inl q ↦
      let same : k ≡ elem = ground arith in
      absurd (ground (arith, ap (λ x. lies_in x cs) same, lies_in_end cs k e))
  | inr q ↦ q
]

kept_new :
    (heap : Heap) (k elem : ℕ) (e f : Option Elem)
    → (elem == k) ≡ false
    → store (store heap elem e) k f elem ≡ e
unfolding store
kept_new heap k elem e f h = ground arith

one_live :
    (cs : List Cell) (elem item : ℕ)
    → length (live (cs ++ (elem, some item) ∷ [])) ≡ length (live cs) + 1
one_live cs elem item =
    ap length (live-append cs elem item) ∙ length-append (live cs) ((elem, some item) ∷ [])

-- On a list that stands for some cells, and with an element that is none of them,
-- `list_append_data` succeeds and gives a list that stands for the new cell behind the others.
list_append_data-IsList :
    (heap : Heap) (list : LinkedList) (cs : List Cell) (elem item : ℕ)
    → IsList heap list cs
    → lies_in elem cs ≡ false
    → (heap' : Heap) × (list' : LinkedList) × (list_append_data heap list elem item
        ≡ some (heap', list'))
      × IsList heap' list' (cs ++ (elem, some item) ∷ [])
unfolding list_append_data store relink live lies_in
list_append_data-IsList heap list [] elem item v new =
    let e : Option Elem = some (record { item = some item; next = none }) in
    (
      store heap elem e,
      record { len = u32 (list.len + 1); head = some elem; tail = some elem },
      rw (v.last, v.chain, list_append_data) refl,
      record {
        chain = (refl, none, ground arith, refl);
        last = refl;
        counted = one_more list.len 0 v.counted;
        apart = (refl, tt);
      },
    )
list_append_data-IsList heap list (c ∷ cs) elem item v new =
    let e : Option Elem = some (record { item = some item; next = none }) in
    let (k, tail, ends) = end-EndsAt c cs in
    let old = store-IsSegment heap elem e (c ∷ cs) list.head none new v.chain in
    let (item', run, seg) =
      relink-IsSegment (store heap elem e) (c ∷ cs) k list.head none (some elem) ends v.apart old in
    (
      store (store heap elem e) k (some (record { item = item'; next = some elem })),
      record { len = u32 (list.len + 1); head = list.head; tail = some elem },
      append_run heap _ list elem item k c.0 (v.last ∙ tail) v.chain.0 run,
      record {
        chain =
            append-IsSegment _ (c ∷ cs) ((elem, some item) ∷ []) list.head (some elem) none seg
              (refl, none, kept_new heap k elem e _ (not_the_end (c ∷ cs) k elem ends new), refl);
        last = sym (end-append none (c ∷ cs) (elem, some item));
        counted =
            one_more list.len (length (live (c ∷ cs))) v.counted
            ∙ ap u32 (sym (one_live (c ∷ cs) elem item));
        apart = AreApart-snoc (c ∷ cs) (elem, some item) v.apart new;
      },
    )

-- A list on the heap that stands for some cells.
abbrev pub GivesList : Option (Heap × LinkedList) → List Cell → Type 0
GivesList made cs =
    (heap' : Heap) × (list' : LinkedList) × (made ≡ some (heap', list')) × IsList heap' list' cs

-- On a list that stands for some cells, and with an element that is none of them,
-- `list_append_data` and `list_prepend_data` succeed, and give lists that stand for the new cell
-- behind the others and before them.
pub add_data-GivesList :
    (heap : Heap) (list : LinkedList) (cs : List Cell) (elem item : ℕ)
    → IsList heap list cs
    → lies_in elem cs ≡ false
    → GivesList (list_append_data heap list elem item) (cs ++ (elem, some item) ∷ [])
      × GivesList (list_prepend_data heap list elem item) ((elem, some item) ∷ cs)
add_data-GivesList heap list cs elem item v new = (
  list_append_data-IsList heap list cs elem item v new,
  list_prepend_data-IsList heap list cs elem item v new,
)
