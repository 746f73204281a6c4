-- ===== src/Elems/Purging.antt =====
-- The loop of `list_purge`, before and after it has met an element that stays.
use bnetd.Prelude.{
  ℕ, zero, suc, ◌<◌, ◌≡◌, refl, sym, ap, ◌∙◌, List, [], ◌∷◌, ◌++◌, Option, none, some, ◌==◌, true,
  false, length, arith, Bool-cases, inl, inr,
}
use mathlib.Core.Path.{subst}
use mathlib.Core.List.{append_assoc}
use bnetd.Elems.{Elem, Heap, store, relink, purge_loop}
use bnetd.Elems.Purge.{Cell, IsSegment, lies_in, AreApart, store-IsSegment, append-IsSegment}
use bnetd.Elems.Relink.{
  EndsAt, EndsAt-append, lies_in-append, AreApart-append, relink-IsSegment, AreApart-front,
  lies_in_behind, lies_in_end,
}

-- The cells that are not marked.
unfoldable pub live : List Cell → List Cell
live [] = []
live ((i, none) ∷ cs) = live cs
live ((i, some item) ∷ cs) = (i, some item) ∷ live cs

-- The address of the last cell, or `k`.
abbrev pub end : Option ℕ → List Cell → Option ℕ
end k [] = k
end k (c ∷ cs) = end (some c.0) cs

abbrev pub first : List Cell → Option ℕ
first [] = none
first (c ∷ cs) = some c.0

-- The cells that are.
unfoldable pub dead : List Cell → List Cell
dead [] = []
dead ((i, none) ∷ cs) = (i, none) ∷ dead cs
dead ((i, some item) ∷ cs) = dead cs

-- The loop with `ks` behind it, of which the last is at `k`, and `rest` before it.
abbrev pub Purged : ℕ → Heap → Option ℕ → ℕ → ℕ → List Cell → List Cell → Type 0
Purged n heap curr head k ks rest =
    (heap' : Heap) × (purge_loop n heap curr (some head) (some k) (some k)
      ≡ some (heap', some head, end (some k) (live rest)))
    × IsSegment heap' (some head) (ks ++ live rest) none
    × ((i : ℕ) → lies_in i (ks ++ rest) ≡ false → heap' i ≡ heap i)
    × ((i : ℕ) → lies_in i (dead rest) ≡ true → heap' i ≡ none)

-- What a round for a marked cell leaves alone.
elsewhere :
    (heap : Heap) (ks rest : List Cell) (k i j : ℕ) (e : Option Elem)
    → EndsAt ks k
    → lies_in j (ks ++ (i, none) ∷ rest) ≡ false
    → (lies_in j (ks ++ rest) ≡ false) × (store (store heap k e) i none j ≡ heap j)
unfolding store lies_in
elsewhere heap ks rest k i j e ends h =
    let across = lies_in-append j ks ((i, none) ∷ rest) in
    let within = lies_in-append j ks rest in
    elim (Bool-cases (j == k)) [
      | inl q ↦
          let same : k ≡ j = ground arith in
          let inside = ap (λ x. lies_in x ks) (sym same) ∙ lies_in_end ks k ends in
          absurd (ground arith)
      | inr q ↦ (ground arith, ground arith)
    ]

gone : (heap : Heap) (i : ℕ) → store heap i none i ≡ none
unfolding store
gone heap i = ground arith

module _ (head : ℕ) where
  purge_behind :
      (rest : List Cell) (n : ℕ) (heap : Heap) (curr : Option ℕ) (k : ℕ) (ks : List Cell)
      → length rest < n
      → EndsAt ks k
      → AreApart (ks ++ rest)
      → IsSegment heap (some head) ks curr
      → IsSegment heap curr rest none
      → Purged n heap curr head k ks rest
  unfolding purge_loop live dead lies_in
  purge_behind [] zero heap curr k ks l e a s t = absurd (omega arith)
  purge_behind [] (suc n) heap curr k ks l e a s t = (
    heap,
    rw (t, purge_loop) refl,
    append-IsSegment heap ks [] (some head) curr none s t,
    λ i h. refl,
    λ i h. ground arith,
  )
  purge_behind (c ∷ rest) zero heap curr k ks l e a s t = absurd (omega arith)
  purge_behind ((i, some item) ∷ rest) (suc n) heap curr k ks l e a s (start, next, here, t) =
      let b = subst AreApart (sym (append_assoc ks ((i, some item) ∷ []) rest)) a in
      let seg =
        append-IsSegment heap ks ((i, some item) ∷ []) (some head) curr next s
          (start, next, here, refl) in
      let (heap', run, whole, frame, freed) =
        purge_behind rest n heap next i (ks ++ (i, some item) ∷ []) (omega arith)
          (EndsAt-append ks (i, some item)) b seg t in
      (
        heap',
        rw (start, here, purge_loop) run,
        subst (λ x. IsSegment heap' (some head) x none)
            (append_assoc ks ((i, some item) ∷ []) (live rest)) whole,
        λ j h. frame j (ap (lies_in j) (append_assoc ks ((i, some item) ∷ []) rest) ∙ h),
        freed,
      )
  purge_behind ((i, none) ∷ rest) (suc n) heap curr k ks l e a s (start, next, here, t) =
      let (b, out) = AreApart-append ks rest (i, none) a in
      let (item, run, seg) =
        relink-IsSegment heap ks k (some head) curr next e (AreApart-front ks ((i, none) ∷ rest) a)
          s in
      let apart = lies_in_behind ks rest k e b in
      let split = lies_in-append i ks rest in
      let linked = store heap k (some (record { item = item; next = next })) in
      let t' = store-IsSegment linked i none rest next none (ground arith) (
        store-IsSegment heap k (some (record { item = item; next = next })) rest next none apart
          t) in
      let s' = store-IsSegment linked i none ks (some head) next (ground arith) seg in
      let (heap', done, whole, frame, freed) =
        purge_behind rest n (store linked i none) next k ks (omega arith) e b s' t' in
      (
        heap',
        rw (start, here, run, purge_loop) done,
        whole,
        λ j h.
            let out =
              elsewhere heap ks rest k i j (some (record { item = item; next = next })) e h in
            frame j out.0 ∙ out.1,
        λ j h. elim (Bool-cases (j == i)) [
          | inl q ↦
              let same : i ≡ j = ground arith in
              subst (λ x. heap' x ≡ none) same (frame i out ∙ gone linked i)
          | inr q ↦ freed j (ground arith)
        ],
      )

-- The loop before it has met a cell that stays.
abbrev pub PurgedFirst : ℕ → Heap → Option ℕ → List Cell → Type 0
PurgedFirst n heap curr rest =
    (heap' : Heap) × (purge_loop n heap curr none none none
      ≡ some (heap', first (live rest), end none (live rest)))
    × IsSegment heap' (first (live rest)) (live rest) none
    × ((i : ℕ) → lies_in i rest ≡ false → heap' i ≡ heap i)
    × ((i : ℕ) → lies_in i (dead rest) ≡ true → heap' i ≡ none)

pub purge_first :
    (rest : List Cell) (n : ℕ) (heap : Heap) (curr : Option ℕ)
    → length rest < n
    → AreApart rest
    → IsSegment heap curr rest none
    → PurgedFirst n heap curr rest
unfolding purge_loop live dead lies_in relink store
purge_first [] zero heap curr l a t = absurd (omega arith)
purge_first [] (suc n) heap curr l a t =
    (heap, rw (t, purge_loop) refl, refl, λ i h. refl, λ i h. ground arith)
purge_first (c ∷ rest) zero heap curr l a t = absurd (omega arith)
purge_first ((i, some item) ∷ rest) (suc n) heap curr l a (start, next, here, t) =
    let (heap', run, whole, frame, freed) =
      purge_behind i rest n heap next i ((i, some item) ∷ []) (omega arith) refl a
        (refl, next, here, refl) t in
    (heap', rw (start, here, purge_loop) run, whole, frame, freed)
purge_first ((i, none) ∷ rest) (suc n) heap curr l a (start, next, here, t) =
    let (heap', run, whole, frame, freed) =
      purge_first rest n (store heap i none) next (omega arith) a.1
        (store-IsSegment heap i none rest next none a.0 t) in
    (
      heap',
      rw (start, here, purge_loop) run,
      whole,
      λ j h. frame j (ground arith) ∙ ground arith,
      λ j h. elim (Bool-cases (j == i)) [
        | inl q ↦
            let same : i ≡ j = ground arith in
            subst (λ x. heap' x ≡ none) same (frame i a.0 ∙ gone heap i)
        | inr q ↦ freed j (ground arith)
      ],
    )
