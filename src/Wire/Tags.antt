-- ===== src/Wire/Tags.antt =====
-- Tags of four characters, and the tags of a `bn_short`.
use bnetd.Prelude.{
  ℕ, ◌<◌, ◌≡◌, ◌↔◌, ◌≢◌, ap, refl, arith, Bool, true, false, [], ◌∷◌, Option, none, some, ◌==◌,
  ◌>>=◌,
}
use bnetd.Prelude.Text.{Text}
use bnetd.Wire.{
  BnInt, bn_int_get, at, copy, bn_short_tag_get, bn_int_tag_get, bn_short_tag_set, bn_int_tag_set,
  bn_int_tag_eq,
}
use bnetd.Wire.Order.{IsInt}

module _ (c0 c1 c2 c3 : ℕ) where
  abbrev pub tag4 : Text
  tag4 = c0 ∷ c1 ∷ c2 ∷ c3 ∷ []

  pub record IsBytes4 : Type 0 where
    pub b0 : c0 < 256
    pub b1 : c1 < 256
    pub b2 : c2 < 256
    pub b3 : c3 < 256

-- The bytes that a tag of four characters is stored in.
abbrev reversed : ℕ → ℕ → ℕ → ℕ → BnInt
reversed c0 c1 c2 c3 = record { b0 = c3; b1 = c2; b2 = c1; b3 = c0 }

-- What `bn_int_tag_set`, `bn_int_tag_get` and `bn_int_tag_eq` have to do with each other.
pub record IsTagCode (src : BnInt) (tag : Text) : Type 0 where
  pub stored : BnInt
  pub set : bn_int_tag_set tag ≡ some stored
  pub get : bn_int_tag_get stored 5 ≡ some tag
  pub equal : (bn_int_tag_eq src tag ≡ some true) ↔ (bn_int_tag_get src 5 ≡ some tag)
  pub other : (bn_int_tag_eq src tag ≡ some false) ↔ (bn_int_tag_get src 5 ≢ some tag)

same_numbers : (s t : BnInt) → IsInt s → IsInt t → bn_int_get s ≡ bn_int_get t → s ≡ t
unfolding bn_int_get
same_numbers s t v w e = ground (arith, v.b0, v.b1, v.b2, v.b3, w.b0, w.b1, w.b2, w.b3)

reversed-IsInt : (c0 c1 c2 c3 : ℕ) → IsBytes4 c0 c1 c2 c3 → IsInt (reversed c0 c1 c2 c3)
reversed-IsInt c0 c1 c2 c3 h = record { b0 = h.b3; b1 = h.b2; b2 = h.b1; b3 = h.b0 }

bn_int_tag_get_iff :
    (s : BnInt) (c0 c1 c2 c3 : ℕ)
    → (bn_int_tag_get s 5 ≡ some (tag4 c0 c1 c2 c3)) ↔ (s ≡ reversed c0 c1 c2 c3)
unfolding bn_int_tag_get copy
bn_int_tag_get_iff s c0 c1 c2 c3 = ground arith

-- A test of two numbers decides what holds exactly if they are equal.
decides :
    {P : Type 0} (a b : ℕ) (t : Option Bool)
    → t ≡ some (a == b)
    → (a ≡ b) ↔ P
    → ((t ≡ some true) ↔ P) × ((t ≡ some false) ↔ (P → ⊥))
decides a b t e (f, g) = (
  (λ q. f (ground arith), λ p. let h = g p in ground arith),
  (λ q p. let h = g p in ground arith, λ n. let h : a ≢ b = λ x. n (f x) in ground arith),
)

bn_int_tag_eq_lem :
    (s : BnInt) (c0 c1 c2 c3 : ℕ)
    → bn_int_tag_eq s (tag4 c0 c1 c2 c3) ≡ some (bn_int_get s == bn_int_get (reversed c0 c1 c2 c3))
unfolding bn_int_tag_eq bn_int_tag_set at
bn_int_tag_eq_lem s c0 c1 c2 c3 = refl

-- A tag of four characters is read back as it was stored. Any four bytes are found equal to it
-- exactly if it is what is read from them, and found different otherwise.
pub bn_int-IsTagCode :
    (s : BnInt) (c0 c1 c2 c3 : ℕ) → IsInt s → IsBytes4 c0 c1 c2 c3 → IsTagCode s (tag4 c0 c1 c2 c3)
unfolding bn_int_tag_set at
bn_int-IsTagCode s c0 c1 c2 c3 v h =
    let same = same_numbers s (reversed c0 c1 c2 c3) v (reversed-IsInt c0 c1 c2 c3 h) in
    let read = bn_int_tag_get_iff s c0 c1 c2 c3 in
    let tests =
      decides (bn_int_get s) (bn_int_get (reversed c0 c1 c2 c3))
        (bn_int_tag_eq s (tag4 c0 c1 c2 c3)) (bn_int_tag_eq_lem s c0 c1 c2 c3)
        (λ e. read.1 (same e), λ e. ap bn_int_get (read.0 e)) in
    record {
      stored = reversed c0 c1 c2 c3;
      set = refl;
      get = (bn_int_tag_get_iff (reversed c0 c1 c2 c3) c0 c1 c2 c3).1 refl;
      equal = tests.0;
      other = tests.1;
    }

-- The third and the fourth byte of a string, the NUL behind its end included.
abbrev pub second_half : Text → Option Text
second_half (c0 ∷ c1 ∷ c2 ∷ []) = some (c2 ∷ 0 ∷ [])
second_half (c0 ∷ c1 ∷ c2 ∷ c3 ∷ rest) = some (c2 ∷ c3 ∷ [])
second_half _ = none

-- What is stored of a tag in a `bn_short` is not its first two characters but the third and the
-- fourth, and for a tag of two characters `bn_short_tag_set` reads behind the end of the string.
pub bn_short_tag_set-second_half :
    (tag : Text) → (do s ← bn_short_tag_set tag; bn_short_tag_get s 3) ≡ second_half tag
unfolding bn_short_tag_set bn_short_tag_get at copy
bn_short_tag_set-second_half [] = refl
bn_short_tag_set-second_half (c0 ∷ []) = refl
bn_short_tag_set-second_half (c0 ∷ c1 ∷ []) = refl
bn_short_tag_set-second_half (c0 ∷ c1 ∷ c2 ∷ []) = refl
bn_short_tag_set-second_half (c0 ∷ c1 ∷ c2 ∷ c3 ∷ rest) = refl
