-- ===== src/Util/Decimal.antt =====
-- `str_to_uint` and `str_to_ushort` beside a parser of numbers without a bound.
use bnetd.Prelude.{
  ℕ, ◌+◌, ◌*◌, ◌^◌, ◌<◌, ◌≤◌, ◌≡◌, refl, sym, [], ◌∷◌, Option, none, some, ltb, if◌then◌else◌,
  ◌>>=◌, arith, Option-cases, Bool-cases, inl, inr,
}
use bnetd.Prelude.Text.{Text}
use bnetd.Util.Number.{
  skip_blanks, skip_plus, digit, uint_step, ushort_step, uint_loop, ushort_loop, str_to_uint,
  str_to_ushort,
}

-- The number that decimal digits stand for, after a number that stands in front of them.
unfoldable pub decimal : ℕ → Text → Option ℕ
decimal val [] = some val
decimal val (c ∷ s) = do d ← digit c; decimal (val * 10 + d) s

-- A number if it is in bounds.
abbrev pub bounded : ℕ → Option ℕ → Option ℕ
bounded m none = none
bounded m (some v) = if ltb v m then some v else none

decimal_grows : (s : Text) (val v : ℕ) → decimal val s ≡ some v → val ≤ v
unfolding decimal
decimal_grows [] val v h = ground arith
decimal_grows (c ∷ s) val v h = elim (Option-cases (digit c)) [
  | inl e ↦ ground arith
  | inr (d, e) ↦ let b = decimal_grows s (val * 10 + d) v (ground arith) in omega arith
]

-- Digits behind a number that is too large do not make it smaller.
too_large : (s : Text) (m val : ℕ) → m ≤ val → bounded m (decimal val s) ≡ none
too_large s m val h = elim (Option-cases (decimal val s)) [
  | inl e ↦ rw e refl
  | inr (v, e) ↦ let b = decimal_grows s val v e in rw e (ground arith)
]

uint_step_lem :
    (val c : ℕ)
    → val < 2 ^ 32
    → uint_step val c
      ≡ (do d ← digit c; if ltb (val * 10 + d) (2 ^ 32) then some (val * 10 + d) else none)
unfolding uint_step digit
uint_step_lem val c h = ground arith

ushort_step_lem :
    (val c : ℕ)
    → val < 2 ^ 16
    → ushort_step val c
      ≡ (do d ← digit c; if ltb (val * 10 + d) (2 ^ 16) then some (val * 10 + d) else none)
unfolding ushort_step digit
ushort_step_lem val c h = ground arith

uint_loop_lem :
    (s : Text) (val : ℕ) → val < 2 ^ 32 → uint_loop val s ≡ bounded (2 ^ 32) (decimal val s)
unfolding uint_loop decimal
uint_loop_lem [] val h = ground arith
uint_loop_lem (c ∷ s) val h = elim (Option-cases (digit c)) [
  | inl e ↦ rw (uint_step_lem val c h, e) refl
  | inr (d, e) ↦ elim (Bool-cases (ltb (val * 10 + d) (2 ^ 32))) [
    | inl t ↦ rw (uint_step_lem val c h, e, t) (uint_loop_lem s (val * 10 + d) (ground arith))
    | inr t ↦
        rw (uint_step_lem val c h, e, t) (sym (too_large s (2 ^ 32) (val * 10 + d) (ground arith)))
  ]
]

ushort_loop_lem :
    (s : Text) (val : ℕ) → val < 2 ^ 16 → ushort_loop val s ≡ bounded (2 ^ 16) (decimal val s)
unfolding ushort_loop decimal
ushort_loop_lem [] val h = ground arith
ushort_loop_lem (c ∷ s) val h = elim (Option-cases (digit c)) [
  | inl e ↦ rw (ushort_step_lem val c h, e) refl
  | inr (d, e) ↦ elim (Bool-cases (ltb (val * 10 + d) (2 ^ 16))) [
    | inl t ↦ rw (ushort_step_lem val c h, e, t) (ushort_loop_lem s (val * 10 + d) (ground arith))
    | inr t ↦
        rw (ushort_step_lem val c h, e, t)
          (sym (too_large s (2 ^ 16) (val * 10 + d) (ground arith)))
  ]
]

-- The digits of a number as the source takes them: blanks and one `+` may stand in front.
abbrev pub number_in : Text → Option ℕ
number_in str = decimal 0 (skip_plus (skip_blanks str))

-- Both parsers give the number that the digits stand for if there are only digits and it fits, and
-- fail otherwise: their tests for overflow in the type itself find every overflow and no other.
pub str_to_uint-number_in :
    (str : Text)
    → (str_to_uint str ≡ bounded (2 ^ 32) (number_in str))
      × (str_to_ushort str ≡ bounded (2 ^ 16) (number_in str))
unfolding str_to_uint str_to_ushort
str_to_uint-number_in str = (
  uint_loop_lem (skip_plus (skip_blanks str)) 0 (omega arith),
  ushort_loop_lem (skip_plus (skip_blanks str)) 0 (omega arith),
)
