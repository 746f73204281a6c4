-- ===== src/Util/Printed.antt =====
-- Reading a number that `sprintf` wrote.
use bnetd.Prelude.{
  ℕ, zero, suc, ◌+◌, ◌*◌, ◌/◌, ◌%◌, ◌^◌, ◌≤◌, ◌<◌, ◌≡◌, refl, ap, ◌∙◌, inl, inr, [], ◌∷◌, some, ltb,
  Bool-cases, arith,
}
use bnetd.Prelude.Text.{Text}
use bnetd.Util.Number.{digit, skip_blanks, skip_plus, str_to_uint}
use bnetd.Util.Print.{digits}
use bnetd.Util.Print
use bnetd.Util.Decimal.{decimal, bounded, str_to_uint-number_in}

abbrev pow10 : ℕ → ℕ
pow10 zero = 1
pow10 (suc n) = 10 * pow10 n

digit-char : (n : ℕ) → n < 10 → digit (48 + n) ≡ some n
unfolding digit
digit-char n h = ground (arith, h)

decimal-digits :
    (fuel n : ℕ) (rest : Text)
    → 0 < fuel
    → n < pow10 fuel
    → decimal 0 (digits fuel n rest) ≡ decimal n rest
unfolding digits decimal
decimal-digits zero n rest k h = elim k [ ]
decimal-digits (suc fuel) n rest k h = elim (Bool-cases (ltb n 10)) [
  | inl e ↦ rw (e, digit-char n (ground (arith, e))) (ap (λ v. decimal v rest) (omega arith))
  | inr e ↦
      let last = digit-char (n % 10) (omega arith) in
      let more =
        decimal-digits fuel (n / 10) ((48 + n % 10) ∷ rest) (ground (arith, e, h))
          (ground (arith, e, h)) in
      rw (e, more, last) (ap (λ v. decimal v rest) (omega arith))
]

-- A text that starts with a digit.
abbrev IsNumeral : Text → Type 0
IsNumeral [] = Unit
IsNumeral (c ∷ s) = (48 ≤ c) × (c ≤ 57)

digits-IsNumeral : (fuel n : ℕ) (rest : Text) → IsNumeral rest → IsNumeral (digits fuel n rest)
unfolding digits
digits-IsNumeral zero n rest v = v
digits-IsNumeral (suc fuel) n rest v =
    let more = digits-IsNumeral fuel (n / 10) ((48 + n % 10) ∷ rest) (omega arith, omega arith) in
    ground (arith, more)

skip-IsNumeral : (s : Text) → IsNumeral s → skip_plus (skip_blanks s) ≡ s
unfolding skip_plus skip_blanks
skip-IsNumeral [] v = refl
skip-IsNumeral (c ∷ s) v = ground (arith, v.0, v.1)

-- A number of 32 bits is read back.
pub str_to_uint-decimal : (n : ℕ) → n < 2 ^ 32 → str_to_uint (Print.decimal n) ≡ some n
unfolding Print.decimal decimal
str_to_uint-decimal n h =
    let text = digits 20 n [] in
    let read = decimal-digits 20 n [] (omega arith) (omega (arith, h)) in
    (str_to_uint-number_in text).0
    ∙ ap (λ s. bounded (2 ^ 32) (decimal 0 s)) (skip-IsNumeral text (digits-IsNumeral 20 n [] tt))
    ∙ ap (bounded (2 ^ 32)) read
    ∙ ground (arith, h)
