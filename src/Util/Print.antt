-- ===== src/Util/Print.antt =====
-- The decimal digits that `sprintf` writes for `%d` and `%u` of a number that is not negative.
use bnetd.Prelude.{ℕ, zero, suc, ◌+◌, ◌/◌, ◌%◌, [], ◌∷◌, ltb, if◌then◌else◌}
use bnetd.Prelude.Text.{Text}

-- The digits of `n` before those of `rest`.
unfoldable pub digits : (fuel : ℕ) → ℕ → Text → Text
digits zero n rest = rest
digits (suc fuel) n rest =
    let more = digits fuel (n / 10) ((48 + n % 10) ∷ rest) in
    if ltb n 10 then (48 + n) ∷ rest else more

-- A number of 64 bits has at most 20 digits.
unfoldable pub decimal : ℕ → Text
decimal n = digits 20 n []
