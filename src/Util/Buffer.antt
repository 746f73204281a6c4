-- ===== src/Util/Buffer.antt =====
-- The buffer of `unescape_chars` and the fuel of its loop.
use bnetd.Prelude.{
  ℕ, zero, suc, ◌+◌, ◌≤◌, ◌≡◌, refl, sym, ap, [], ◌∷◌, ◌++◌, length, length-append, length-drop,
  arith,
}
use bnetd.Prelude.Text.{Text}
use bnetd.Util.Escape.{
  octal_digits, read_octal, escaped, unescape_step, unescape_loop, unescape_chars,
}

octal_digits_short : (n : ℕ) (s : Text) → length (octal_digits n s) ≤ length s
unfolding octal_digits
octal_digits_short zero s = omega arith
octal_digits_short (suc n) [] = omega arith
octal_digits_short (suc n) (c ∷ s) = ground (arith, octal_digits_short n s)

-- One round takes in at least as many bytes as it puts out.
abbrev IsShrinking : Text → Text × Text → Type 0
IsShrinking s r = (length r.0 + length r.1 ≤ suc (length s)) × (length r.1 ≤ length s)

read_octal-IsShrinking : (s : Text) → IsShrinking s (read_octal s)
unfolding read_octal
read_octal-IsShrinking s =
    ground (arith, octal_digits_short 3 s, length-drop (length (octal_digits 3 s)) s)

unescape_step-IsShrinking : (c : ℕ) (s : Text) → IsShrinking s (unescape_step c s)
unfolding unescape_step escaped
unescape_step-IsShrinking c [] = ground (arith, read_octal-IsShrinking [])
unescape_step-IsShrinking c (d ∷ s) = ground (arith, read_octal-IsShrinking (d ∷ s))

-- The output is not longer than the input, and more fuel than its length makes no difference.
loop_bounded :
    (n m : ℕ) (s : Text)
    → length s ≤ n
    → length s ≤ m
    → (length (unescape_loop n s) ≤ length s) × (unescape_loop n s ≡ unescape_loop m s)
unfolding unescape_loop
loop_bounded zero zero [] h k = (omega arith, refl)
loop_bounded zero (suc m) [] h k = (omega arith, refl)
loop_bounded (suc n) zero [] h k = (omega arith, refl)
loop_bounded (suc n) (suc m) [] h k = (omega arith, refl)
loop_bounded zero m (c ∷ s) h k = absurd (omega arith)
loop_bounded n zero (c ∷ s) h k = absurd (omega arith)
loop_bounded (suc n) (suc m) (c ∷ s) h k =
    let r = unescape_step c s in
    let (shrinks, less) = unescape_step-IsShrinking c s in
    let (short, same) = loop_bounded n m r.1 (omega arith) (omega arith) in
    (omega (arith, length-append r.0 (unescape_loop n r.1)), ap (λ t. r.0 ++ t) same)

-- For any string the loop of `unescape_chars` ends within as many rounds as the string has bytes,
-- and with its NUL what it writes fits the buffer, which has the size of the string.
pub unescape_chars_bounded :
    (s : Text) (fuel : ℕ)
    → length s ≤ fuel
    → (length (unescape_chars s) + 1 ≤ length s + 1) × (unescape_loop fuel s ≡ unescape_chars s)
unfolding unescape_chars
unescape_chars_bounded s fuel h =
    let (short, same) = loop_bounded (length s) fuel s (omega arith) h in (omega arith, sym same)
