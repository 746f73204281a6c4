-- ===== src/Util/Unescape.antt =====
-- `escape_chars` and `unescape_chars` one after the other, and the buffer of the first.
use bnetd.Prelude.{
  ℕ, zero, suc, ◌+◌, ◌*◌, ◌≤◌, ◌<◌, ◌≡◌, refl, ap, List, [], ◌∷◌, ◌++◌, length, length-append,
  arith,
}
use bnetd.Prelude.Text.{Text}
use bnetd.Util.Escape.{
  octal3, escape_char, escape_chars, control, octal_digits, from_octal, read_octal, escaped,
  unescape_step, unescape_loop, unescape_chars,
}

-- The bytes are those of a C string.
abbrev pub IsString : List ℕ → Type 0
IsString [] = Unit
IsString (c ∷ s) = (0 < c) × (c < 256) × IsString s

-- An escaped byte, taken apart.
abbrev pub IsReadBack : ℕ → Text → Text → Type 0
IsReadBack c [] rest = ⊥
IsReadBack c (x ∷ xs) rest = unescape_step x (xs ++ rest) ≡ (c ∷ [], rest)

escape_char-IsReadBack : (c : ℕ) (rest : Text) → 0 < c → c < 256 → IsReadBack c (escape_char c) rest
unfolding escape_char octal3 unescape_step escaped control read_octal octal_digits from_octal
escape_char-IsReadBack c rest h k = ground arith

nonempty : (c : ℕ) → 0 < length (escape_char c)
unfolding escape_char
nonempty c = ground arith

decode_one :
    (c : ℕ) (s : List ℕ) (t : Text) (m : ℕ) (e : Text)
    → ((k : ℕ) → length t ≤ k → unescape_loop k t ≡ s)
    → 0 < length e
    → IsReadBack c e t
    → length (e ++ t) ≤ m
    → unescape_loop m (e ++ t) ≡ c ∷ s
unfolding unescape_loop
decode_one c s t m [] ih p b l = absurd b
decode_one c s t zero (x ∷ xs) ih p b l = absurd (omega arith)
decode_one c s t (suc m) (x ∷ xs) ih p b l =
    rw b (ap (λ y. c ∷ y) (ih m (omega (arith, length-append xs t))))

-- Enough fuel is the length of the escaped text.
loop-escape_chars :
    (s : List ℕ) (n : ℕ)
    → IsString s
    → length (escape_chars s) ≤ n
    → unescape_loop n (escape_chars s) ≡ s
unfolding escape_chars unescape_loop
loop-escape_chars [] zero v h = refl
loop-escape_chars [] (suc n) v h = refl
loop-escape_chars (c ∷ s) n v h =
    decode_one c s (escape_chars s) n (escape_char c) (λ k. loop-escape_chars s k v.2) (nonempty c)
      (escape_char-IsReadBack c (escape_chars s) v.0 v.1) h

-- Escaping a C string and unescaping the result gives the string again.
pub unescape_chars-escape_chars : (s : List ℕ) → IsString s → unescape_chars (escape_chars s) ≡ s
unfolding unescape_chars
unescape_chars-escape_chars s v = loop-escape_chars s (length (escape_chars s)) v (omega arith)

-- The bytes are printable ASCII characters.
abbrev pub IsPrintable : Text → Type 0
IsPrintable [] = Unit
IsPrintable (c ∷ s) = (32 ≤ c) × (c < 127) × IsPrintable s

abbrev pub IsBytes : List ℕ → Type 0
IsBytes [] = Unit
IsBytes (c ∷ s) = (c < 256) × IsBytes s

pub IsPrintable-append : (s t : Text) → IsPrintable s → IsPrintable t → IsPrintable (s ++ t)
IsPrintable-append [] t v w = w
IsPrintable-append (c ∷ s) t v w = (v.0, v.1, IsPrintable-append s t v.2 w)

escape_char-IsPrintable :
    (c : ℕ) → c < 256 → IsPrintable (escape_char c) × (length (escape_char c) ≤ 4)
unfolding escape_char octal3
escape_char-IsPrintable c h = ground arith

-- What `escape_chars` makes of any bytes is printable, and with its NUL it fits the buffer of four
-- bytes for each of them and one more.
pub escape_chars-IsPrintable :
    (s : List ℕ)
    → IsBytes s
    → IsPrintable (escape_chars s) × (length (escape_chars s) + 1 ≤ length s * 4 + 1)
unfolding escape_chars
escape_chars-IsPrintable [] v = (tt, omega arith)
escape_chars-IsPrintable (c ∷ s) v =
    let (p, l) = escape_char-IsPrintable c v.0 in
    let (ps, ls) = escape_chars-IsPrintable s v.1 in
    (
      IsPrintable-append (escape_char c) (escape_chars s) p ps,
      omega (arith, length-append (escape_char c) (escape_chars s)),
    )
