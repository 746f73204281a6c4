-- ===== src/Util/Escape.antt =====
-- `escape_chars` and `unescape_chars` of src/common/util.c. The input of the first is the `len`
-- bytes it reads, that of the second a string without its NUL; allocations succeed. `sprintf` and
-- `strtoul` are what they are in C, and `isprint` is that of the C locale.
use bnetd.Prelude.{
  ℕ, zero, suc, ◌+◌, ◌*◌, ◌/◌, ◌%◌, ◌&&◌, ◌||◌, List, [], ◌∷◌, ◌++◌, Option, none, some, ◌==◌, ltb,
  leb, if◌then◌else◌, length, drop,
}
use bnetd.Prelude.Text.{Text}

abbrev pub backslash : ℕ
backslash = b'\\'

-- `%03o`
unfoldable pub octal3 : ℕ → Text
octal3 c = (48 + c / 64) ∷ (48 + c / 8 % 8) ∷ (48 + c % 8) ∷ []

-- One round of the loop of `escape_chars`.
unfoldable pub escape_char : ℕ → Text
escape_char c =
    if c == backslash
    then backslash ∷ backslash ∷ []
    else if c == b'"'
    then backslash ∷ b'"' ∷ []
    else if leb 32 c && ltb c 127
    then c ∷ []
    else if c == 7
    then backslash ∷ b'a' ∷ []
    else if c == 8
    then backslash ∷ b'b' ∷ []
    else if c == 9
    then backslash ∷ b't' ∷ []
    else if c == 10
    then backslash ∷ b'n' ∷ []
    else if c == 11
    then backslash ∷ b'v' ∷ []
    else if c == 12
    then backslash ∷ b'f' ∷ []
    else if c == 13
    then backslash ∷ b'r' ∷ []
    else backslash ∷ octal3 c

unfoldable pub escape_chars : List ℕ → Text
escape_chars [] = []
escape_chars (c ∷ s) = escape_char c ++ escape_chars s

-- The cases of the `switch` in `unescape_chars`.
unfoldable pub control : ℕ → Option ℕ
control c =
    if c == backslash
    then some backslash
    else if c == b'"'
    then some b'"'
    else if c == b'a'
    then some 7
    else if c == b'b'
    then some 8
    else if c == b't'
    then some 9
    else if c == b'n'
    then some 10
    else if c == b'v'
    then some 11
    else if c == b'f'
    then some 12
    else if c == b'r'
    then some 13
    else none

-- The loop that copies up to `n` octal digits to `temp`.
unfoldable pub octal_digits : ℕ → Text → Text
octal_digits zero s = []
octal_digits (suc n) [] = []
octal_digits (suc n) (c ∷ s) = if leb 48 c && ltb c 56 then c ∷ octal_digits n s else []

-- `strtoul` to the base 8 of octal digits, from what is read so far.
unfoldable pub from_octal : ℕ → Text → ℕ
from_octal num [] = num
from_octal num (c ∷ s) = from_octal (num * 8 + c % 8) s

-- The default case: what is appended to the output, and what is left of the input.
unfoldable pub read_octal : Text → Text × Text
read_octal s =
    let temp = octal_digits 3 s in
    let num = from_octal 0 temp in
    (
      if ltb (length temp) 3 || (ltb num 1 || ltb 255 num) then backslash ∷ temp else num ∷ [],
      drop (length temp) s,
    )

unfoldable pub escaped : Text → Text × Text
escaped [] = read_octal []
escaped (c ∷ s) = elim (control c) [ some b ↦ (b ∷ [], s) | none ↦ read_octal (c ∷ s) ]

-- One round of the loop of `unescape_chars`.
unfoldable pub unescape_step : ℕ → Text → Text × Text
unescape_step c s = if c == backslash then escaped s else (c ∷ [], s)

unfoldable pub unescape_loop : (fuel : ℕ) → Text → Text
unescape_loop zero s = []
unescape_loop (suc n) [] = []
unescape_loop (suc n) (c ∷ s) = let (out, rest) = unescape_step c s in out ++ unescape_loop n rest

unfoldable pub unescape_chars : Text → Text
unescape_chars s = unescape_loop (length s) s
