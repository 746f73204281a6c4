-- ===== src/Util/FileName.antt =====
-- `escape_fs_chars` of src/common/util.c, which makes file names of account names. The input is the
-- `len` bytes that are read, and the allocation succeeds.
use bnetd.Prelude.{
  ℕ, ◌+◌, ◌-◌, ◌*◌, ◌/◌, ◌%◌, ◌≤◌, ◌<◌, ◌≡◌, refl, sym, ap, ◌∙◌, Bool, true, ◌&&◌, ◌||◌, not, List,
  [], ◌∷◌, ◌++◌, Option, none, some, ◌==◌, ltb, if◌then◌else◌, length, length-append, arith,
}
use bnetd.Prelude.Text.{Text}
use bnetd.Util.Unescape.{IsBytes}

-- A digit of `%02X`
abbrev pub hex_digit : ℕ → ℕ
hex_digit d = if ltb d 10 then 48 + d else 55 + d

-- One round of the loop.
unfoldable pub escape_fs_char : ℕ → Text
escape_fs_char c =
    if c == 0 || (c == b'%' || (c == b'/' || (c == b'\\' || c == b':')))
    then b'%' ∷ hex_digit (c / 16) ∷ hex_digit (c % 16) ∷ []
    else c ∷ []

unfoldable pub escape_fs_chars : List ℕ → Text
escape_fs_chars [] = []
escape_fs_chars (c ∷ s) = escape_fs_char c ++ escape_fs_chars s

-- Neither the name of another directory nor one with a NUL in it
abbrev pub is_plain : ℕ → Bool
is_plain c = not (c == 0 || (c == b'/' || (c == b'\\' || c == b':')))

unfoldable pub all_plain : Text → Bool
all_plain [] = true
all_plain (c ∷ s) = is_plain c && all_plain s

-- The first byte of a name and what is behind it, where the digits of an escaped byte tell it.
abbrev unhex : ℕ → ℕ
unhex d = if ltb d 58 then d - 48 else d - 55

unfoldable first_byte : Text → Option (ℕ × Text)
first_byte [] = none
first_byte (c ∷ []) = some (c, [])
first_byte (c ∷ d ∷ []) = some (c, d ∷ [])
first_byte (c ∷ d ∷ e ∷ s) =
    if c == b'%' then some (unhex d * 16 + unhex e, s) else some (c, d ∷ e ∷ s)

first_byte-escape_fs_char :
    (c : ℕ) (s : Text) → c < 256 → first_byte (escape_fs_char c ++ s) ≡ some (c, s)
unfolding first_byte escape_fs_char
first_byte-escape_fs_char c [] h = ground arith
first_byte-escape_fs_char c (x ∷ []) h = ground arith
first_byte-escape_fs_char c (x ∷ y ∷ s) h = ground arith

escape_fs_char_plain :
    (c : ℕ) (s : Text) → c < 256 → all_plain s ≡ true → all_plain (escape_fs_char c ++ s) ≡ true
unfolding all_plain escape_fs_char
escape_fs_char_plain c s h e = ground arith

length-escape_fs_char : (c : ℕ) → (1 ≤ length (escape_fs_char c)) × (length (escape_fs_char c) ≤ 3)
unfolding escape_fs_char
length-escape_fs_char c = ground arith

escape_fs_chars_plain : (s : List ℕ) → IsBytes s → all_plain (escape_fs_chars s) ≡ true
unfolding escape_fs_chars all_plain
escape_fs_chars_plain [] v = refl
escape_fs_chars_plain (c ∷ s) v =
    escape_fs_char_plain c (escape_fs_chars s) v.0 (escape_fs_chars_plain s v.1)

length-escape_fs_chars : (s : List ℕ) → length (escape_fs_chars s) ≤ length s * 3
unfolding escape_fs_chars
length-escape_fs_chars [] = omega arith
length-escape_fs_chars (c ∷ s) = omega (
  arith,
  length-append (escape_fs_char c) (escape_fs_chars s),
  length-escape_fs_char c,
  length-escape_fs_chars s,
)

escape_fs_chars_injective :
    (s t : List ℕ) → IsBytes s → IsBytes t → escape_fs_chars s ≡ escape_fs_chars t → s ≡ t
unfolding escape_fs_chars
escape_fs_chars_injective [] [] v w e = refl
escape_fs_chars_injective [] (d ∷ t) v w e = absurd (
    omega (
      arith,
      ap length e,
      length-append (escape_fs_char d) (escape_fs_chars t),
      length-escape_fs_char d,
    ))
escape_fs_chars_injective (c ∷ s) [] v w e = absurd (
    omega (
      arith,
      ap length e,
      length-append (escape_fs_char c) (escape_fs_chars s),
      length-escape_fs_char c,
    ))
escape_fs_chars_injective (c ∷ s) (d ∷ t) v w e =
    let same =
      sym (first_byte-escape_fs_char c (escape_fs_chars s) v.0)
      ∙ ap first_byte e
      ∙ first_byte-escape_fs_char d (escape_fs_chars t) w.0 in
    let rest : escape_fs_chars s ≡ escape_fs_chars t = ground arith in
    let ih = escape_fs_chars_injective s t v.1 w.1 rest in
    let head : c ≡ d = ground arith in cc (head, ih)

-- What the file names of two names have to satisfy.
pub record IsFileName (s t : List ℕ) : Type 0 where
  pub plain : all_plain (escape_fs_chars s) ≡ true
  pub fits : length (escape_fs_chars s) + 1 ≤ length s * 3 + 1
  pub distinct : escape_fs_chars s ≡ escape_fs_chars t → s ≡ t

-- The file name for a name of any bytes has no NUL, slash, backslash or colon, it fits its buffer
-- with its NUL, and no other name has it.
pub escape_fs_chars-IsFileName : (s t : List ℕ) → IsBytes s → IsBytes t → IsFileName s t
escape_fs_chars-IsFileName s t v w = record {
  plain = escape_fs_chars_plain s v;
  fits = omega (arith, length-escape_fs_chars s);
  distinct = escape_fs_chars_injective s t v w;
}
