-- ===== src/Util/Tests.antt =====
-- The theorems on strings at some texts, and runs of the functions.
use bnetd.Prelude.{ℕ, ◌+◌, ◌^◌, ◌≤◌, ◌≡◌, refl, arith, List, [], ◌∷◌, length}
use bnetd.Prelude.Text.{codes}
use bnetd.Util.Escape.{
  escape_char, escape_chars, octal3, control, octal_digits, from_octal, read_octal, escaped,
  unescape_step, unescape_loop, unescape_chars,
}
use bnetd.Util.Unescape.{IsString, IsBytes, unescape_chars-escape_chars}
use bnetd.Util.Buffer.{unescape_chars_bounded}
use bnetd.Util.FileName.{IsFileName, escape_fs_chars-IsFileName}
use bnetd.Util.Number.{str_to_uint, str_to_ushort}
use bnetd.Util.Decimal.{bounded, number_in, str_to_uint-number_in}

abbrev mixed : List ℕ
mixed = 7 ∷ b'"' ∷ b'a' ∷ b'\\' ∷ 200 ∷ []

mixed-IsString : IsString mixed
mixed-IsString = (
  omega arith,
  omega arith,
  (
    omega arith,
    omega arith,
    (omega arith, omega arith, (omega arith, omega arith, (omega arith, omega arith, tt))),
  ),
)

mixed-IsBytes : IsBytes mixed
mixed-IsBytes = (omega arith, (omega arith, (omega arith, (omega arith, (omega arith, tt)))))

unescape_chars-escape_chars_example : unescape_chars (escape_chars mixed) ≡ mixed
unescape_chars-escape_chars_example = unescape_chars-escape_chars mixed mixed-IsString

unescape_chars_bounded_example :
    (length (unescape_chars (codes "a\\101\\9")) + 1 ≤ length (codes "a\\101\\9") + 1)
    × (unescape_loop 20 (codes "a\\101\\9") ≡ unescape_chars (codes "a\\101\\9"))
unescape_chars_bounded_example = unescape_chars_bounded (codes "a\\101\\9") 20 (omega arith)

escape_fs_chars-IsFileName_example : IsFileName mixed (b'a' ∷ [])
escape_fs_chars-IsFileName_example =
    escape_fs_chars-IsFileName mixed (b'a' ∷ []) mixed-IsBytes (omega arith, tt)

str_to_uint-number_in_example :
    (str_to_uint (codes " +4294967296") ≡ bounded (2 ^ 32) (number_in (codes " +4294967296")))
    × (str_to_ushort (codes " +4294967296") ≡ bounded (2 ^ 16) (number_in (codes " +4294967296")))
str_to_uint-number_in_example = str_to_uint-number_in (codes " +4294967296")

-- A NUL is escaped to what is not read back.
nul_not_read_back : unescape_chars (escape_chars (0 ∷ [])) ≡ codes "\\000"
unfolding unescape_chars escape_chars unescape_loop escape_char unescape_step escaped octal3 control
    read_octal octal_digits from_octal
nul_not_read_back = refl
