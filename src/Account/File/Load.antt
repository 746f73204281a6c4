-- ===== src/Account/File/Load.antt =====
-- What is read of a line that was written.
use bnetd.Prelude.{
  ℕ, ◌+◌, ◌-◌, ◌<◌, ◌≡◌, refl, ap, ◌∙◌, true, false, ◌&&◌, List, [], ◌∷◌, ◌++◌, none, some, ◌==◌,
  length, length-append, arith,
}
use bnetd.Prelude.Text.{Text}
use bnetd.Util.Escape.{escape_char, octal3, escape_chars}
use bnetd.Util.Unescape.{IsString, IsBytes, unescape_chars-escape_chars}
use bnetd.Account.{Attribute, set_attr}
use bnetd.Account.File.{
  quote, is_empty, quoted, nonempty, scan_value, with_value, expect, skip_space, scan_quoted,
  scan_equals, scan_entry, in_buffer, is_skipped, load_entry, load_line,
}

-- There is no double quote in a text.
abbrev pub IsPlain : Text → Type 0
IsPlain [] = Unit
IsPlain (c ∷ s) = ((c == quote) ≡ false) × IsPlain s

IsPlain-append : (s t : Text) → IsPlain s → IsPlain t → IsPlain (s ++ t)
IsPlain-append [] t v w = w
IsPlain-append (c ∷ s) t v w = (v.0, IsPlain-append s t v.1 w)

escape_char-IsPlain : (c : ℕ) → (c == quote) ≡ false → c < 256 → IsPlain (escape_char c)
unfolding escape_char octal3
escape_char-IsPlain c h k = ground arith

pub escape_chars-IsPlain : (s : Text) → IsString s → IsPlain s → IsPlain (escape_chars s)
unfolding escape_chars
escape_chars-IsPlain [] v w = tt
escape_chars-IsPlain (c ∷ s) v w =
    IsPlain-append (escape_char c) (escape_chars s) (escape_char-IsPlain c w.0 v.1)
      (escape_chars-IsPlain s v.2 w.1)

is_empty_char : (c : ℕ) (t : Text) → is_empty (escape_char c ++ t) ≡ false
unfolding escape_char octal3
is_empty_char c t = ground arith

pub is_empty-escape_chars : (s : Text) → is_empty (escape_chars s) ≡ is_empty s
unfolding escape_chars
is_empty-escape_chars [] = refl
is_empty-escape_chars (c ∷ s) = is_empty_char c (escape_chars s)

pub IsString-IsBytes : (s : Text) → IsString s → IsBytes s
IsString-IsBytes [] v = tt
IsString-IsBytes (c ∷ s) v = (v.1, IsString-IsBytes s v.2)

quoted-IsPlain : (s t : Text) → IsPlain s → quoted (s ++ quote ∷ t) ≡ (s, quote ∷ t)
unfolding quoted
quoted-IsPlain [] t v = refl
quoted-IsPlain (c ∷ s) t v = rw (quoted-IsPlain s t v.1, v.0) refl

-- An entry as it is written, without the quote that opens it.
abbrev pub entry_text : Text → Text → Text
entry_text key val = quote ∷ (key ++ quote ∷ b'=' ∷ quote ∷ (val ++ quote ∷ []))

scan_quoted-IsPlain :
    (s t : Text)
    → IsPlain s
    → is_empty s ≡ false
    → scan_quoted (quote ∷ (s ++ quote ∷ t)) ≡ some (s, quote ∷ t)
unfolding scan_quoted
scan_quoted-IsPlain [] t v full = ground arith
scan_quoted-IsPlain (c ∷ s) t v full = ap nonempty (quoted-IsPlain (c ∷ s) t v)

scan_value-nil : scan_value (some (quote ∷ quote ∷ [])) ≡ []
unfolding scan_quoted quoted skip_space
scan_value-nil = refl

scan_value-IsPlain :
    (val : Text) → IsPlain val → scan_value (some (quote ∷ (val ++ quote ∷ []))) ≡ val
unfolding skip_space
scan_value-IsPlain [] v = scan_value-nil
scan_value-IsPlain (c ∷ val) v =
    ap (λ r. elim r [ none ↦ [] | some val ↦ val.0 ]) (scan_quoted-IsPlain (c ∷ val) [] v refl)

scan_equals_lem : (s : Text) → scan_equals (quote ∷ b'=' ∷ quote ∷ s) ≡ some (quote ∷ s)
unfolding scan_equals expect skip_space
scan_equals_lem s = refl

scan_entry-entry_text :
    (key val : Text)
    → IsPlain key
    → is_empty key ≡ false
    → IsPlain val
    → scan_entry (entry_text key val) ≡ some (key, val)
unfolding scan_entry
scan_entry-entry_text key val k full v =
    ap with_value (scan_quoted-IsPlain key (b'=' ∷ quote ∷ (val ++ quote ∷ [])) k full)
    ∙ ap (λ r. some (key, scan_value r)) (scan_equals_lem (val ++ quote ∷ []))
    ∙ ap (λ w. some (key, w)) (scan_value-IsPlain val v)

-- A line of the file: a key and a value, both escaped.
length-entry_text : (key val : Text) → length (entry_text key val) ≡ length key + length val + 5
length-entry_text key val = omega (
  arith,
  length-append key (quote ∷ b'=' ∷ quote ∷ (val ++ quote ∷ [])),
  length-append val (quote ∷ []),
)

is_skipped-entry_text :
    (key val : Text) → is_empty key ≡ false → is_skipped (entry_text key val) ≡ false
is_skipped-entry_text [] val full = ground arith
is_skipped-entry_text (c ∷ key) val full = ground (arith, length-entry_text (c ∷ key) val)

-- A key that a file keeps: not empty, and with no double quote in it.
abbrev pub IsKey : Text → Type 0
IsKey key = IsString key × IsPlain key × (is_empty key ≡ false)

abbrev pub IsValue : Text → Type 0
IsValue val = IsString val × IsPlain val

in_buffer-entry_text :
    (key val : Text)
    → in_buffer (length (entry_text key val) - 5 + 1) key
        && in_buffer (length (entry_text key val) - 5 + 1) val
      ≡ true
in_buffer-entry_text key val = ground (arith, length-entry_text key val)

-- A written line sets the attribute it was written from.
pub load_line-entry_text :
    (key val : Text) (attrs : List Attribute)
    → IsKey key
    → IsValue val
    → load_line true (entry_text (escape_chars key) (escape_chars val)) attrs
      ≡ some (set_attr true key (some val) attrs).1
unfolding load_line load_entry
load_line-entry_text key val attrs k v =
    let key' = escape_chars key in
    let val' = escape_chars val in
    let full = is_empty-escape_chars key ∙ k.2 in
    let scanned =
      scan_entry-entry_text key' val' (escape_chars-IsPlain key k.0 k.1) full
        (escape_chars-IsPlain val v.0 v.1) in
    rw
      (
        is_skipped-entry_text key' val' full,
        scanned,
        in_buffer-entry_text key' val',
        unescape_chars-escape_chars key k.0,
        unescape_chars-escape_chars val v.0,
      )
      refl
