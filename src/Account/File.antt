-- ===== src/Account/File.antt =====
-- The files of accounts: account_load_attrs, account_unload_attrs and account_save of
-- src/bnetd/account.c, and file_get_line of src/common/util.c. `sscanf` is what it is in C; its
-- white space is that of the C locale. A write behind the end of a buffer is `none` as the outcome.
pub mod Line
pub mod Load
pub mod Saving
pub mod Ending
use bnetd.Prelude.{
  ℕ, zero, suc, ◌+◌, ◌-◌, ◌*◌, ◌/◌, Bool, true, false, ◌&&◌, ◌||◌, not, List, [], ◌∷◌, ◌++◌, Option,
  none, some, ◌==◌, ltb, leb, u32, if◌then◌else◌, ◌>>=◌, length, take,
}
use bnetd.Prelude.Text.{Text, codes}
use bnetd.Util.Case.{same_bytes}
use bnetd.Util.Escape.{escape_chars, unescape_chars, backslash}
use bnetd.Channel.{Rc, ok, fail}
use bnetd.Account.{Attribute, Account, Disk, find_attr, new_key, set_attr}

abbrev pub quote : ℕ
quote = b'"'

-- A C string ends before the first NUL.
unfoldable pub until_nul : Text → Text
until_nul [] = []
until_nul (c ∷ s) = let rest = until_nul s in if c == 0 then [] else c ∷ rest

unfoldable pub drop_last : Text → Text
drop_last [] = []
drop_last (c ∷ []) = []
drop_last (c ∷ d ∷ s) = c ∷ drop_last (d ∷ s)

abbrev pub is_empty : Text → Bool
is_empty [] = true
is_empty (c ∷ s) = false

-- The loop of `file_get_line`: the line, and what is left of the file, or `none` at its end. `line`
-- is what was read of the line.
unfoldable pub line_loop : (prev_char : ℕ) → (line : Text) → Text → Text × Option Text
line_loop prev_char line [] = (line, none)
line_loop prev_char line (c ∷ fp) =
    let skipped = line_loop prev_char line fp in
    let joined = line_loop 0 (drop_last line) fp in
    let pushed = line_loop c (line ++ c ∷ []) fp in
    if c == 13
    then skipped
    else if c == 10
    then (if is_empty line || not (prev_char == backslash) then (line, some fp) else joined)
    else pushed

-- What the rest of the file is where it is at its end.
abbrev pub rest_of : Option Text → Text
rest_of none = []
rest_of (some fp) = fp

abbrev pub at_end : Text × Option Text → Bool
at_end (line, none) = is_empty line
at_end (line, some fp) = false

-- The next line without its end, with what is left, or NULL.
unfoldable pub file_get_line : Text → Option (Text × Text)
file_get_line fp =
    let r = line_loop 0 [] fp in if at_end r then none else some (until_nul r.0, rest_of r.1)

-- `%[^"]`: what is copied, and what is left.
unfoldable pub quoted : Text → Text × Text
quoted [] = ([], [])
quoted (c ∷ s) = let (word, rest) = quoted s in if c == quote then ([], c ∷ s) else (c ∷ word, rest)

-- A character of the format, and white space in it.
unfoldable pub expect : ℕ → Text → Option Text
expect c [] = none
expect c (d ∷ s) = if d == c then some s else none

abbrev pub is_space : ℕ → Bool
is_space c = c == 32 || leb 9 c && leb c 13

unfoldable pub skip_space : Text → Text
skip_space [] = []
skip_space (c ∷ s) = let rest = skip_space s in if is_space c then rest else c ∷ s

-- `%[^"]` takes one character at least.
abbrev pub nonempty : Text × Text → Option (Text × Text)
nonempty ([], rest) = none
nonempty (c ∷ word, rest) = some (c ∷ word, rest)

-- `"%[^"]`.
unfoldable pub scan_quoted : Text → Option (Text × Text)
scan_quoted [] = none
scan_quoted (c ∷ s) = if c == quote then nonempty (quoted s) else none

-- `" =` behind the key, and the value with the white space that the format lets stand before it.
unfoldable pub scan_equals : Text → Option Text
scan_equals [] = none
scan_equals (c ∷ s) = if c == quote then expect b'=' (skip_space s) else none

abbrev pub scan_value : Option Text → Text
scan_value none = []
scan_value (some s) = elim (scan_quoted (skip_space s)) [ none ↦ [] | some val ↦ val.0 ]

abbrev pub with_value : Option (Text × Text) → Option (Text × Text)
with_value none = none
with_value (some (esckey, rest)) = some (esckey, scan_value (scan_equals rest))

-- What the two calls of `sscanf` leave in `esckey` and `escval`: none if no key is read; an empty
-- value where only the key is.
unfoldable pub scan_entry : Text → Option (Text × Text)
scan_entry buff = with_value (scan_quoted buff)

-- The text and its NUL are in a buffer of `len` bytes.
abbrev pub in_buffer : ℕ → Text → Bool
in_buffer len s = ltb (length s) len

-- A comment, an empty line, or one that is too short.
abbrev pub is_skipped : Text → Bool
is_skipped [] = true
is_skipped (c ∷ s) = c == b'#' || ltb (length (c ∷ s)) 6

unfoldable pub load_entry :
    Bool → Option (Text × Text) → (len : ℕ) → List Attribute → Option (List Attribute)
load_entry mem none len attrs = some attrs
load_entry mem (some (esckey, escval)) len attrs =
    if in_buffer len esckey && in_buffer len escval
    then some (set_attr mem (unescape_chars esckey) (some (unescape_chars escval)) attrs).1
    else none

-- One line of the file, with `len` the size of the buffers. Where memory is short, nothing is set.
unfoldable pub load_line : Bool → Text → List Attribute → Option (List Attribute)
load_line mem buff attrs =
    if is_skipped buff || not mem
    then some attrs
    else load_entry mem (scan_entry buff) (length buff - 5 + 1) attrs

unfoldable pub load_loop : Bool → (fuel : ℕ) → Text → List Attribute → Option (List Attribute)
load_loop mem zero fp attrs = none
load_loop mem (suc fuel) fp attrs = elim (file_get_line fp) [
  | none ↦ some attrs
  | some (buff, rest) ↦ do attrs' ← load_line mem buff attrs; load_loop mem fuel rest attrs'
]

-- The file's bytes, and one more round for its end, are the fuel.
unfoldable pub load_file : Bool → Text → List Attribute → Option (List Attribute)
load_file mem fp attrs = load_loop mem (suc (length fp)) fp attrs

-- After the checks, with the file that the account's name has on the disk.
unfoldable pub load_opened : Bool → Option Text → Account → Option (Rc × Account)
load_opened mem none a = some (fail, a)
load_opened mem (some fp) a = do
  attrs ← load_file mem fp a.attrs
  some (ok, record a { attrs = attrs; loaded = true; dirty = false })

unfoldable pub account_load_attrs : Bool → Disk → Account → Option (Rc × Account)
account_load_attrs mem disk a = elim a.filename [
  | none ↦ some (fail, a)
  | some filename ↦
      if a.loaded
      then some (ok, a)
      else if a.dirty
      then some (fail, a)
      else load_opened mem (disk filename) a
]

unfoldable pub account_unload_attrs : Account → Account
account_unload_attrs a = record a { attrs = []; loaded = false }

-- `account_get_strattr`, with the attributes of `default_acct`.
unfoldable pub lookup : List Attribute → List Attribute → Text → Option Text
lookup defaults attrs key = elim (find_attr (new_key key) attrs) [
  | some val ↦ some val
  | none ↦ find_attr (new_key key) defaults
]

-- One line that `account_save` writes; the comparison is that of `strncmp` on the escaped key.
abbrev pub is_template : Text → Bool
is_template key = same_bytes (take 20 (codes "BNET\\CharacterDefault\\")) (take 20 key)

unfoldable pub save_line : Attribute → Text
save_line attr =
    let key = escape_chars attr.key in
    let val = escape_chars attr.val in
    if is_template key then [] else quote ∷ (key ++ quote ∷ b'=' ∷ quote ∷ (val ++ quote ∷ 10 ∷ []))

unfoldable pub save_lines : List Attribute → Text
save_lines [] = []
save_lines (attr ∷ attrs) = save_line attr ++ save_lines attrs

-- The account's age as `account_save` reckons it, with `prefs_get_user_flush_timer()`.
unfoldable pub aged : (flush : ℕ) → (delta : ℕ) → Account → ℕ
aged flush delta a =
    let age = if a.accessed then a.age / 2 else u32 (a.age + delta) in
    let most = u32 (3 * flush) / 2 in if ltb most age then most else age

-- What `account_save` returns: 1, 0 or -1.
pub data Saved : Type 0 where
  saved unchanged failed : Saved

unfoldable pub write_file : Disk → Text → Text → Disk
write_file disk name fp other = if same_bytes name other then some fp else disk other

-- `written` tells whether the temporary file is made, written and renamed.
unfoldable pub account_save :
    (written : Bool) → (flush delta : ℕ) → Disk → Account → Saved × Disk × Account
account_save written flush delta disk a₀ =
    let a = record a₀ { age = aged flush delta a₀; accessed = false } in
    elim a.filename [
      | none ↦ (failed, disk, a)
      | some filename ↦
          if not a.loaded
          then (unchanged, disk, a)
          else if not a.dirty
          then (unchanged, disk, if leb flush a.age then account_unload_attrs a else a)
          else if written
          then (saved, write_file disk filename (save_lines a.attrs), record a { dirty = false })
          else (failed, disk, a)
    ]
