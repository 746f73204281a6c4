-- ===== src/Account/File/Saving.antt =====
-- The file that is written, read again.
use bnetd.Prelude.{
  ℕ, zero, suc, ◌≤◌, ◌<◌, ◌≡◌, refl, sym, ap, ◌∙◌, Bool, true, false, List, [], ◌∷◌, ◌++◌, Option,
  none, some, inl, inr, Bool-cases, ◌==◌, if◌then◌else◌, length, length-append, take, arith,
}
use mathlib.Core.Path.{subst}
use mathlib.Core.List.{append_assoc}
use bnetd.Prelude.Text.{Text, codes}
use bnetd.Util.Case.{same_bytes, same_name}
use bnetd.Util.Escape.{escape_char, octal3, escape_chars, backslash}
use bnetd.Util.Unescape.{IsBytes, IsPrintable, IsPrintable-append, escape_chars-IsPrintable}
use bnetd.Account.{Attribute, Account, Disk, set_attr, find_attr}
use bnetd.Channel.{Rc, ok, fail}
use bnetd.Account.Attributes.{
  IsDistinct, find_attr-same_name, find_attr-set_attr, set_attr-IsDistinct,
}
use bnetd.Account.File.{
  quote, is_template, save_line, save_lines, load_loop, load_file, file_get_line, load_opened,
  write_file, aged, Saved, saved, account_save, account_unload_attrs, account_load_attrs,
}
use bnetd.Account.File.Line.{file_get_line-quote, file_get_line-nil}
use bnetd.Account.File.Load.{IsKey, IsValue, IsString-IsBytes, entry_text, load_line-entry_text}

-- The escaped texts of bytes do not start with a text.
abbrev IsNoStart : Text → ℕ → Type 0
IsNoStart prefix n = (s : Text) → IsBytes s → same_bytes prefix (take n (escape_chars s)) ≡ false

stops_at : (prefix : Text) (n : ℕ) → IsNoStart (backslash ∷ b'C' ∷ prefix) (suc (suc n))
unfolding same_bytes escape_chars escape_char octal3
stops_at prefix n [] v = refl
stops_at prefix n (c ∷ s) v = ground (arith, v.0)

-- A character that is no backslash is escaped as itself or not at all.
starts_under :
    (x : ℕ) (prefix : Text) (n : ℕ)
    → (x == backslash) ≡ false
    → IsNoStart prefix n
    → IsNoStart (x ∷ prefix) (suc n)
unfolding same_bytes escape_chars escape_char octal3
starts_under x prefix n h next [] v = refl
starts_under x prefix n h next (c ∷ s) v = ground (arith, h, next s v.1)

is_template-escape_chars : (key : Text) → IsBytes key → is_template (escape_chars key) ≡ false
is_template-escape_chars =
    let stop = stops_at (codes "haracterDefaul") 14 in
    let under_t = starts_under b'T' _ 16 refl stop in
    let under_e = starts_under b'E' _ 17 refl under_t in
    let under_n = starts_under b'N' _ 18 refl under_e in starts_under b'B' _ 19 refl under_n

-- An entry without the quote that ends it.
abbrev open_entry : Text → Text → Text
open_entry key val = quote ∷ (key ++ quote ∷ b'=' ∷ quote ∷ val)

open_entry-append : (key val t : Text) → open_entry key val ++ t ≡ open_entry key (val ++ t)
open_entry-append key val t = ap (λ s. quote ∷ s) (append_assoc key (quote ∷ b'=' ∷ quote ∷ val) t)

save_line_lem :
    (a : Attribute) (fp : Text)
    → IsBytes a.key
    → save_line a ++ fp ≡ open_entry (escape_chars a.key) (escape_chars a.val) ++ quote ∷ 10 ∷ fp
unfolding save_line
save_line_lem a fp v =
    let key = escape_chars a.key in
    let val = escape_chars a.val in
    let end = quote ∷ 10 ∷ [] in
    rw (is_template-escape_chars a.key v) (
      open_entry-append key (val ++ end) fp
      ∙ ap (open_entry key) (append_assoc val end fp)
      ∙ sym (open_entry-append key val (quote ∷ 10 ∷ fp)))

open_entry-IsPrintable :
    (key val : Text) → IsPrintable key → IsPrintable val → IsPrintable (open_entry key val)
open_entry-IsPrintable key val k v = (
  omega arith,
  omega arith,
  IsPrintable-append key (quote ∷ b'=' ∷ quote ∷ val) k
      (omega arith, omega arith, (omega arith, omega arith, (omega arith, omega arith, v))),
)

-- The keys and values can be kept in a file.
abbrev pub IsKept : List Attribute → Type 0
IsKept [] = Unit
IsKept (a ∷ attrs) = IsKey a.key × IsValue a.val × IsKept attrs

file_get_line-save_line :
    (a : Attribute) (fp : Text)
    → IsKey a.key
    → IsValue a.val
    → file_get_line (save_line a ++ fp)
      ≡ some (entry_text (escape_chars a.key) (escape_chars a.val), fp)
file_get_line-save_line a fp k v =
    let key = escape_chars a.key in
    let val = escape_chars a.val in
    let bytes = IsString-IsBytes a.key k.0 in
    let printable =
      open_entry-IsPrintable key val (escape_chars-IsPrintable a.key bytes).0
        (escape_chars-IsPrintable a.val (IsString-IsBytes a.val v.0)).0 in
    ap file_get_line (save_line_lem a fp bytes)
    ∙ file_get_line-quote (open_entry key val) fp printable
    ∙ ap (λ s. some (s, fp)) (open_entry-append key val (quote ∷ []))

-- One line of the file is one round of the loop.
load_loop-save_line :
    (a : Attribute) (fuel : ℕ) (fp : Text) (attrs : List Attribute)
    → IsKey a.key
    → IsValue a.val
    → load_loop true (suc fuel) (save_line a ++ fp) attrs
      ≡ load_loop true fuel fp (set_attr true a.key (some a.val) attrs).1
unfolding load_loop
load_loop-save_line a fuel fp attrs k v =
    rw (load_loop, file_get_line-save_line a fp k v, load_line-entry_text a.key a.val attrs k v)
      refl

-- The attributes that are set in turn.
set_all : List Attribute → List Attribute → List Attribute
set_all [] attrs = attrs
set_all (a ∷ news) attrs = set_all news (set_attr true a.key (some a.val) attrs).1

length-save_lines : (news : List Attribute) → IsKept news → length news ≤ length (save_lines news)
unfolding save_lines
length-save_lines [] v = omega arith
length-save_lines (a ∷ news) v =
    let rest = length-save_lines news v.2 in
    let line = save_line_lem a (save_lines news) (IsString-IsBytes a.key v.0.0) in
    let whole =
      length-append (open_entry (escape_chars a.key) (escape_chars a.val))
        (quote ∷ 10 ∷ save_lines news) in
    omega (arith, rest, ap length line, whole)

load_loop-save_lines :
    (news : List Attribute) (fuel : ℕ) (attrs : List Attribute)
    → IsKept news
    → length news < fuel
    → load_loop true fuel (save_lines news) attrs ≡ some (set_all news attrs)
unfolding set_all save_lines load_loop
load_loop-save_lines [] zero attrs v h = elim h [ ]
load_loop-save_lines (a ∷ news) zero attrs v h = elim h [ ]
load_loop-save_lines [] (suc fuel) attrs v h = rw (load_loop, file_get_line-nil) refl
load_loop-save_lines (a ∷ news) (suc fuel) attrs v h =
    load_loop-save_line a fuel (save_lines news) attrs v.0 v.1
    ∙ load_loop-save_lines news fuel (set_attr true a.key (some a.val) attrs).1 v.2
        (omega (arith, h))

-- What is set last comes first.
abbrev or_else : Option Text → Option Text → Option Text
or_else none old = old
or_else (some val) old = some val

find_attr-set_all :
    (news attrs : List Attribute) (k : Text)
    → IsDistinct news
    → IsDistinct attrs
    → find_attr k (set_all news attrs) ≡ or_else (find_attr k news) (find_attr k attrs)
unfolding set_all find_attr
find_attr-set_all [] attrs k d e = refl
find_attr-set_all (a ∷ news) attrs k d e =
    let next = (set_attr true a.key (some a.val) attrs).1 in
    let rest =
      find_attr-set_all news next k d.1 (set_attr-IsDistinct true a.key (some a.val) attrs e) in
    let after = find_attr-set_attr a.key (some a.val) k attrs e in
    rest ∙ elim (Bool-cases (same_name a.key k)) [
      | inl same ↦ rw (after, same, sym (find_attr-same_name a.key k news same), d.0) refl
      | inr other ↦ rw (after, other) refl
    ]

set_all-IsDistinct :
    (news attrs : List Attribute) → IsDistinct attrs → IsDistinct (set_all news attrs)
unfolding set_all
set_all-IsDistinct [] attrs d = d
set_all-IsDistinct (a ∷ news) attrs d =
    set_all-IsDistinct news (set_attr true a.key (some a.val) attrs).1
      (set_attr-IsDistinct true a.key (some a.val) attrs d)

or_else-nil : (found : Option Text) (k : Text) → or_else found (find_attr k []) ≡ found
unfolding find_attr
or_else-nil none k = refl
or_else-nil (some val) k = refl

load_file-save_lines :
    (attrs : List Attribute)
    → IsKept attrs
    → load_file true (save_lines attrs) [] ≡ some (set_all attrs [])
unfolding load_file
load_file-save_lines attrs v =
    load_loop-save_lines attrs (suc (length (save_lines attrs))) [] v
      (omega (arith, length-save_lines attrs v))

same_bytes_refl : (s : Text) → same_bytes s s ≡ true
unfolding same_bytes
same_bytes_refl [] = refl
same_bytes_refl (c ∷ s) = ground (arith, same_bytes_refl s)

-- The account as a save that succeeds leaves it.
account_saved : ℕ → ℕ → Account → Account
account_saved flush delta a = record a { age = aged flush delta a; accessed = false; dirty = false }

account_save-dirty :
    (flush delta : ℕ) (disk : Disk) (a : Account) (filename : Text)
    → a.filename ≡ some filename
    → a.loaded ≡ true
    → a.dirty ≡ true
    → account_save true flush delta disk a
      ≡ (saved, write_file disk filename (save_lines a.attrs), account_saved flush delta a)
unfolding account_save account_saved
account_save-dirty flush delta disk a filename f l d = simp (account_save, f, l, d)

account_load_attrs-unloaded :
    (mem : Bool) (disk : Disk) (b : Account) (filename : Text)
    → b.filename ≡ some filename
    → b.loaded ≡ false
    → b.dirty ≡ false
    → account_load_attrs mem disk b ≡ load_opened mem (disk filename) b
unfolding account_load_attrs
account_load_attrs-unloaded mem disk b filename f l d = simp (account_load_attrs, f, l, d)

-- An account that was loaded anew, with the attributes of an earlier one.
abbrev pub IsReloaded : List Attribute → Option (Rc × Account) → Type 0
IsReloaded attrs none = ⊥
IsReloaded attrs (some (fail, b)) = ⊥
IsReloaded attrs (some (ok, b)) =
    ((k : Text) → find_attr k b.attrs ≡ find_attr k attrs)
    × IsDistinct b.attrs
    × (b.loaded ≡ true)
    × (b.dirty ≡ false)

load_opened-save_lines :
    (b : Account) (attrs : List Attribute)
    → b.attrs ≡ []
    → IsDistinct attrs
    → IsKept attrs
    → IsReloaded attrs (load_opened true (some (save_lines attrs)) b)
unfolding load_opened
load_opened-save_lines b attrs e d v =
    rw (e, load_file-save_lines attrs v)
      (
        (λ k. find_attr-set_all attrs [] k d tt ∙ or_else-nil (find_attr k attrs) k),
        set_all-IsDistinct attrs [] tt,
        refl,
        refl,
      )

-- The load of an account as a save and an unload leave it on the disk.
abbrev pub reload : Saved × Disk × Account → Option (Rc × Account)
reload (rc, disk, a) = account_load_attrs true disk (account_unload_attrs a)

-- An account that is loaded and dirty, with a file name, no key twice up to case, and keys and
-- values without double quotes, NUL bytes or empty keys: once `account_save` has written it and its
-- attributes are unloaded, a load with memory reads all of the file, overruns no buffer, and finds
-- under each key what was found before.
pub account_save-reload :
    (flush delta : ℕ) (disk : Disk) (a : Account) (filename : Text)
    → a.filename ≡ some filename
    → a.loaded ≡ true
    → a.dirty ≡ true
    → IsDistinct a.attrs
    → IsKept a.attrs
    → IsReloaded a.attrs (reload (account_save true flush delta disk a))
unfolding account_unload_attrs account_saved write_file
account_save-reload flush delta disk a filename f l d u v =
    let b = account_unload_attrs (account_saved flush delta a) in
    let disk' = write_file disk filename (save_lines a.attrs) in
    let there =
      ap (λ t. if t then some (save_lines a.attrs) else disk filename) (same_bytes_refl filename) in
    let loaded =
      account_load_attrs-unloaded true disk' b filename f refl refl
      ∙ ap (λ fp. load_opened true fp b) there in
    subst (λ r. IsReloaded a.attrs (reload r))
      (sym (account_save-dirty flush delta disk a filename f l d))
      (subst (IsReloaded a.attrs) (sym loaded) (load_opened-save_lines b a.attrs refl u v))
