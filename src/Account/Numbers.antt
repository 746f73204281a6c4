-- ===== src/Account/Numbers.antt =====
-- Reading and writing attributes: account_get_strattr and account_set_strattr of
-- src/bnetd/account.c for accounts other than `default_acct`, and the access by numbers of
-- src/bnetd/account_wrap.c. The attributes are loaded first if they are not; `none` is a buffer
-- overrun while they are.
use bnetd.Prelude.{
  ℕ, ◌^◌, ◌<◌, ◌≡◌, refl, ap, Bool-cases, inl, inr, ◌∙◌, Bool, true, ◌&&◌, not, List, Option, none,
  some, if◌then◌else◌, ◌>>=◌, arith,
}
use bnetd.Prelude.Text.{Text, codes}
use bnetd.Util.Number.{str_to_uint}
use bnetd.Util.Print.{decimal}
use bnetd.Util.Decimal.{bounded, number_in, str_to_uint-number_in}
use bnetd.Util.Printed.{str_to_uint-decimal}
use bnetd.Util.Case.{same_name}
use bnetd.Channel.{Rc, ok, fail}
use bnetd.Account.{
  Attribute, Account, Disk, same_start, new_key, find_attr, set_attr, account_insert_attr,
}
use bnetd.Account.File.{account_load_attrs, lookup}
use bnetd.Account.Attributes.{IsDistinct, find_attr-set_attr, set_attr-IsDistinct}

unfoldable pub ensure_loaded : Bool → Disk → Account → Option (Rc × Account)
ensure_loaded mem disk a = if a.loaded then some (ok, a) else account_load_attrs mem disk a

-- The copy of a key that starts with DynKey needs memory.
abbrev pub is_copied : Text → Bool
is_copied key = same_start 6 key (codes "DynKey")

unfoldable pub got_value : Bool → List Attribute → Text → Rc × Account → Option Text × Account
got_value mem defaults key (fail, a) = (none, a)
got_value mem defaults key (ok, a) =
    (if not mem && is_copied key then none else lookup defaults a.attrs key, a)

unfoldable pub account_get_strattr :
    Bool → Disk → List Attribute → Account → Text → Option (Option Text × Account)
account_get_strattr mem disk defaults a key = do
  r ← ensure_loaded mem disk (record a { accessed = true })
  some (got_value mem defaults key r)

unfoldable pub put_value : Bool → Text → Option Text → Rc × Account → Rc × Account
put_value mem key val (fail, a) = (fail, a)
put_value mem key val (ok, a) =
    let (rc, attrs) = set_attr mem key val a.attrs in (rc, record a { attrs = attrs; dirty = true })

unfoldable pub account_set_strattr :
    Bool → Disk → Account → Text → Option Text → Option (Rc × Account)
account_set_strattr mem disk a key val = do
  r ← ensure_loaded mem disk a
  some (put_value mem key val r)

-- A missing value and one that is no number count as 0.
unfoldable pub number_of : Option Text → ℕ
number_of none = 0
number_of (some temp) = elim (str_to_uint temp) [ none ↦ 0 | some val ↦ val ]

unfoldable pub account_get_numattr :
    Bool → Disk → List Attribute → Account → Text → Option (ℕ × Account)
account_get_numattr mem disk defaults a key = do
  r ← account_get_strattr mem disk defaults a key
  some (number_of r.0, r.1)

unfoldable pub account_set_numattr : Bool → Disk → Account → Text → ℕ → Option (Rc × Account)
account_set_numattr mem disk a key val = account_set_strattr mem disk a key (some (decimal val))

-- The value under a key of an account that is loaded.
abbrev pub value_at : List Attribute → Account → Text → Option Text
value_at defaults a key = lookup defaults a.attrs key

-- The account after a value is set.
abbrev pub with_attr : Account → Text → Option Text → Account
with_attr a key val = record a { attrs = (set_attr true key val a.attrs).1; dirty = true }

ensure_loaded-loaded :
    (mem : Bool) (disk : Disk) (a : Account)
    → a.loaded ≡ true
    → ensure_loaded mem disk a ≡ some (ok, a)
unfolding ensure_loaded
ensure_loaded-loaded mem disk a l =
    ap (λ t. if t then some (ok, a) else account_load_attrs mem disk a) l

pub get_strattr-loaded :
    (disk : Disk) (defaults : List Attribute) (a : Account) (key : Text)
    → a.loaded ≡ true
    → account_get_strattr true disk defaults a key
      ≡ some (value_at defaults a key, record a { accessed = true })
unfolding account_get_strattr got_value
get_strattr-loaded disk defaults a key l =
    ap (λ o. do r ← o; some (got_value true defaults key r))
      (ensure_loaded-loaded true disk (record a { accessed = true }) l)

pub set_strattr-loaded :
    (disk : Disk) (a : Account) (key : Text) (val : Option Text)
    → a.loaded ≡ true
    → account_set_strattr true disk a key val
      ≡ some ((set_attr true key val a.attrs).0, with_attr a key val)
unfolding account_set_strattr put_value
set_strattr-loaded disk a key val l =
    ap (λ o. do r ← o; some (put_value true key val r)) (ensure_loaded-loaded true disk a l)

-- The number under a key of an account that is loaded.
abbrev pub number_at : List Attribute → Account → Text → ℕ
number_at defaults a key = number_of (value_at defaults a key)

pub get_numattr-loaded :
    (disk : Disk) (defaults : List Attribute) (a : Account) (key : Text)
    → a.loaded ≡ true
    → account_get_numattr true disk defaults a key
      ≡ some (number_at defaults a key, record a { accessed = true })
unfolding account_get_numattr
get_numattr-loaded disk defaults a key l =
    ap (λ o. do r ← o; some (number_of r.0, r.1)) (get_strattr-loaded disk defaults a key l)

-- A stored value is found under the key, and nothing else changes.
pub value_at-with_attr :
    (defaults : List Attribute) (a : Account) (key : Text) (val : Text) (k : Text)
    → IsDistinct a.attrs
    → value_at defaults (with_attr a key (some val)) k
      ≡ (if same_name key (new_key k) then some val else value_at defaults a k)
unfolding lookup
value_at-with_attr defaults a key val k d =
    rw (lookup, find_attr-set_attr key (some val) (new_key k) a.attrs d)
      (elim (Bool-cases (same_name key (new_key k))) [ inl e ↦ rw e refl | inr e ↦ rw e refl ])

value_of : Option ℕ → ℕ
value_of none = 0
value_of (some val) = val

value_of-bounded : (found : Option ℕ) → value_of (bounded (2 ^ 32) found) < 2 ^ 32
unfolding value_of
value_of-bounded none = omega arith
value_of-bounded (some v) = ground arith

-- What is read has 32 bits.
pub number_of-lt : (val : Option Text) → number_of val < 2 ^ 32
unfolding number_of value_of
number_of-lt none = omega arith
number_of-lt (some temp) =
    let bound = value_of-bounded (number_in temp) in
    rw (number_of, (str_to_uint-number_in temp).0) bound

number_of-decimal : (n : ℕ) → n < 2 ^ 32 → number_of (some (decimal n)) ≡ n
unfolding number_of
number_of-decimal n h = rw (number_of, str_to_uint-decimal n h) refl

pub number_at-with_attr :
    (defaults : List Attribute) (a : Account) (key : Text) (n : ℕ) (k : Text)
    → IsDistinct a.attrs
    → n < 2 ^ 32
    → number_at defaults (with_attr a key (some (decimal n))) k
      ≡ (if same_name key (new_key k) then n else number_at defaults a k)
number_at-with_attr defaults a key n k d h =
    rw (value_at-with_attr defaults a key (decimal n) k d)
      (elim (Bool-cases (same_name key (new_key k))) [
        | inl e ↦ rw e (number_of-decimal n h)
        | inr e ↦ rw e refl
      ])

-- What a lookup falls back to.
abbrev pub default_for : List Attribute → Text → Option Text → Option Text
default_for defaults k none = find_attr k defaults
default_for defaults k (some val) = some val

pub set_attr-ok :
    (key : Text) (val : Option Text) (attrs : List Attribute) → (set_attr true key val attrs).0 ≡ ok
unfolding set_attr account_insert_attr
set_attr-ok key none attrs = refl
set_attr-ok key (some val) attrs = ground arith

value_at-set :
    (defaults : List Attribute) (a : Account) (key : Text) (val : Option Text) (k : Text)
    → IsDistinct a.attrs
    → value_at defaults (with_attr a key val) k ≡ (
        if same_name key (new_key k)
        then default_for defaults (new_key k) val
        else value_at defaults a k)
unfolding lookup
value_at-set defaults a key val k d =
    rw (lookup, find_attr-set_attr key val (new_key k) a.attrs d)
      (elim (Bool-cases (same_name key (new_key k))) [
        | inl e ↦ rw e (by_default val)
        | inr e ↦ rw e refl
      ])
  where
    by_default :
        (v : Option Text)
        → elim v [ none ↦ find_attr (new_key k) defaults | some w ↦ some w ]
          ≡ default_for defaults (new_key k) v
    by_default none = refl
    by_default (some w) = refl

-- An account other than `default_acct`, its attributes loaded and no key twice up to case, with
-- memory: account_set_strattr succeeds, marks the account dirty, and keeps its keys apart;
-- account_get_strattr then gives, for a key that is the one that was set in some spelling, a DynKey
-- standing for the Record key, the value, or what the default account has where the value was NULL,
-- and for any other key what it gave before.
pub set_strattr-get_strattr :
    (disk : Disk) (defaults : List Attribute) (a : Account) (key : Text) (val : Option Text)
    → a.loaded ≡ true
    → IsDistinct a.attrs
    → (b : Account) × (account_set_strattr true disk a key val ≡ some (ok, b))
      × (b.dirty ≡ true)
      × IsDistinct b.attrs
      × ((k : Text)
          → account_get_strattr true disk defaults b k
            ≡ some (
              (if same_name key (new_key k)
                  then default_for defaults (new_key k) val
                  else value_at defaults a k),
              record b { accessed = true },
            ))
set_strattr-get_strattr disk defaults a key val l d =
    let b = with_attr a key val in
    (
      b,
      set_strattr-loaded disk a key val l ∙ ap (λ rc. some (rc, b)) (set_attr-ok key val a.attrs),
      refl,
      set_attr-IsDistinct true key val a.attrs d,
      λ k.
          get_strattr-loaded disk defaults b k l
          ∙ ap (λ v. some (v, record b { accessed = true })) (value_at-set defaults a key val k d),
    )
