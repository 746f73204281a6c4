-- ===== src/Account/Characters/Listing.antt =====
-- The list of closed characters as a list of names.
use bnetd.Prelude.{
  ◌<◌, ◌≡◌, refl, sym, ap, ◌∙◌, Bool, true, false, ◌||◌, List, [], ◌∷◌, ◌++◌, Option, none, some,
  inl, inr, Bool-cases, if◌then◌else◌, ◌==◌, ltb, length, arith,
}
use mathlib.Core.Path.{subst}
use mathlib.Core.List.{append_assoc, append-nil}
use bnetd.Prelude.Text.{Text}
use bnetd.Util.Case.{same_bytes, same_name, strcasecmp, fold_case, same_name_refl}
use bnetd.Channel.{ok}
use bnetd.Account.{Attribute, Account, Disk, new_key, same_start}
use bnetd.Account.Numbers.{
  value_at, with_attr, get_strattr-loaded, set_strattr-loaded, value_at-with_attr,
}
use bnetd.Account.Record.{is_tag}
use bnetd.Account.Record.Counting.{IsReady, read_account, IsReady-with_attr}
use bnetd.Account.Characters.{
  Character, list_key, blob_key, hex_of, compared, or_next, find_name, check_list, list_with,
  account_get_closed_characterlist, account_check_closed_character, add_to_list,
  account_add_closed_character,
}

-- The names between commas, the first one behind some characters.
abbrev pub names_from : Text → Text → List Text
names_from word [] = word ∷ []
names_from word (c ∷ s) =
    if c == b',' then word ∷ names_from [] s else names_from (word ++ c ∷ []) s

abbrev pub names_of : Option Text → List Text
names_of none = []
names_of (some s) = names_from [] s

abbrev pub is_in : Text → List Text → Bool
is_in name [] = false
is_in name (n ∷ ns) = same_bytes n name || is_in name ns

-- Names that fit their buffer.
abbrev pub AllShort : List Text → Type 0
AllShort [] = Unit
AllShort (n ∷ ns) = (length n < 32) × AllShort ns

abbrev pub IsSingle : Text → Type 0
IsSingle [] = Unit
IsSingle (c ∷ s) = ((c == b',') ≡ false) × IsSingle s

compared-short :
    (word name : Text) → length word < 32 → compared word name ≡ some (same_bytes word name)
compared-short word name h = ground (arith, h)

or_next-some : (b : Bool) (rest : Bool) → or_next (some b) (some rest) ≡ some (b || rest)
or_next-some true rest = refl
or_next-some false rest = refl

-- What is known of the rest of a list.
abbrev IsRead : Text → Text → Text → Type 0
IsRead name word s =
    AllShort (names_from word s) → find_name name word s ≡ some (is_in name (names_from word s))

check_step :
    (comma : Bool) (name word longer s : Text)
    → IsRead name [] s
    → IsRead name longer s
    → AllShort (if comma then word ∷ names_from [] s else names_from longer s)
    → (if comma
        then or_next (compared word name) (find_name name [] s)
        else find_name name longer s)
      ≡ some (is_in name (if comma then word ∷ names_from [] s else names_from longer s))
check_step true name word longer s next more v =
    rw (compared-short word name v.0, next v.1)
      (or_next-some (same_bytes word name) (is_in name (names_from [] s)))
check_step false name word longer s next more v = more v

find_name-is_in :
    (name word s : Text)
    → AllShort (names_from word s)
    → find_name name word s ≡ some (is_in name (names_from word s))
unfolding find_name
find_name-is_in name word [] v = compared-short word name v.0 ∙ ap some or_false
  where
    or_false : same_bytes word name ≡ same_bytes word name || false
    or_false = ground arith
find_name-is_in name word (c ∷ s) v =
    check_step (c == b',') name word (word ++ c ∷ []) s (find_name-is_in name [] s)
      (find_name-is_in name (word ++ c ∷ []) s) v

names_from-append :
    (word old s : Text) → names_from word (old ++ b',' ∷ s) ≡ names_from word old ++ names_from [] s
names_from-append word [] s = refl
names_from-append word (c ∷ old) s = elim (Bool-cases (c == b',')) [
  | inl e ↦ rw (e, names_from-append [] old s) refl
  | inr e ↦ rw (e, names_from-append (word ++ c ∷ []) old s) refl
]

names_from-IsSingle : (word s : Text) → IsSingle s → names_from word s ≡ (word ++ s) ∷ []
names_from-IsSingle word [] v = ap (λ w. w ∷ []) (sym (append-nil word))
names_from-IsSingle word (c ∷ s) v =
    rw v.0
      (names_from-IsSingle (word ++ c ∷ []) s v.1 ∙ ap (λ w. w ∷ []) (append_assoc word (c ∷ []) s))

names_of-list_with :
    (old : Option Text) (name : Text)
    → IsSingle name
    → names_of (some (list_with old name)) ≡ names_of old ++ name ∷ []
names_of-list_with none name v = names_from-IsSingle [] name v
names_of-list_with (some old) name v =
    names_from-append [] old name
    ∙ ap (λ ns. names_from [] old ++ ns) (names_from-IsSingle [] name v)

is_in-append :
    (name : Text) (ns : List Text) (new : Text)
    → is_in name (ns ++ new ∷ []) ≡ is_in name ns || same_bytes new name
is_in-append name [] new = ground arith
is_in-append name (n ∷ ns) new = ground (arith, is_in-append name ns new)

AllShort-append :
    (ns : List Text) (new : Text) → AllShort ns → length new < 32 → AllShort (ns ++ new ∷ [])
AllShort-append [] new v h = (h, tt)
AllShort-append (n ∷ ns) new v h = (v.0, AllShort-append ns new v.1 h)

check_list-is_in :
    (name : Text) (list : Option Text)
    → AllShort (names_of list)
    → check_list name list ≡ some (is_in name (names_of list))
unfolding check_list
check_list-is_in name none v = refl
check_list-is_in name (some s) v = find_name-is_in name [] s v

check_loaded :
    (disk : Disk) (defaults : List Attribute) (a : Account) (t realmname name : Text)
    → a.loaded ≡ true
    → is_tag t ≡ true
    → length (list_key t realmname) < 256
    → AllShort (names_of (value_at defaults a (list_key t realmname)))
    → account_check_closed_character true disk defaults a t realmname name
      ≡ some (is_in name (names_of (value_at defaults a (list_key t realmname))), read_account a)
unfolding account_check_closed_character account_get_closed_characterlist
check_loaded disk defaults a t realmname name l k room v =
    let key = list_key t realmname in
    let fits : ltb (length key) 256 ≡ true = ground (arith, room) in
    rw
      (
        k,
        fits,
        get_strattr-loaded disk defaults a key l,
        check_list-is_in name (value_at defaults a key) v,
      )
      refl

new_key-list_key : (t realmname : Text) → new_key (list_key t realmname) ≡ list_key t realmname
unfolding new_key list_key same_start fold_case
new_key-list_key t realmname = refl

blob_key-list_key :
    (t realmname name : Text) → same_name (blob_key t realmname name) (list_key t realmname) ≡ false
unfolding blob_key list_key same_name strcasecmp fold_case
blob_key-list_key t realmname name = refl

-- A character that can be added: what is written fits its buffer, and the name has no comma.
pub record IsAddable (list : Option Text) (t : Text) (ch : Character) (hex : Text) : Type 0 where
  pub list_key_fits : length (list_key t ch.realmname) < 256
  pub blob_key_fits : length (blob_key t ch.realmname ch.name) < 256
  pub list_fits : length (list_with list ch.name) < 256
  pub short : AllShort (names_of list)
  pub short_name : length ch.name < 32
  pub single : IsSingle ch.name
  pub blob_fits : hex_of ch.blob ≡ some hex

-- The account after a character is added.
abbrev pub listed : List Attribute → Account → Text → Character → Text → Account
listed defaults a t ch hex =
    with_attr
      (with_attr (read_account a) (list_key t ch.realmname)
        (some (list_with (value_at defaults a (list_key t ch.realmname)) ch.name)))
      (blob_key t ch.realmname ch.name) (some hex)

add_loaded :
    (disk : Disk) (defaults : List Attribute) (a : Account) (t : Text) (ch : Character) (hex : Text)
    → a.loaded ≡ true
    → is_tag t ≡ true
    → IsAddable (value_at defaults a (list_key t ch.realmname)) t ch hex
    → account_add_closed_character true disk defaults a t ch ≡ some (ok, listed defaults a t ch hex)
unfolding account_add_closed_character add_to_list
add_loaded disk defaults a t ch hex l k v =
    let key = list_key t ch.realmname in
    let new = list_with (value_at defaults a key) ch.name in
    let b = with_attr (read_account a) key (some new) in
    let key_fits : ltb (length key) 256 ≡ true = ground (arith, v.list_key_fits) in
    let new_fits : ltb (length new) 256 ≡ true = ground (arith, v.list_fits) in
    let blob_fits : ltb (length (blob_key t ch.realmname ch.name)) 256 ≡ true =
      ground (arith, v.blob_key_fits) in
    rw
      (
        k,
        key_fits,
        get_strattr-loaded disk defaults a key l,
        new_fits,
        set_strattr-loaded disk (read_account a) key (some new) l,
        blob_fits,
        v.blob_fits,
        set_strattr-loaded disk b (blob_key t ch.realmname ch.name) (some hex) l,
      )
      refl

value_at-listed :
    (defaults : List Attribute) (a : Account) (t : Text) (ch : Character) (hex : Text)
    → IsReady a
    → value_at defaults (listed defaults a t ch hex) (list_key t ch.realmname)
      ≡ some (list_with (value_at defaults a (list_key t ch.realmname)) ch.name)
value_at-listed defaults a t ch hex r =
    let key = list_key t ch.realmname in
    let new = list_with (value_at defaults a key) ch.name in
    let blob = blob_key t ch.realmname ch.name in
    let b = with_attr (read_account a) key (some new) in
    let apart =
      ap (same_name blob) (new_key-list_key t ch.realmname)
      ∙ blob_key-list_key t ch.realmname ch.name in
    let here = ap (same_name key) (new_key-list_key t ch.realmname) ∙ same_name_refl key in
    value_at-with_attr defaults b blob hex key
      (IsReady-with_attr (read_account a) key (some new) r).1
    ∙ ap (λ e. if e then some hex else value_at defaults b key) apart
    ∙ value_at-with_attr defaults (read_account a) key new key r.1
    ∙ ap (λ e. if e then some new else value_at defaults a key) here

-- An account whose attributes are loaded, no key twice up to case, and a client tag of four
-- characters, with memory, where a character's name has no comma and everything fits its buffer:
-- account_add_closed_character succeeds and keeps the account so; account_check_closed_character
-- gave, for any name, whether it is one of the names between the commas of the list, and now gives
-- that or whether it is the new name.
pub add_closed_character-check :
    (disk : Disk) (defaults : List Attribute) (a : Account) (t : Text) (ch : Character) (hex : Text)
    → IsReady a
    → is_tag t ≡ true
    → IsAddable (value_at defaults a (list_key t ch.realmname)) t ch hex
    → let old = names_of (value_at defaults a (list_key t ch.realmname)) in
      (b : Account) × (account_add_closed_character true disk defaults a t ch ≡ some (ok, b))
      × IsReady b
      × ((name : Text)
          → (account_check_closed_character true disk defaults a t ch.realmname name
              ≡ some (is_in name old, read_account a))
            × (account_check_closed_character true disk defaults b t ch.realmname name
                ≡ some (is_in name old || same_bytes ch.name name, read_account b)))
add_closed_character-check disk defaults a t ch hex r k v =
    let key = list_key t ch.realmname in
    let list = value_at defaults a key in
    let new = list_with list ch.name in
    let b = listed defaults a t ch hex in
    let first = IsReady-with_attr (read_account a) key (some new) r in
    let ready =
      IsReady-with_attr (with_attr (read_account a) key (some new))
        (blob_key t ch.realmname ch.name) (some hex) first in
    let names =
      ap names_of (value_at-listed defaults a t ch hex r)
      ∙ names_of-list_with list ch.name v.single in
    let short =
      subst AllShort (sym names) (AllShort-append (names_of list) ch.name v.short v.short_name) in
    (
      b,
      add_loaded disk defaults a t ch hex r.0 k v,
      ready,
      λ name. (
        check_loaded disk defaults a t ch.realmname name r.0 k v.list_key_fits v.short,
        check_loaded disk defaults b t ch.realmname name r.0 k v.list_key_fits short
            ∙ ap (λ ns. some (is_in name ns, read_account b)) names
            ∙ ap (λ f. some (f, read_account b)) (is_in-append name (names_of list) ch.name),
      ),
    )
