-- ===== src/Account/Characters.antt =====
-- The closed characters of an account in a realm: account_check_closed_character,
-- account_get_closed_characterlist and account_add_closed_character of src/bnetd/account_wrap.c,
-- and str_to_hex of src/common/util.c. A write behind the end of a buffer, and the use of one that
-- nothing was written to, is `none` as the outcome.
pub mod Listing
use bnetd.Prelude.{
  ℕ, ◌+◌, ◌/◌, ◌%◌, Bool, true, false, List, [], ◌∷◌, ◌++◌, Option, none, some, if◌then◌else◌,
  ◌>>=◌, ◌==◌, ltb, leb, length,
}
use bnetd.Prelude.Text.{Text, codes}
use bnetd.Util.Case.{same_bytes}
use bnetd.Channel.{Rc, ok, fail}
use bnetd.Account.{Attribute, Account, Disk}
use bnetd.Account.Numbers.{account_get_strattr, account_set_strattr}
use bnetd.Account.Record.{is_tag}

-- `data` has the bytes up to `datalen`.
pub record Character : Type 0 where
  pub realmname : Text
  pub name : Text
  pub blob : List ℕ

-- `sprintf` into a buffer of `len` bytes.
abbrev pub in_room : (len : ℕ) → Text → Option Text
in_room len s = if ltb (length s) len then some s else none

unfoldable pub list_key : Text → Text → Text
list_key clienttag realmname =
    codes "BNET\\CharacterList\\" ++ clienttag ++ b'\\' ∷ (realmname ++ codes "\\0")

unfoldable pub blob_key : Text → Text → Text → Text
blob_key clienttag realmname name =
    codes "BNET\\Characters\\" ++ clienttag ++ b'\\' ∷ (realmname ++ b'\\' ∷ (name ++ codes "\\0"))

unfoldable pub upper_hex : ℕ → ℕ
upper_hex n = if ltb n 10 then 48 + n else 55 + n

-- Each byte gives two digits and a space.
unfoldable pub str_to_hex : List ℕ → Text
str_to_hex [] = []
str_to_hex (c ∷ s) = upper_hex (c / 16 % 16) ∷ upper_hex (c % 16) ∷ 32 ∷ str_to_hex s

-- What is in `hex_buffer`, whose first bytes are set only if there are data. The last one is
-- written with three spaces more and a NUL.
unfoldable pub hex_of : List ℕ → Option Text
hex_of [] = none
hex_of (c ∷ s) = do written ← in_room 353 (str_to_hex (c ∷ s)); some written

-- The comparison of a name that is copied to `tempname`.
abbrev pub compared : Text → Text → Option Bool
compared word charname = if ltb (length word) 32 then some (same_bytes word charname) else none

abbrev pub or_next : Option Bool → Option Bool → Option Bool
or_next none rest = none
or_next (some true) rest = some true
or_next (some false) rest = rest

-- The loop of `account_check_closed_character`; `word` is from `start` to `next_char`.
unfoldable pub find_name : (charname : Text) → (word : Text) → Text → Option Bool
find_name charname word [] = compared word charname
find_name charname word (c ∷ charlist) =
    let next = find_name charname [] charlist in
    let longer = find_name charname (word ++ c ∷ []) charlist in
    if c == b',' then or_next (compared word charname) next else longer

unfoldable pub check_list : Text → Option Text → Option Bool
check_list charname none = some false
check_list charname (some charlist) = find_name charname [] charlist

abbrev pub list_with : Option Text → Text → Text
list_with none name = name
list_with (some old_list) name = old_list ++ b',' ∷ name

module _ (mem : Bool) (disk : Disk) (defaults : List Attribute) where
  unfoldable pub account_get_closed_characterlist :
      Account → Text → Text → Option (Option Text × Account)
  account_get_closed_characterlist a clienttag realmname =
      if is_tag clienttag
      then in_room 256 (list_key clienttag realmname) >>= account_get_strattr mem disk defaults a
      else some (none, a)

  unfoldable pub account_check_closed_character :
      Account → Text → Text → Text → Option (Bool × Account)
  account_check_closed_character a clienttag realmname charname = do
    r ← account_get_closed_characterlist a clienttag realmname
    found ← check_list charname r.0
    some (found, r.1)

  -- With a client tag of four characters.
  unfoldable pub add_to_list : Account → Text → Character → Option (Rc × Account)
  add_to_list a clienttag ch = do
    key ← in_room 256 (list_key clienttag ch.realmname)
    old ← account_get_strattr mem disk defaults a key
    chars_in_realm ← in_room 256 (list_with old.0 ch.name)
    listed ← account_set_strattr mem disk old.1 key (some chars_in_realm)
    key₂ ← in_room 256 (blob_key clienttag ch.realmname ch.name)
    hex ← hex_of ch.blob
    stored ← account_set_strattr mem disk listed.1 key₂ (some hex)
    some (ok, stored.1)

  unfoldable pub account_add_closed_character : Account → Text → Character → Option (Rc × Account)
  account_add_closed_character a clienttag ch =
      if is_tag clienttag then add_to_list a clienttag ch else some (fail, a)
