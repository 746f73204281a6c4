-- ===== src/Account.antt =====
-- src/bnetd/account.c and src/bnetd/account_wrap.c, built without WITH_BITS: the accounts of users,
-- their attributes, and the files they are kept in. A file is the list of its bytes; the disk gives
-- a file by its name. The attributes of `default_acct`, which stays loaded, are an argument.
pub mod File
pub mod Numbers
pub mod Attributes
pub mod Record
pub mod Characters
mod Tests
use bnetd.Prelude.{
  ℕ, zero, suc, ◌+◌, ◌*◌, ◌/◌, Bool, true, false, ◌&&◌, ◌||◌, not, List, [], ◌∷◌, ◌++◌, Option,
  none, some, ◌==◌, ltb, leb, u32, if◌then◌else◌, drop,
}
use bnetd.Prelude.Text.{Text, codes}
use bnetd.Util.Case.{fold_case, same_name}
use bnetd.Channel.{Rc, ok, fail}

pub record Attribute : Type 0 where
  pub key : Text
  pub val : Text

-- `dirty`, `loaded` and `accessed` are 0 or 1.
pub record Account : Type 0 where
  pub attrs : List Attribute
  pub namehash : ℕ
  pub uid : ℕ
  pub dirty : Bool
  pub loaded : Bool
  pub accessed : Bool
  pub age : ℕ
  pub filename : Option Text

abbrev pub Disk : Type 0
Disk = Text → Option Text

-- The test `strncasecmp(a,b,cnt)==0`.
unfoldable pub same_start : (cnt : ℕ) → Text → Text → Bool
same_start zero a b = true
same_start (suc cnt) [] [] = true
same_start (suc cnt) [] (y ∷ b) = false
same_start (suc cnt) (x ∷ a) [] = false
same_start (suc cnt) (x ∷ a) (y ∷ b) = fold_case x == fold_case y && same_start cnt a b

-- The key that is looked up in place of one that starts with DynKey.
unfoldable pub new_key : Text → Text
new_key key = if same_start 6 key (codes "DynKey") then codes "Record" ++ drop 6 key else key

-- The loop of `account_get_strattr`.
unfoldable pub find_attr : Text → List Attribute → Option Text
find_attr key [] = none
find_attr key (curr ∷ attrs) = if same_name curr.key key then some curr.val else find_attr key attrs

abbrev pub is_found : Option Text → Bool
is_found none = false
is_found (some v) = true

-- `mem` tells whether allocations succeed.
unfoldable pub account_insert_attr : Bool → Text → Text → List Attribute → Rc × List Attribute
account_insert_attr mem key val attrs =
    if mem then (ok, record { key = key; val = val } ∷ attrs) else (fail, attrs)

-- The first attribute with the key is given the value, or taken out.
unfoldable pub put_val : Text → Text → List Attribute → List Attribute
put_val key val [] = []
put_val key val (curr ∷ attrs) =
    if same_name curr.key key
    then record curr { val = val } ∷ attrs
    else curr ∷ put_val key val attrs

unfoldable pub take_out : Text → List Attribute → List Attribute
take_out key [] = []
take_out key (curr ∷ attrs) = if same_name curr.key key then attrs else curr ∷ take_out key attrs

-- `account_set_strattr` after the attributes are loaded; NULL as the value takes the key out.
unfoldable pub set_attr : Bool → Text → Option Text → List Attribute → Rc × List Attribute
set_attr mem key none attrs = (ok, take_out key attrs)
set_attr mem key (some val) attrs =
    if is_found (find_attr key attrs)
    then if mem then (ok, put_val key val attrs) else (fail, attrs)
    else account_insert_attr mem key val attrs
