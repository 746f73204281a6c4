-- ===== src/Account/Record/Counting.antt =====
-- The counters of an account after the operations on its records.
use bnetd.Prelude.{
  ℕ, ◌+◌, ◌^◌, ◌<◌, ◌≡◌, refl, ap, ◌∙◌, Bool, true, false, ◌&&◌, List, u32, if◌then◌else◌, ◌>>=◌,
  Option, some, arith,
}
use bnetd.Prelude.Text.{Text}
use bnetd.Util.Case.{same_name}
use bnetd.Util.Print.{decimal}
use bnetd.Channel.{ok}
use bnetd.Game.Report.{Standing}
use bnetd.Account.{Attribute, Account, Disk}
use bnetd.Account.Attributes.{IsDistinct, set_attr-IsDistinct}
use bnetd.Account.Numbers.{
  set_attr-ok, account_set_numattr, number_at, number_of, value_at, value_at-with_attr, with_attr,
  get_numattr-loaded, set_strattr-loaded, number_at-with_attr,
}
use bnetd.Account.Record.{
  Counter, counter_word, record_key, is_tag, get_number, set_number, account_get_counter,
  account_inc_counter,
}
use bnetd.Account.Record.Keys.{
  same_standing, same_counter, same_name-record_key, new_key-record_key,
}

-- An account whose attributes are loaded, no key twice.
abbrev pub IsReady : Account → Type 0
IsReady a = (a.loaded ≡ true) × IsDistinct a.attrs

-- A counter as it is read.
abbrev pub count : List Attribute → Account → Text → Standing → Counter → ℕ
count defaults a t at c = number_at defaults a (record_key t at (counter_word c))

abbrev pub is_counter : Text → Standing → Counter → Text → Standing → Counter → Bool
is_counter t at c t' at' c' = same_name t t' && (same_standing at at' && same_counter c c')

pub IsReady-with_attr :
    (a : Account) (key : Text) (val : Option Text) → IsReady a → IsReady (with_attr a key val)
IsReady-with_attr a key val r = (r.0, set_attr-IsDistinct true key val a.attrs r.1)

-- A number of a record after a number is stored in one.
pub number-with_attr :
    (defaults : List Attribute) (a : Account) (t : Text) (at : Standing) (word : Text) (n : ℕ)
    (t' : Text) (at' : Standing) (word' : Text)
    → IsReady a
    → n < 2 ^ 32
    → is_tag t ≡ true
    → is_tag t' ≡ true
    → number_at defaults
        (with_attr a (record_key t at word) (some (decimal n)))
        (record_key t' at' word')
      ≡ (if same_name t t' && (same_standing at at' && same_name word word')
          then n
          else number_at defaults a (record_key t' at' word'))
number-with_attr defaults a t at word n t' at' word' r h k k' =
    let key' = record_key t' at' word' in
    let same = ap (same_name (record_key t at word)) (new_key-record_key t' at' word') in
    number_at-with_attr defaults a (record_key t at word) n key' r.1 h
    ∙ ap (λ b. if b then n else number_at defaults a key')
        (same ∙ same_name-record_key t t' at at' word word' k k')

-- A word that is not that of a counter.
abbrev pub IsOther : Text → Type 0
IsOther word = (c : Counter) → same_name word (counter_word c) ≡ false

-- A value that is stored under another word leaves the counters.
pub count-other :
    (defaults : List Attribute) (a : Account) (t : Text) (at : Standing) (word val t' : Text)
    (at' : Standing) (c : Counter)
    → IsReady a
    → is_tag t ≡ true
    → is_tag t' ≡ true
    → IsOther word
    → count defaults (with_attr a (record_key t at word) (some val)) t' at' c
      ≡ count defaults a t' at' c
count-other defaults a t at word val t' at' c r k k' other =
    let key = record_key t at word in
    let key' = record_key t' at' (counter_word c) in
    let same =
      ap (same_name key) (new_key-record_key t' at' (counter_word c))
      ∙ same_name-record_key t t' at at' word (counter_word c) k k' in
    let differ : same_name t t' && (same_standing at at' && same_name word (counter_word c))
        ≡ false =
      ground (arith, other c) in
    ap number_of (
      value_at-with_attr defaults a key val key' r.1
      ∙ ap (λ b. if b then some val else value_at defaults a key') (same ∙ differ))

-- Reading marks the account.
abbrev pub read_account : Account → Account
read_account a = record a { accessed = true }

pub set_number_loaded :
    (disk : Disk) (defaults : List Attribute) (a : Account) (t : Text) (at : Standing) (word : Text)
    (n : ℕ)
    → a.loaded ≡ true
    → is_tag t ≡ true
    → set_number true disk defaults a t at word n
      ≡ some (ok, with_attr a (record_key t at word) (some (decimal n)))
unfolding set_number account_set_numattr
set_number_loaded disk defaults a t at word n l k =
    let key = record_key t at word in
    let stored = set_strattr-loaded disk a key (some (decimal n)) l in
    rw (k, stored, set_attr-ok key (some (decimal n)) a.attrs) refl

pub get_number_loaded :
    (disk : Disk) (defaults : List Attribute) (a : Account) (t : Text) (at : Standing) (word : Text)
    → a.loaded ≡ true
    → is_tag t ≡ true
    → get_number true disk defaults a t at word
      ≡ some (number_at defaults a (record_key t at word), read_account a)
unfolding get_number
get_number_loaded disk defaults a t at word l k =
    rw (k, get_numattr-loaded disk defaults a (record_key t at word) l) refl

-- The account after one more in a counter.
abbrev pub counted : List Attribute → Account → Text → Standing → Counter → Account
counted defaults a t at c =
    with_attr (read_account a) (record_key t at (counter_word c))
      (some (decimal (u32 (count defaults a t at c + 1))))

pub inc_counter_lem :
    (disk : Disk) (defaults : List Attribute) (a : Account) (t : Text) (at : Standing) (c : Counter)
    → a.loaded ≡ true
    → is_tag t ≡ true
    → account_inc_counter true disk defaults a t at c ≡ some (ok, counted defaults a t at c)
unfolding account_inc_counter account_get_counter
inc_counter_lem disk defaults a t at c l k =
    let word = counter_word c in
    ap (λ o. do old ← o; set_number true disk defaults old.1 t at word (u32 (old.0 + 1)))
      (get_number_loaded disk defaults a t at word l k)
    ∙ set_number_loaded disk defaults (read_account a) t at word (u32 (count defaults a t at c + 1))
        l k

u32-lt : (n : ℕ) → u32 n < 2 ^ 32
u32-lt n = omega arith

-- An account whose attributes are loaded, no key twice up to case, and a client tag of four
-- characters, with memory: a call of account_inc_normal_* or account_inc_ladder_* succeeds, keeps
-- the account so, adds one to its own counter modulo 2^32, and changes no other counter of that tag
-- or any other.
pub inc_counter-count :
    (disk : Disk) (defaults : List Attribute) (a : Account) (t : Text) (at : Standing) (c : Counter)
    → IsReady a
    → is_tag t ≡ true
    → (b : Account) × (account_inc_counter true disk defaults a t at c ≡ some (ok, b))
      × IsReady b
      × ((t' : Text) (at' : Standing) (c' : Counter)
          → is_tag t' ≡ true
          → count defaults b t' at' c' ≡ (
              if is_counter t at c t' at' c'
              then u32 (count defaults a t at c + 1)
              else count defaults a t' at' c'))
inc_counter-count disk defaults a t at c r k =
    let n = u32 (count defaults a t at c + 1) in
    (
      counted defaults a t at c,
      inc_counter_lem disk defaults a t at c r.0 k,
      IsReady-with_attr (read_account a) (record_key t at (counter_word c)) (some (decimal n)) r,
      λ t' at' c' k'.
          number-with_attr defaults (read_account a) t at (counter_word c) n t' at'
            (counter_word c') r (u32-lt (count defaults a t at c + 1)) k k',
    )
