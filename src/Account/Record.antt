-- ===== src/Account/Record.antt =====
-- The records of games of src/bnetd/account_wrap.c: the counters of normal and of ladder games,
-- their last results and times, and the ladder's rating and rank. What they write in `key` fits in
-- its 256 bytes.
pub mod Keys
pub mod Counting
pub mod Ratings
pub mod Games
use bnetd.Prelude.{
  ℕ, ◌+◌, ◌-◌, ◌^◌, ◌<◌, ◌≡◌, Bool, true, false, ◌&&◌, ◌||◌, not, List, [], ◌∷◌, ◌++◌, Option, none,
  some, if◌then◌else◌, ◌>>=◌, ◌==◌, ltb, leb, length, u32,
}
use bnetd.Prelude.Int.{ℤ, pos, negsuc}
use bnetd.Prelude.Text.{Text, codes}
use bnetd.Util.Print.{decimal}
use bnetd.Channel.{Rc, ok, fail}
use bnetd.Game.Report.{LadderId, normal_ladder, ironman_ladder, Standing, normal, on_ladder}
use bnetd.Account.{Attribute, Account, Disk}
use bnetd.Account.Numbers.{
  account_get_numattr, account_set_numattr, account_get_strattr, account_set_strattr,
}

-- The number in the key: 0 for normal games, and otherwise that of the ladder.
abbrev pub number_in_key : Standing → ℕ
number_in_key normal = 0
number_in_key (on_ladder normal_ladder) = 1
number_in_key (on_ladder ironman_ladder) = 3

pub data Counter : Type 0 where
  wins losses draws disconnects : Counter

abbrev pub counter_word : Counter → Text
counter_word wins = codes "wins"
counter_word losses = codes "losses"
counter_word draws = codes "draws"
counter_word disconnects = codes "disconnects"

-- `sprintf(key,"Record\\%s\\%d\\...",clienttag,id)`
unfoldable pub record_key : Text → Standing → Text → Text
record_key clienttag at word =
    codes "Record\\" ++ clienttag ++ b'\\' ∷ (decimal (number_in_key at) ++ b'\\' ∷ word)

abbrev pub is_tag : Text → Bool
is_tag clienttag = length clienttag == 4

-- The rating that is `delta` away, and 1 if that is below 1.
unfoldable pub new_rating : ℕ → ℤ → ℕ
new_rating oldrating (pos delta) = u32 (oldrating + delta)
new_rating oldrating (negsuc d) = if leb oldrating (d + 1) then 1 else oldrating - (d + 1)

abbrev pub both : Rc → Rc → Rc
both ok rc = rc
both fail rc = fail

module _ (mem : Bool) (disk : Disk) (defaults : List Attribute) where
  unfoldable pub get_number : Account → Text → Standing → Text → Option (ℕ × Account)
  get_number a clienttag at word =
      if is_tag clienttag
      then account_get_numattr mem disk defaults a (record_key clienttag at word)
      else some (0, a)

  unfoldable pub set_number : Account → Text → Standing → Text → ℕ → Option (Rc × Account)
  set_number a clienttag at word val =
      if is_tag clienttag
      then account_set_numattr mem disk a (record_key clienttag at word) val
      else some (fail, a)

  -- account_get_normal_wins to account_get_normal_disconnects and account_get_ladder_wins to
  -- account_get_ladder_disconnects
  unfoldable pub account_get_counter : Account → Text → Standing → Counter → Option (ℕ × Account)
  account_get_counter a clienttag at c = get_number a clienttag at (counter_word c)

  unfoldable pub account_inc_counter : Account → Text → Standing → Counter → Option (Rc × Account)
  account_inc_counter a clienttag at c = do
    old ← account_get_counter a clienttag at c
    set_number old.1 clienttag at (counter_word c) (u32 (old.0 + 1))

  -- account_set_normal_last_time, account_set_normal_last_result and their ladder versions
  unfoldable pub set_last : Account → Text → Standing → Text → Text → Option (Rc × Account)
  set_last a clienttag at word val =
      if is_tag clienttag
      then account_set_strattr mem disk a (record_key clienttag at word) (some val)
      else some (fail, a)

  unfoldable pub account_adjust_ladder_rating :
      Account → Text → LadderId → ℤ → Option (Rc × Account)
  account_adjust_ladder_rating a clienttag id delta =
      if not (is_tag clienttag) then some (fail, a) else (do
        old ← get_number a clienttag (on_ladder id) (codes "rating")
        let newrating = new_rating old.0 delta
        s ← set_number old.1 clienttag (on_ladder id) (codes "rating") newrating
        high ← get_number s.1 clienttag (on_ladder id) (codes "high rating")
        raised ←
            if ltb high.0 newrating
            then set_number high.1 clienttag (on_ladder id) (codes "high rating") newrating
            else some (ok, high.1)
        some (both s.0 raised.0, raised.1))

  -- account_get_ladder_high_rank reads another key than the one that is set here.
  unfoldable pub account_set_ladder_rank : Account → Text → LadderId → ℕ → Option (Rc × Account)
  account_set_ladder_rank a clienttag id rank =
      if not (is_tag clienttag) then some (fail, a) else (do
        s ← set_number a clienttag (on_ladder id) (codes "rank") rank
        old ← get_number s.1 clienttag (on_ladder id) (codes "high_rank")
        raised ←
            if old.0 == 0 || ltb rank old.0
            then set_number old.1 clienttag (on_ladder id) (codes "high rank") rank
            else some (ok, old.1)
        some (both s.0 raised.0, raised.1))
