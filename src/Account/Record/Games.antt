-- ===== src/Account/Record/Games.antt =====
-- What game_report of src/bnetd/game.c has the accounts do: the operations that `account_changes`
-- lists, on one account. Of ladder_init_account of src/bnetd/ladder.c this is what it does to the
-- account; the ladder's own list is left aside.
pub mod Played
use bnetd.Prelude.{
  ℕ, ◌+◌, Bool, true, false, not, List, [], ◌∷◌, Option, none, some, if◌then◌else◌, ◌>>=◌, ◌==◌,
  ltb, u32,
}
use bnetd.Prelude.Int.{ℤ}
use bnetd.Prelude.Text.{Text, codes}
use bnetd.Channel.{Rc, ok, fail}
use bnetd.Game.{GameResult, no_result, win, loss, draw, disconnect, observer, playing}
use bnetd.Game.Report.{
  LadderId, Standing, normal, on_ladder, AccountOp, init_account, inc_wins, inc_losses, inc_draws,
  inc_disconnects, last_result, last_time,
}
use bnetd.Account.{Attribute, Account, Disk}
use bnetd.Account.Record.{
  Counter, wins, losses, draws, disconnects, is_tag, get_number, account_get_counter,
  account_inc_counter, set_last, account_adjust_ladder_rating,
}

unfoldable pub game_result_get_str : GameResult → Text
game_result_get_str no_result = codes "NONE"
game_result_get_str win = codes "WIN"
game_result_get_str loss = codes "LOSS"
game_result_get_str draw = codes "DRAW"
game_result_get_str disconnect = codes "DISCONNECT"
game_result_get_str observer = codes "OBSERVER"
game_result_get_str playing = codes "UNKNOWN"

abbrev pub after : Option (Rc × Account) → Option Account
after none = none
after (some (rc, a)) = some a

-- `init_rating` is `prefs_get_ladder_init_rating()`, and `now` the time as `bnettime_get_str`
-- writes it.
module _ (mem : Bool) (disk : Disk) (defaults : List Attribute) (init_rating : ℤ) (now : Text) where
  -- With a rating of 0.
  unfoldable pub init_unrated : Account → Text → LadderId → Option Account
  init_unrated a clienttag id = do
    w ← account_get_counter mem disk defaults a clienttag (on_ladder id) wins
    l ← account_get_counter mem disk defaults w.1 clienttag (on_ladder id) losses
    if ltb 0 (u32 (w.0 + l.0))
        then some l.1
        else after (account_adjust_ladder_rating mem disk defaults l.1 clienttag id init_rating)

  unfoldable pub init_rated : Text → LadderId → ℕ × Account → Option Account
  init_rated clienttag id (rating, a) = if rating == 0 then init_unrated a clienttag id else some a

  unfoldable pub ladder_init_account : Account → Text → LadderId → Option Account
  ladder_init_account a clienttag id =
      if is_tag clienttag
      then get_number mem disk defaults a clienttag (on_ladder id) (codes "rating")
        >>= init_rated clienttag id
      else some a

  unfoldable pub apply_op : Account → Text → AccountOp → Option Account
  apply_op a clienttag (init_account id) = ladder_init_account a clienttag id
  apply_op a clienttag (inc_wins at) =
      after (account_inc_counter mem disk defaults a clienttag at wins)
  apply_op a clienttag (inc_losses at) =
      after (account_inc_counter mem disk defaults a clienttag at losses)
  apply_op a clienttag (inc_draws at) =
      after (account_inc_counter mem disk defaults a clienttag at draws)
  apply_op a clienttag (inc_disconnects at) =
      after (account_inc_counter mem disk defaults a clienttag at disconnects)
  apply_op a clienttag (last_result at result) = after (
      set_last mem disk defaults a clienttag at (codes "last game result")
        (game_result_get_str result))
  apply_op a clienttag (last_time at) =
      after (set_last mem disk defaults a clienttag at (codes "last game") now)

  -- The return codes are not looked at.
  unfoldable pub apply_ops : Account → Text → List AccountOp → Option Account
  apply_ops a clienttag [] = some a
  apply_ops a clienttag (op ∷ ops) = do a' ← apply_op a clienttag op; apply_ops a' clienttag ops
