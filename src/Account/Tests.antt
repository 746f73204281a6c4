-- ===== src/Account/Tests.antt =====
-- Runs and examples of the accounts' operations.
use bnetd.Prelude.{◌||◌, ◌≡◌, refl, true, false, List, [], ◌∷◌, none, some, if◌then◌else◌, arith}
use bnetd.Prelude.Int.{pos, negsuc}
use bnetd.Prelude.Text.{Text, codes}
use bnetd.Util.Print.{decimal, digits}
use bnetd.Util.Case.{same_bytes, same_name, fold_case, strcasecmp}
use bnetd.Channel.{ok}
use bnetd.Game.{win}
use bnetd.Game.Report.{
  normal_ladder, on_ladder, AccountOp, init_account, inc_wins, last_result, last_time,
}
use bnetd.Account.{Attribute, Account, Disk, find_attr, new_key, set_attr, same_start}
use bnetd.Account.Attributes.{IsDistinct}
use bnetd.Account.File.{quote, load_file, load_loop, save_lines, account_save, lookup}
use bnetd.Account.File.Ending.{IsRun, load_file-IsRun}
use bnetd.Account.File.Saving.{IsKept, IsReloaded, reload, account_save-reload}
use bnetd.Account.Numbers.{
  account_set_strattr, account_get_strattr, set_strattr-get_strattr, default_for, value_at,
  number_of,
}
use bnetd.Account.Record.{record_key, account_adjust_ladder_rating, account_set_ladder_rank}
use bnetd.Account.Record.Counting.{IsReady, read_account}
use bnetd.Account.Record.Ratings.{
  ladder_number, IsAdjusted, adjust_ladder_rating-IsAdjusted, set_ladder_rank-high,
}
use bnetd.Account.Characters.{
  Character, list_key, blob_key, hex_of, str_to_hex, upper_hex, account_add_closed_character,
  account_check_closed_character,
}
use bnetd.Account.Characters.Listing.{IsAddable, names_of, is_in, add_closed_character-check}
use bnetd.Account.Record.Games.{apply_ops}
use bnetd.Account.Record.Games.Played.{times, IsCountedSome, apply_ops-times}

abbrev no_disk : Disk
no_disk name = none

abbrev kept_attrs : List Attribute
kept_attrs =
    record { key = codes "Record\\SEXP\\0\\wins"; val = codes "3" }
    ∷ record { key = codes "BNET\\acct\\username"; val = codes "Bob" }
    ∷ []

abbrev bob : Account
bob = record {
  attrs = kept_attrs;
  namehash = 0;
  uid = 1;
  dirty = true;
  loaded = true;
  accessed = false;
  age = 0;
  filename = some (codes "users/000001");
}

bob-IsDistinct : IsDistinct kept_attrs
unfolding find_attr same_name strcasecmp fold_case
bob-IsDistinct = (refl, (refl, tt))

bob-IsKept : IsKept kept_attrs
bob-IsKept = ground arith

account_save-reload_example : IsReloaded kept_attrs (reload (account_save true 1000 60 no_disk bob))
account_save-reload_example =
    account_save-reload 1000 60 no_disk bob (codes "users/000001") refl refl refl bob-IsDistinct
      bob-IsKept

load_file-IsRun_example :
    IsRun true (codes "\"a\"=\"b\"") [] (load_file true (codes "\"a\"=\"b\"") [])
    × (load_loop true 9 (codes "\"a\"=\"b\"") [] ≡ load_file true (codes "\"a\"=\"b\"") [])
load_file-IsRun_example = load_file-IsRun true 9 (codes "\"a\"=\"b\"") [] (omega arith)

abbrev wins_key : Text
wins_key = codes "record\\sexp\\0\\WINS"

set_strattr-get_strattr_example :
    (b : Account) × (account_set_strattr true no_disk bob wins_key (some (codes "4"))
      ≡ some (ok, b))
    × (b.dirty ≡ true)
    × IsDistinct b.attrs
    × ((k : Text)
        → account_get_strattr true no_disk [] b k
          ≡ some (
            (if same_name wins_key (new_key k)
                then default_for [] (new_key k) (some (codes "4"))
                else value_at [] bob k),
            record b { accessed = true },
          ))
set_strattr-get_strattr_example =
    set_strattr-get_strattr no_disk [] bob wins_key (some (codes "4")) refl bob-IsDistinct

adjust_ladder_rating-IsAdjusted_example :
    (b : Account) × (account_adjust_ladder_rating true no_disk [] bob
        (codes "SEXP")
        normal_ladder
        (negsuc 4)
      ≡ some (ok, b))
    × IsAdjusted [] bob (codes "SEXP") normal_ladder (negsuc 4) b
adjust_ladder_rating-IsAdjusted_example =
    adjust_ladder_rating-IsAdjusted no_disk [] bob (codes "SEXP") normal_ladder (negsuc 4)
      (refl, bob-IsDistinct) refl

no_high_rank : ladder_number [] bob (codes "SEXP") normal_ladder (codes "high_rank") ≡ 0
unfolding lookup find_attr new_key same_start same_name strcasecmp fold_case record_key number_of
    decimal digits
no_high_rank = refl

set_ladder_rank-high_example :
    (b : Account) × (account_set_ladder_rank true no_disk [] bob (codes "SEXP") normal_ladder 7
      ≡ some (ok, b))
    × IsReady b
    × (ladder_number [] b (codes "SEXP") normal_ladder (codes "rank") ≡ 7)
    × (ladder_number [] b (codes "SEXP") normal_ladder (codes "high rank") ≡ 7)
    × (ladder_number [] b (codes "SEXP") normal_ladder (codes "high_rank") ≡ 0)
set_ladder_rank-high_example =
    set_ladder_rank-high no_disk [] bob (codes "SEXP") normal_ladder 7 (refl, bob-IsDistinct)
      (omega arith) refl no_high_rank

abbrev won : List AccountOp
won =
    init_account normal_ladder
    ∷ inc_wins (on_ladder normal_ladder)
    ∷ last_result (on_ladder normal_ladder) win
    ∷ last_time (on_ladder normal_ladder)
    ∷ []

apply_ops-times_example :
    IsCountedSome []
      (times (codes "SEXP") won)
      bob
      (apply_ops true no_disk [] (pos 1000) (codes "29237110 1") bob (codes "SEXP") won)
apply_ops-times_example =
    apply_ops-times no_disk [] (pos 1000) (codes "29237110 1") bob (codes "SEXP") won
      (refl, bob-IsDistinct) refl

-- A line that overruns the buffer of its key: seven characters, three of which fit.
overrun_line : load_file true (codes "\"abcdef") [] ≡ none
unfolding load_file load_loop bnetd.Account.File.file_get_line bnetd.Account.File.line_loop
    bnetd.Account.File.load_line bnetd.Account.File.until_nul bnetd.Account.File.scan_entry
    bnetd.Account.File.load_entry bnetd.Account.File.scan_quoted bnetd.Account.File.quoted
    bnetd.Account.File.scan_equals
overrun_line = refl

abbrev keeper : Account
keeper = record bob {
  attrs =
      record { key = codes "BNET\\CharacterList\\D2DV\\Europe\\0"; val = codes "Ann,Zed" }
      ∷ record { key = codes "BNET\\acct\\username"; val = codes "Bob" }
      ∷ [];
}

keeper-IsDistinct : IsDistinct keeper.attrs
unfolding find_attr same_name strcasecmp fold_case
keeper-IsDistinct = (refl, (refl, tt))

abbrev druid : Character
druid = record { realmname = codes "Europe"; name = codes "Eve"; blob = 16 ∷ 255 ∷ [] }

druid-IsAddable :
    IsAddable
      (value_at [] keeper (list_key (codes "D2DV") (codes "Europe")))
      (codes "D2DV")
      druid
      (codes "10 FF ")
unfolding lookup find_attr new_key same_start same_name strcasecmp fold_case list_key blob_key
    hex_of str_to_hex upper_hex
druid-IsAddable = record {
  list_key_fits = omega arith;
  blob_key_fits = omega arith;
  list_fits = omega arith;
  short = (omega arith, (omega arith, tt));
  short_name = omega arith;
  single = (refl, (refl, (refl, tt)));
  blob_fits = refl;
}

add_closed_character-check_example :
    let old = names_of (value_at [] keeper (list_key (codes "D2DV") (codes "Europe"))) in
    (b : Account) × (account_add_closed_character true no_disk [] keeper (codes "D2DV") druid
      ≡ some (ok, b))
    × IsReady b
    × ((name : Text)
        → (account_check_closed_character true no_disk [] keeper
              (codes "D2DV")
              (codes "Europe")
              name
            ≡ some (is_in name old, read_account keeper))
          × (account_check_closed_character true no_disk [] b (codes "D2DV") (codes "Europe") name
              ≡ some (is_in name old || same_bytes (codes "Eve") name, read_account b)))
add_closed_character-check_example =
    add_closed_character-check no_disk [] keeper (codes "D2DV") druid (codes "10 FF ")
      (refl, keeper-IsDistinct) refl druid-IsAddable
