-- ===== src/Game/Tests.antt =====
-- The theorems on games at a small game, and runs of the operations on it.
use bnetd.Prelude.{
  ℕ, ◌+◌, ◌≡◌, refl, Bool, true, false, List, [], ◌∷◌, Option, none, some, arith, length,
}
use bnetd.Prelude.Text.{Text, codes}
use bnetd.Util.Case.{same_name, same_bytes, strcasecmp, fold_case}
use bnetd.Game.{
  Game, Slot, Conns, Rc, ok, fail, GameType, all_types, melee, ladder, GameStatus, GameResult,
  no_result, win, loss, playing, disconnect,
}
use bnetd.Game.Players.{Parted, goes_on, add_player, del_player, vacate}
use bnetd.Game.Results.{check_result, set_result, get_result}
use bnetd.Game.Verdict.{takes_part, IsReported, check_result-IsReported}
use bnetd.Game.Results.{position, judge, slot_result, write_result, write_report}
use bnetd.Game.History.{Reached, start, later, sets, get_result-Reached}
use bnetd.Game.Presence.{
  IsAttended, IsEntry, IsDeparture, add_player-IsEntry, del_player-IsDeparture,
}
use bnetd.Game.Report.{compact, report, to_file, AccountOp}
use bnetd.Game.Compaction.{IsCompacted, compact-IsCompacted, reals}
use bnetd.Game.Credits.{IsCredited, number, is_disconnect}
use bnetd.Game.Personal.{AllPersonal}
use bnetd.Game.Reporting.{IsReportable, counted, standing_of, report-IsCredited}
use bnetd.Game.Games.{GameList, create, check_voidgame}
use bnetd.Game.Registry.{IsRegistry, IsCreated, named, create-IsCreated}
use bnetd.Game.Sweep.{Swept, check_voidgame-Swept}

-- Connection c belongs to account 10 + c, which has 10 + c wins.
abbrev people : Conns
people = record {
  account = λ c. some (10 + c);
  normal_wins = λ c. 10 + c;
  game_addr = λ c. 100 + c;
  game_port = λ c. 6112;
}

abbrev slot : ℕ → GameResult → Slot
slot c r = record {
  connection = some c;
  player = some (10 + c);
  result = r;
  report_head = none;
  report_body = none;
}

abbrev match : GameType → ℕ → Game
match type realm = record {
  id = 1;
  name = codes "Big Game";
  pass = codes "Pass";
  info = [];
  type = type;
  realm = realm;
  realmname = none;
  clienttag = codes "STAR";
  addr = 101;
  port = 6112;
  startver = 1;
  status = GameStatus.opened;
  ref = 3;
  owner = some 1;
  slots = slot 1 win ∷ slot 2 playing ∷ slot 3 no_result ∷ [];
  create_time = 5;
  start_time = 0;
  lastaccess_time = 5;
  bad = false;
  countasloss = false;
}

match-IsAttended : IsAttended people (match ladder 0)
unfolding bnetd.Game.Presence.live bnetd.Game.Players.first_connection
match-IsAttended = record {
  counted = refl;
  host = refl;
  host_addr = λ c e. ground arith;
  host_port = λ c e. ground arith;
}

check_result-IsReported_example :
    ((check_result (match melee 0) 12 loss).0 ≡ ok)
    × IsReported (match melee 0) 12 loss (check_result (match melee 0) 12 loss).1
check_result-IsReported_example = check_result-IsReported (match melee 0) 12 loss refl refl

add_player-IsEntry_example :
    IsEntry people
      (match ladder 0)
      (codes "pass")
      4
      7
      (add_player people true 9 (match ladder 0) (codes "pass") 4 7)
add_player-IsEntry_example =
    add_player-IsEntry people 9 (match ladder 0) (codes "pass") 4 7 match-IsAttended

del_player-IsDeparture_example :
    IsDeparture people (match ladder 0) (some 11) (del_player people 9 (match ladder 0) 1)
del_player-IsDeparture_example = del_player-IsDeparture people 9 (match ladder 0) 1 match-IsAttended

abbrev mixed : List Slot
mixed = slot 1 no_result ∷ slot 2 win ∷ slot 3 no_result ∷ slot 4 loss ∷ []

compact-IsCompacted_example : IsCompacted mixed (compact mixed)
compact-IsCompacted_example = compact-IsCompacted mixed

match-IsReportable : IsReportable (match ladder 0)
unfolding reals same_bytes
match-IsReportable = record { tag = refl; no_diablo = refl; good = refl; somebody = omega arith }

report-IsCredited_example :
    (ss : List Slot) × (ch : List (Option ℕ × List AccountOp)) × (report false false
        (match ladder 0)
      ≡ to_file (length (reals (match ladder 0).slots)) ss ch)
    × IsCredited false
        (counted ladder (number is_disconnect (reals (match ladder 0).slots)))
        (reals (match ladder 0).slots)
        ch
    × AllPersonal (standing_of ladder) false (reals (match ladder 0).slots) ch
report-IsCredited_example = report-IsCredited false false (match ladder 0) match-IsReportable

abbrev one_game : GameList
one_game = record { games = match melee 3 ∷ []; totalcount = 1 }

one_game-IsRegistry : IsRegistry one_game
unfolding named bnetd.Game.Registry.numbered
one_game-IsRegistry = record { unique = (refl, refl, tt); drawn = (omega arith, tt) }

new_is_free : named one_game.games (codes "New") ≡ false
unfolding named same_name strcasecmp fold_case
new_is_free = refl

abbrev no_info : Text → Bool
no_info t = false

create-IsCreated_example :
    (g : Game) × (l' : GameList) × (create true true 9 no_info one_game
        (codes "New")
        []
        []
        ladder
        1
        (codes "STAR")
      ≡ (some g, l'))
    × IsCreated one_game (codes "New") g l'
create-IsCreated_example =
    create-IsCreated 9 no_info one_game (codes "New") [] [] ladder 1 (codes "STAR")
      one_game-IsRegistry (omega arith) new_is_free

check_voidgame-Swept_example : Swept 400 one_game.games (check_voidgame 400 one_game).games
check_voidgame-Swept_example = check_voidgame-Swept 400 one_game one_game-IsRegistry

-- A second, different report leaves the first one.
contradiction_kept : get_result (check_result (match melee 0) 11 loss).1 11 ≡ win
unfolding check_result get_result bnetd.Game.Results.position bnetd.Game.Results.judge
    bnetd.Game.Results.slot_result bnetd.Game.Results.write_result
contradiction_kept = refl

-- The first player won, and then the second says that it lost.
abbrev first_report : Game
first_report = (check_result (match melee 0) 11 win).1

abbrev second_report : Game
second_report = (set_result first_report 12 loss (codes "head") (codes "body")).1

both_reports : Reached first_report second_report
both_reports = later start (sets first_report 12 loss (codes "head") (codes "body"))

still_good : second_report.bad ≡ false
unfolding check_result set_result position judge slot_result write_result write_report
still_good = refl

get_result-Reached_example :
    (takes_part (match melee 0) 11 ≡ true) × (get_result second_report 11 ≡ win)
get_result-Reached_example =
    get_result-Reached (match melee 0) second_report 11 win refl refl both_reports still_good
