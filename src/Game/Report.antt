-- ===== src/Game/Report.antt =====
-- `game_report` up to the point where it writes the report file, which is not modelled: it moves
-- the real players to the front of the arrays, and enters their results into the accounts.
use bnetd.Prelude.{
  ℕ, zero, suc, ◌+◌, Bool, true, false, ◌&&◌, ◌||◌, not, List, [], ◌∷◌, Option, none, some, ◌==◌,
  if◌then◌else◌, length, get_elem?,
}
use bnetd.Prelude.Text.{Text, codes}
use bnetd.Util.Case.{same_bytes}
use bnetd.Game.{
  Game, Slot, GameType, GameResult, ladder, ironman, no_result, win, loss, draw, disconnect, Rc, ok,
  fail,
}
use bnetd.Game.Results.{same_result, is_nil}
use bnetd.Game.Players.{is_some}

-- `players[realcount] = players[i]` and so on; `connections` is left alone.
unfoldable pub copy_slot : Slot → Slot → Slot
copy_slot to from = record to {
  player = from.player;
  result = from.result;
  report_head = from.report_head;
  report_body = from.report_body;
}

-- What the loop looks for: a player with an account and a result.
abbrev pub is_real : Slot → Bool
is_real s = is_some s.player && not (same_result s.result no_result)

-- A write of slot `s` at an index, keeping the connection that stands there.
unfoldable pub copy_to : List Slot → ℕ → Slot → List Slot
copy_to [] i s = []
copy_to (x ∷ xs) zero s = copy_slot x s ∷ xs
copy_to (x ∷ xs) (suc i) s = x ∷ copy_to xs i s

-- The loop that compacts the game: `left` rounds from index `i` on, with `realcount`.
unfoldable pub compact_loop : ℕ → ℕ → ℕ → List Slot → ℕ × List Slot
compact_loop zero i realcount ss = (realcount, ss)
compact_loop (suc left) i realcount ss = elim (get_elem? ss i) [
  | none ↦ (realcount, ss)
  | some s ↦
      compact_loop left (i + 1) (if is_real s then realcount + 1 else realcount)
        (if is_real s then copy_to ss realcount s else ss)
]

unfoldable pub blank : Slot → Slot
blank s = record s { player = none; result = no_result; report_head = none; report_body = none }

-- The loop that clears the slots from index `realcount` on.
unfoldable pub nuke_from : ℕ → List Slot → List Slot
nuke_from realcount [] = []
nuke_from zero (s ∷ ss) = blank s ∷ nuke_from zero ss
nuke_from (suc k) (s ∷ ss) = s ∷ nuke_from k ss

unfoldable pub compact : List Slot → ℕ × List Slot
compact ss =
    let (realcount, moved) = compact_loop (length ss) 0 0 ss in
    (realcount, nuke_from realcount moved)

-- `t_ladder_id`, and which of the two records of an account a game counts for
pub data LadderId : Type 0 where
  normal_ladder ironman_ladder : LadderId

pub data Standing : Type 0 where
  normal : Standing
  on_ladder : LadderId → Standing

-- The calls that change an account; `last_time` is set to `bnettime()`. A result stands for its
-- name by `game_result_get_str`.
pub data AccountOp : Type 0 where
  init_account : LadderId → AccountOp
  inc_wins inc_losses inc_draws inc_disconnects : Standing → AccountOp
  last_result : Standing → GameResult → AccountOp
  last_time : Standing → AccountOp

-- One player of a ladder game.
unfoldable pub ladder_ops : LadderId → Bool → GameResult → List AccountOp
ladder_ops id discisloss win =
    init_account id
    ∷ inc_wins (on_ladder id)
    ∷ last_result (on_ladder id) win
    ∷ last_time (on_ladder id)
    ∷ []
ladder_ops id discisloss loss =
    init_account id
    ∷ inc_losses (on_ladder id)
    ∷ last_result (on_ladder id) loss
    ∷ last_time (on_ladder id)
    ∷ []
ladder_ops id discisloss draw =
    init_account id
    ∷ inc_draws (on_ladder id)
    ∷ last_result (on_ladder id) draw
    ∷ last_time (on_ladder id)
    ∷ []
ladder_ops id true disconnect =
    init_account id
    ∷ inc_losses (on_ladder id)
    ∷ last_result (on_ladder id) loss
    ∷ last_time (on_ladder id)
    ∷ []
ladder_ops id discisloss _ =
    init_account id
    ∷ inc_disconnects (on_ladder id)
    ∷ last_result (on_ladder id) disconnect
    ∷ last_time (on_ladder id)
    ∷ []

-- One player of another game; `disc_set` tells whether a disconnect has been counted yet, and the
-- second component is its new value.
unfoldable pub normal_ops : Bool → Bool → GameResult → List AccountOp × Bool
normal_ops discisloss disc_set win =
    (inc_wins normal ∷ last_result normal win ∷ last_time normal ∷ [], disc_set)
normal_ops discisloss disc_set loss =
    (inc_losses normal ∷ last_result normal loss ∷ last_time normal ∷ [], disc_set)
normal_ops discisloss disc_set draw =
    (inc_draws normal ∷ last_result normal draw ∷ last_time normal ∷ [], disc_set)
normal_ops true disc_set disconnect =
    (inc_losses normal ∷ last_result normal loss ∷ last_time normal ∷ [], disc_set)
normal_ops false true disconnect = (last_result normal disconnect ∷ last_time normal ∷ [], true)
normal_ops false false disconnect =
    (inc_disconnects normal ∷ last_result normal disconnect ∷ last_time normal ∷ [], true)
normal_ops discisloss disc_set _ =
    (inc_disconnects normal ∷ last_result normal disconnect ∷ last_time normal ∷ [], disc_set)

-- The loops over the real players: for each slot what is done to the account in it.
unfoldable pub ladder_loop : LadderId → Bool → List Slot → List (Option ℕ × List AccountOp)
ladder_loop id discisloss [] = []
ladder_loop id discisloss (s ∷ ss) =
    (s.player, ladder_ops id discisloss s.result) ∷ ladder_loop id discisloss ss

unfoldable pub normal_loop : Bool → Bool → List Slot → List (Option ℕ × List AccountOp)
normal_loop discisloss disc_set [] = []
normal_loop discisloss disc_set (s ∷ ss) =
    let (ops, disc_set') = normal_ops discisloss disc_set s.result in
    (s.player, ops) ∷ normal_loop discisloss disc_set' ss

-- The first `realcount` slots.
abbrev pub front : ℕ → List Slot → List Slot
front zero ss = []
front (suc k) [] = []
front (suc k) (s ∷ ss) = s ∷ front k ss

-- The test of the game's type, after which `ladder_update` is called in a ladder game.
unfoldable pub account_changes : GameType → Bool → List Slot → List (Option ℕ × List AccountOp)
account_changes ladder discisloss real = ladder_loop normal_ladder discisloss real
account_changes ironman discisloss real = ladder_loop ironman_ladder discisloss real
account_changes _ discisloss real = normal_loop discisloss false real

-- DSHR, DRTL, D2ST, D2DV and D2XP
abbrev pub is_diablo : Text → Bool
is_diablo t =
    same_bytes t (codes "DSHR")
    || (same_bytes t (codes "DRTL")
        || (same_bytes t (codes "D2ST")
            || (same_bytes t (codes "D2DV") || same_bytes t (codes "D2XP"))))

abbrev pub is_zero_count : ℕ → Bool
is_zero_count zero = true
is_zero_count (suc n) = false

-- What `game_report` has done when it comes to the report file, or where it has returned before.
pub data Reported : Type 0 where
  returned : Rc → List Slot → Reported
  to_file : (realcount : ℕ) → List Slot → List (Option ℕ × List AccountOp) → Reported

-- `disc_pref` and `diablo_pref` stand for `prefs_get_discisloss()==1` and
-- `prefs_get_report_diablo_games()==1`. A Diablo game has no real players.
unfoldable pub report : Bool → Bool → Game → Reported
report disc_pref diablo_pref g =
    if not (length g.clienttag == 4) || is_nil g.slots
    then returned fail g.slots
    else if is_diablo g.clienttag
    then (if diablo_pref then to_file 0 g.slots [] else returned ok g.slots)
    else (let (realcount, ss) = compact g.slots in
        if is_zero_count realcount
        then returned fail ss
        else to_file realcount ss (
            if g.bad
            then []
            else account_changes g.type (disc_pref || g.countasloss) (front realcount ss)))
