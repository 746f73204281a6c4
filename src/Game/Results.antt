-- ===== src/Game/Results.antt =====
-- `game_check_result`, `game_set_result` and `game_get_result`.
use bnetd.Prelude.{
  ℕ, zero, suc, Bool, true, false, ◌||◌, not, List, [], ◌∷◌, Option, none, some, ◌==◌,
  if◌then◌else◌,
}
use bnetd.Prelude.Text.{Text}
use bnetd.Game.{
  Game, Slot, Rc, ok, fail, GameResult, no_result, win, loss, draw, disconnect, observer, playing,
}

abbrev pub same_result : GameResult → GameResult → Bool
same_result no_result no_result = true
same_result win win = true
same_result loss loss = true
same_result draw draw = true
same_result disconnect disconnect = true
same_result observer observer = true
same_result playing playing = true
same_result _ _ = false

abbrev pub is_player : Slot → ℕ → Bool
is_player s a = elim s.player [ none ↦ false | some b ↦ b == a ]

-- The loop that looks for a player, which keeps the last position; `none` stands for `game->count`.
unfoldable pub position : List Slot → ℕ → Option ℕ
position [] a = none
position (s ∷ ss) a = elim (position ss a) [
  | some i ↦ some (suc i)
  | none ↦ if is_player s a then some 0 else none
]

abbrev pub is_nil : List Slot → Bool
is_nil [] = true
is_nil (s ∷ ss) = false

-- `game_result_none` or `game_result_playing`: nothing is decided yet.
abbrev pub undecided : GameResult → Bool
undecided no_result = true
undecided playing = true
undecided _ = false

-- What is stored in the slot, and whether the game turns bad.
unfoldable pub judge : GameResult → GameResult → GameResult × Bool
judge old new =
    if same_result old new
    then (old, false)
    else if undecided old
    then (new, false)
    else (old, true)

unfoldable pub slot_result : List Slot → ℕ → GameResult
slot_result [] i = no_result
slot_result (s ∷ ss) zero = s.result
slot_result (s ∷ ss) (suc i) = slot_result ss i

unfoldable pub write_result : List Slot → ℕ → GameResult → List Slot
write_result [] i r = []
write_result (s ∷ ss) zero r = record s { result = r } ∷ ss
write_result (s ∷ ss) (suc i) r = s ∷ write_result ss i r

unfoldable pub check_result : Game → ℕ → GameResult → Rc × Game
check_result g a result =
    if is_nil g.slots
    then (fail, g)
    else if same_result result no_result
    then (fail, g)
    else elim (position g.slots a) [
      | none ↦ (ok, record g { bad = true })
      | some pos ↦
          let (stored, bad) = judge (slot_result g.slots pos) result in
          (ok, record g { slots = write_result g.slots pos stored; bad = g.bad || bad })
    ]

-- `game_set_result` accepts no `playing`.
abbrev pub is_final : GameResult → Bool
is_final no_result = false
is_final playing = false
is_final _ = true

unfoldable pub write_report : List Slot → ℕ → Text → Text → List Slot
write_report [] i head body = []
write_report (s ∷ ss) zero head body =
    record s { report_head = some head; report_body = some body } ∷ ss
write_report (s ∷ ss) (suc i) head body = s ∷ write_report ss i head body

-- Both copies of the report are allocated.
unfoldable pub set_result : Game → ℕ → GameResult → Text → Text → Rc × Game
set_result g a result rephead repbody =
    if is_nil g.slots
    then (fail, g)
    else if not (is_final result)
    then (fail, g)
    else elim (position g.slots a) [
      | none ↦ (fail, g)
      | some pos ↦
          check_result (record g { slots = write_report g.slots pos rephead repbody }) a result
    ]

unfoldable pub get_result : Game → ℕ → GameResult
get_result g a = elim (position g.slots a) [ none ↦ no_result | some pos ↦ slot_result g.slots pos ]
