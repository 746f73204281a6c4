-- ===== src/Game/Players.antt =====
-- `game_choose_host`, `game_add_player`, `game_del_player` and `game_set_status`.
use bnetd.Prelude.{
  ℕ, ◌+◌, ◌-◌, Bool, true, false, ◌&&◌, ◌||◌, not, List, [], ◌∷◌, ◌++◌, Option, none, some, ◌==◌,
  ltb, if◌then◌else◌,
}
use bnetd.Prelude.Text.{Text}
use bnetd.Util.Case.{same_name}
use bnetd.Game.{Game, Slot, Conns, Rc, ok, fail, GameType, GameStatus, ladder, started, no_result}

-- The loop of `game_choose_host`: the first connection that is not NULL.
unfoldable pub first_connection : List Slot → Option ℕ
first_connection [] = none
first_connection (s ∷ ss) = elim s.connection [ some c ↦ some c | none ↦ first_connection ss ]

unfoldable pub choose_host : Conns → Game → Game
choose_host conns g = elim (first_connection g.slots) [
  | none ↦ g
  | some c ↦ record g { owner = some c; addr = conns.game_addr c; port = conns.game_port c }
]

abbrev pub is_ladder : GameType → Bool
is_ladder ladder = true
is_ladder _ = false

-- STARTVER_UNKNOWN, GW1, GW3, GW4 and REALM1
abbrev pub known_startver : ℕ → Bool
known_startver v = v == 0 || (v == 1 || (v == 3 || (v == 4 || v == 104)))

-- A slot as it is filled for a new player.
unfoldable pub new_slot : Conns → ℕ → Slot
new_slot conns c = record {
  connection = some c;
  player = conns.account c;
  result = no_result;
  report_head = none;
  report_body = none;
}

-- The five allocations succeed if `mem` holds.
unfoldable pub add_player : Conns → Bool → ℕ → Game → Text → ℕ → ℕ → Rc × Game
add_player conns mem now g pass startver c =
    if not (known_startver startver)
    then (fail, g)
    else if is_ladder g.type && ltb (conns.normal_wins c) 10
    then (fail, g)
    else if not (same_name g.pass pass)
    then (fail, g)
    else if not mem
    then (fail, g)
    else (
      ok,
      choose_host conns (record g {
        ref = g.ref + 1;
        slots = g.slots ++ new_slot conns c ∷ [];
        lastaccess_time = now;
      }),
    )

abbrev pub same_account : Option ℕ → Option ℕ → Bool
same_account none none = true
same_account none (some b) = false
same_account (some a) none = false
same_account (some a) (some b) = a == b

abbrev pub is_some : Option ℕ → Bool
is_some none = false
is_some (some a) = true

-- The loop of `game_del_player`: the slots with the first connection of the account set to NULL.
unfoldable pub vacate : Option ℕ → List Slot → Option (List Slot)
vacate account [] = none
vacate account (s ∷ ss) =
    let rest = vacate account ss in
    if same_account s.player account && is_some s.connection
    then some (record s { connection = none } ∷ ss)
    else elim rest [ none ↦ none | some r ↦ some (s ∷ r) ]

-- How `game_del_player` ends: it returns -1, or it returns 0 and the game goes on, or it returns 0
-- and the game as it is given here has been reported and destroyed.
pub data Parted : Type 0 where
  refused : Parted
  goes_on : Game → Parted
  over : Game → Parted

unfoldable pub del_player : Conns → ℕ → Game → ℕ → Parted
del_player conns now g c = elim (vacate (conns.account c) g.slots) [
  | none ↦ refused
  | some slots ↦
      if ltb g.ref 2
      then over (record g { slots = slots })
      else goes_on
          (choose_host conns (record g { slots = slots; ref = g.ref - 1; lastaccess_time = now }))
]

abbrev pub is_started : GameStatus → Bool
is_started started = true
is_started _ = false

unfoldable pub set_status : ℕ → Game → GameStatus → Game
set_status now g status = record g {
  status = status;
  start_time = if is_started status && g.start_time == 0 then now else g.start_time;
}
