-- ===== src/Game.antt =====
-- src/bnetd/game.c, built without WITH_BITS: games, their players and what they report.
-- A connection and an account are numbers (their pointers), NULL is `none` where it has a meaning.
-- The five arrays that grow together are one list of slots, and `count` is its length; NULL arrays
-- are the empty list. `time(NULL)` and the success of allocations are arguments. The numbers of
-- players and games stay below 2 ^ 32, since memory holds no more, and are not reduced.
pub mod Players
pub mod Results
pub mod Verdict
pub mod History
pub mod Presence
pub mod Report
pub mod Compaction
pub mod Credits
pub mod Personal
pub mod Reporting
pub mod Games
pub mod Registry
pub mod Sweep
mod Tests
use bnetd.Prelude.{ℕ, List, Option, Bool, true, false}
use bnetd.Prelude.Text.{Text}

-- `t_game_type`
pub data GameType : Type 0 where
  none_type all_types topvbot melee ffa oneonone ctf greed slaughter sdeath ladder ironman mapset
        teammelee teamffa teamctf pgl diablo diablo2open diablo2closed :
      GameType

-- `t_game_status`
pub data GameStatus : Type 0 where
  started full opened done : GameStatus

-- `t_game_result`
pub data GameResult : Type 0 where
  no_result win loss draw disconnect observer playing : GameResult

-- An entry of `connections`, `players`, `results`, `report_heads` and `report_bodies`.
pub record Slot : Type 0 where
  pub connection : Option ℕ
  pub player : Option ℕ
  pub result : GameResult
  pub report_head : Option Text
  pub report_body : Option Text

-- `countasloss` tells whether `option` is `game_option_ladder_countasloss`, the only value that is
-- looked at.
pub record Game : Type 0 where
  pub id : ℕ
  pub name : Text
  pub pass : Text
  pub info : Text
  pub type : GameType
  pub realm : ℕ
  pub realmname : Option Text
  pub clienttag : Text
  pub addr : ℕ
  pub port : ℕ
  pub startver : ℕ
  pub status : GameStatus
  pub ref : ℕ
  pub owner : Option ℕ
  pub slots : List Slot
  pub create_time : ℕ
  pub start_time : ℕ
  pub lastaccess_time : ℕ
  pub bad : Bool
  pub countasloss : Bool

-- What game.c asks of connection.c and account.c.
pub record Conns : Type 0 where
  pub account : ℕ → Option ℕ
  -- `account_get_normal_wins(conn_get_account(c),conn_get_clienttag(c))`
  pub normal_wins : ℕ → ℕ
  pub game_addr : ℕ → ℕ
  pub game_port : ℕ → ℕ

-- The return value of an operation: 0 or -1.
pub data Rc : Type 0 where
  ok fail : Rc
