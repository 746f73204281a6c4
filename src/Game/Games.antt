-- ===== src/Game/Games.antt =====
-- The list of games: `game_create`, `game_destroy`, `gamelist_find_game`, `gamelist_find_game_byid`
-- and `gamelist_check_voidgame`. A game's pointer is its id.
use bnetd.Prelude.{
  ℕ, zero, suc, ◌+◌, ◌-◌, u32, length, map, Bool, true, false, ◌&&◌, not, List, [], ◌∷◌, Option,
  none, some, ◌==◌, ltb, if◌then◌else◌,
}
use bnetd.Prelude.Text.{Text}
use bnetd.Util.Case.{same_name}
use bnetd.Game.{Game, GameType, all_types, opened}

-- `gamelist_head` and `totalcount`
pub record GameList : Type 0 where
  pub games : List Game
  pub totalcount : ℕ

-- `t_game_type` as a number, by which types are compared.
unfoldable pub type_number : GameType → ℕ
type_number GameType.none_type = 0
type_number all_types = 1
type_number GameType.topvbot = 2
type_number GameType.melee = 3
type_number GameType.ffa = 4
type_number GameType.oneonone = 5
type_number GameType.ctf = 6
type_number GameType.greed = 7
type_number GameType.slaughter = 8
type_number GameType.sdeath = 9
type_number GameType.ladder = 10
type_number GameType.ironman = 11
type_number GameType.mapset = 12
type_number GameType.teammelee = 13
type_number GameType.teamffa = 14
type_number GameType.teamctf = 15
type_number GameType.pgl = 16
type_number GameType.diablo = 17
type_number GameType.diablo2open = 18
type_number GameType.diablo2closed = 19

abbrev pub fits_type : GameType → GameType → Bool
fits_type all_types t = true
fits_type type t = type_number t == type_number type

unfoldable pub find_game : List Game → Text → GameType → Option Game
find_game [] name type = none
find_game (g ∷ gs) name type =
    if fits_type type g.type && same_name name g.name then some g else find_game gs name type

unfoldable pub find_game_byid : List Game → ℕ → Option Game
find_game_byid [] id = none
find_game_byid (g ∷ gs) id = if g.id == id then some g else find_game_byid gs id

-- The memory for the game is there if `mem` holds, and that for its element in the list if
-- `inserted` does; the id is drawn in between. `countasloss` is what `game_parse_info` finds in
-- `info`, of the fields that the model has.
unfoldable pub create :
    (mem inserted : Bool)
    → ℕ
    → (Text → Bool)
    → GameList
    → Text
    → Text
    → Text
    → GameType
    → ℕ
    → Text
    → Option Game × GameList
create mem inserted now countasloss l name pass info type startver clienttag =
    elim (find_game l.games name all_types) [
      | some g ↦ (none, l)
      | none ↦
          if not mem
          then (none, l)
          else (let drawn = u32 (l.totalcount + 1) in
              let game : Game = record {
                id = drawn;
                name = name;
                pass = pass;
                info = info;
                type = type;
                realm = 0;
                realmname = none;
                clienttag = clienttag;
                addr = 0;
                port = 0;
                startver = startver;
                status = opened;
                ref = 0;
                owner = none;
                slots = [];
                create_time = now;
                start_time = 0;
                lastaccess_time = now;
                bad = false;
                countasloss = countasloss info;
              } in
              if inserted
              then (some game, record { games = game ∷ l.games; totalcount = drawn })
              else (none, record l { totalcount = drawn }))
    ]

-- The elements of the list while it is traversed: `list_remove_data` marks the first element of the
-- game (`none`), and a marked element stays in its place.
unfoldable pub destroy : ℕ → List (Option Game) → List (Option Game)
destroy id [] = []
destroy id (none ∷ cs) = none ∷ destroy id cs
destroy id (some g ∷ cs) = if g.id == id then none ∷ cs else some g ∷ destroy id cs

-- `realm` set, nobody in it, and not accessed for more than MAX_GAME_EMPTY_TIME seconds
unfoldable pub is_void : ℕ → Game → Bool
is_void now g = not (g.realm == 0) && (ltb g.ref 1 && ltb 300 (now - g.lastaccess_time))

-- The element at a position, if it is not marked.
unfoldable pub element : ℕ → List (Option Game) → Option Game
element i [] = none
element zero (c ∷ cs) = c
element (suc i) (c ∷ cs) = element i cs

-- One round of the loop.
unfoldable pub visit : ℕ → Option Game → List (Option Game) → List (Option Game)
visit now none cs = cs
visit now (some g) cs = if is_void now g then destroy g.id cs else cs

-- The traversal from a position on, of the list as the rounds before have left it; each round moves
-- on by one element, and those that are marked are passed over.
unfoldable pub check_loop : ℕ → (left i : ℕ) → List (Option Game) → List (Option Game)
check_loop now zero i cs = cs
check_loop now (suc left) i cs = check_loop now left (i + 1) (visit now (element i cs) cs)

-- The games of the elements that are not marked.
unfoldable pub games_of : List (Option Game) → List Game
games_of [] = []
games_of (none ∷ cs) = games_of cs
games_of (some g ∷ cs) = g ∷ games_of cs

unfoldable pub check_voidgame : ℕ → GameList → GameList
check_voidgame now l = record l {
  games = games_of (check_loop now (length l.games) 0 (map some l.games));
}
