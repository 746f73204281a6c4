-- ===== src/Game/Registry.antt =====
-- The names and the ids of the games in the list.
use bnetd.Prelude.{
  ℕ, ◌<◌, ◌^◌, u32, ◌+◌, ◌≤◌, ◌≡◌, refl, Bool, true, false, ◌||◌, not, List, [], ◌∷◌, none, some,
  ◌==◌, if◌then◌else◌, arith, Option-cases, inl, inr,
}
use bnetd.Prelude.Text.{Text}
use bnetd.Util.Case.{same_name}
use bnetd.Game.{Game, GameType, all_types, opened}
use bnetd.Game.Games.{GameList, find_game, find_game_byid, create}

-- A name, or an id, is taken.
unfoldable pub named : List Game → Text → Bool
named [] name = false
named (g ∷ gs) name = same_name name g.name || named gs name

unfoldable pub numbered : List Game → ℕ → Bool
numbered [] id = false
numbered (g ∷ gs) id = g.id == id || numbered gs id

-- No two games have a name or an id in common.
abbrev pub AllUnique : List Game → Type 0
AllUnique [] = Unit
AllUnique (g ∷ gs) = (named gs g.name ≡ false) × (numbered gs g.id ≡ false) × AllUnique gs

abbrev pub AllBelow : ℕ → List Game → Type 0
AllBelow n [] = Unit
AllBelow n (g ∷ gs) = (g.id ≤ n) × AllBelow n gs

-- Ids have been drawn from the counter.
pub record IsRegistry (l : GameList) : Type 0 where
  pub unique : AllUnique l.games
  pub drawn : AllBelow l.totalcount l.games

find_game-named :
    (gs : List Game) (name : Text) → named gs name ≡ false → find_game gs name all_types ≡ none
unfolding find_game named
find_game-named [] name h = refl
find_game-named (g ∷ gs) name h = ground (arith, find_game-named gs name)

named-find_game :
    (gs : List Game) (name : Text) → find_game gs name all_types ≡ none → named gs name ≡ false
unfolding find_game named
named-find_game [] name h = refl
named-find_game (g ∷ gs) name h = ground (arith, named-find_game gs name)

numbered-AllBelow : (n : ℕ) (gs : List Game) → AllBelow n gs → numbered gs (n + 1) ≡ false
unfolding numbered
numbered-AllBelow n [] h = refl
numbered-AllBelow n (g ∷ gs) h = ground (arith, numbered-AllBelow n gs h.1)

below_later : (n m : ℕ) (gs : List Game) → n ≤ m → AllBelow n gs → AllBelow m gs
below_later n m [] le h = tt
below_later n m (g ∷ gs) le h = (omega arith, below_later n m gs le h.1)

u32_small : (n : ℕ) → n + 1 < 2 ^ 31 → u32 (n + 1) ≡ n + 1
u32_small n h = ground arith

-- What `game_create` makes of a list for a name that is free.
pub record IsCreated (l : GameList) (name : Text) (g : Game) (l' : GameList) : Type 0 where
  pub registry : IsRegistry l'
  pub fresh_id : g.id ≡ l.totalcount + 1
  pub by_name :
      (q : Text)
      → find_game l'.games q all_types
        ≡ (if same_name q name then some g else find_game l.games q all_types)
  pub by_id :
      (i : ℕ) → find_game_byid l'.games i ≡ (if g.id == i then some g else find_game_byid l.games i)

module _ (now : ℕ) (countasloss : Text → Bool) (l : GameList) (name pass info : Text)
    (type : GameType) (startver : ℕ) (clienttag : Text) where
  -- If the name is taken in some spelling, or memory is short, no game is created.
  pub create_taken :
      (mem inserted : Bool)
      → (named l.games name || not mem) ≡ true
      → create mem inserted now countasloss l name pass info type startver clienttag ≡ (none, l)
  unfolding create
  create_taken mem inserted h = elim (Option-cases (find_game l.games name all_types)) [
    | inl e ↦ rw (e, create) (ground (arith, named-find_game l.games name))
    | inr (g, e) ↦ rw (e, create)
  ]

  -- The game that is created.
  abbrev new_game : Game
  new_game = record {
    id = u32 (l.totalcount + 1);
    name = name;
    pass = pass;
    info = info;
    type = type;
    realm = 0;
    realmname = none;
    clienttag = clienttag;
    addr = 0;
    port = 0;
    startver = startver;
    status = opened;
    ref = 0;
    owner = none;
    slots = [];
    create_time = now;
    start_time = 0;
    lastaccess_time = now;
    bad = false;
    countasloss = countasloss info;
  }

  -- In a list where games differ in name and id, and while fewer than 2 ^ 31 - 1 ids have been
  -- drawn, with memory, a game is created under a name that no game has in any spelling, with a new id. It is
  -- found by every spelling of the name and by the id, where every other lookup is as before; and
  -- games still differ in name and id.
  pub create-IsCreated :
      IsRegistry l
      → l.totalcount + 1 < 2 ^ 31
      → named l.games name ≡ false
      → (g : Game) × (l' : GameList) × (create true true now countasloss l name pass info type
            startver clienttag
          ≡ (some g, l'))
        × IsCreated l name g l'
  unfolding create find_game find_game_byid
  create-IsCreated v few free =
      let id = u32_small l.totalcount few in
      let e = find_game-named l.games name free in
      (
        new_game,
        record { games = new_game ∷ l.games; totalcount = u32 (l.totalcount + 1) },
        rw (e, create) refl,
        record {
          registry = record {
            unique = (free, rw id (numbered-AllBelow l.totalcount l.games v.drawn), v.unique);
            drawn = (
              omega arith,
              below_later l.totalcount (u32 (l.totalcount + 1)) l.games (omega arith) v.drawn,
            );
          };
          fresh_id = id;
          by_name = λ q. refl;
          by_id = λ i. refl;
        },
      )
