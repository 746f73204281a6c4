-- ===== src/Lobby/Tests.antt =====
-- A server with the one permanent channel, and what some connections do there.
use bnetd.Prelude.{◌≡◌, refl, true, false, List, [], ◌∷◌, none, some, ◌==◌, arith}
use bnetd.Prelude.Text.{codes}
use bnetd.Channel.{Channel, Users, Rc}
use bnetd.Channel.Bans.{the_void}
use bnetd.Lobby.{Server, Env}
use bnetd.Lobby.Moves.{set_channel}
use bnetd.Lobby.Commands.{join, kick, rejoin, depart}
use bnetd.Lobby.Roster.{roster, has_id}
use bnetd.Lobby.Invariant.{IsLobby}
use bnetd.Lobby.Entering.{IsMoved, set_channel-IsMoved}
use bnetd.Lobby.Play.{Call, play, play-IsLobby}

abbrev users : Users
users = record {
  has_account = λ c. true;
  auth_operator = λ c name. c == 5;
  auth_operator_any = λ c. false;
  log_notice = codes "This session is logged.";
  is_bot = λ c. false;
  conn_match = λ c name. c == 6;
  ignoring = λ c me. false;
  delivers = λ type from to. true;
}

abbrev env : Env
env = record {
  users = users;
  mem = true;
  country = λ c. none;
  realmname = λ c. none;
  username = λ c. codes "guest";
  chanlog = false;
  admin = λ c. c == 5;
  find_connection = λ name. some 6;
  admin_account = λ name. none;
}

abbrev void_room : Channel
void_room = record {
  id = 1;
  name = the_void;
  shortname = none;
  country = none;
  realmname = none;
  permanent = true;
  allowbots = true;
  allowopers = false;
  public = true;
  system = false;
  maxmembers = none;
  currmembers = 0;
  clienttag = none;
  memberlist = [];
  banlist = [];
  opr = none;
  next_opr = none;
  log = false;
}

abbrev start : Server
start = record {
  rooms = void_room ∷ [];
  totalcount = 1;
  world = record { home = λ c. none; gavel = λ c. false; out = [] };
  game_of = λ c. none;
  game_exits = [];
  welcomed = λ c. false;
}

start-IsLobby : IsLobby start
unfolding roster has_id
start-IsLobby = record {
  listed = (
    record {
      room = record {
        counted = refl;
        distinct = tt;
        among = record { opr_in = λ o e. ground arith; next_in = λ n e. ground arith };
      };
      in_use = refl;
    },
    refl,
    tt,
  );
  drawn = λ id h. ground arith;
  homes = λ c id. ground arith;
}

abbrev calls : List Call
calls =
    record { env = env; by = 5; command = join (codes "/join Chat") }
    ∷ record { env = env; by = 6; command = join (codes "/join chat") }
    ∷ record { env = env; by = 5; command = kick (codes "/kick six bye") }
    ∷ record { env = env; by = 5; command = rejoin }
    ∷ record { env = env; by = 5; command = depart }
    ∷ []

play-IsLobby_example : (s' : Server) × (play calls start ≡ some s') × IsLobby s'
play-IsLobby_example = play-IsLobby calls start start-IsLobby (omega arith)

set_channel-IsMoved_example :
    (r : Rc × Server) × (set_channel env 6 (some (codes "Chat")) start ≡ some r) × IsMoved 6 start r
set_channel-IsMoved_example =
    set_channel-IsMoved env 6 (some (codes "Chat")) start start-IsLobby (omega arith)
