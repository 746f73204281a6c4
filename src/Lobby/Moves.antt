-- ===== src/Lobby/Moves.antt =====
-- `conn_set_channel` of src/bnetd/connection.c. The message of the day that `conn_send_welcome`
-- sends is a file's and is left out.
use bnetd.Prelude.{ℕ, Bool, true, false, [], ◌∷◌, ◌++◌, Option, none, some, if◌then◌else◌, ◌>>=◌}
use bnetd.Prelude.Text.{Text}
use bnetd.Channel.{Channel, World, Rc, ok, fail, update}
use bnetd.Channel.Members.{add_connection, del_connection, crash, returned}
use bnetd.Lobby.{
  Server, Env, Form, find_channel_bychannelid, create, put_room, remove_room, channel_destroy,
  find_channel_by_name,
}

unfoldable pub set_home : ℕ → Option ℕ → World → World
set_home c home w = record w { home = update w.home c home }

-- `if (c->channel)`
unfoldable pub leave_room : Env → ℕ → Channel → Server → Option Server
leave_room env c ch s = elim (del_connection env.users ch c s.world) [
  | crash ↦ none
  | returned rc ch' gone w ↦ some (record s {
    rooms = if gone then remove_room ch'.id s.rooms else put_room ch' s.rooms;
    world = set_home c none w;
  })
]

unfoldable pub leave_channel : Env → ℕ → Server → Option Server
leave_channel env c s = elim (s.world.home c) [
  | none ↦ some s
  | some id ↦ do ch ← find_channel_bychannelid s.rooms id; leave_room env c ch s
]

-- `if (c->game)`
unfoldable pub leave_game : ℕ → Server → Server
leave_game c s = elim (s.game_of c) [
  | none ↦ s
  | some g ↦ record s {
    game_of = update s.game_of c none;
    game_exits = s.game_exits ++ (g, c) ∷ [];
  }
]

-- What `conn_set_channel` gives to `channel_create`.
unfoldable pub private_room : Env → Text → Form
private_room env name = record {
  fullname = name;
  shortname = some name;
  clienttag = none;
  permanent = false;
  allowbots = true;
  allowopers = true;
  log = env.chanlog;
  country = none;
  realmname = none;
  maxmembers = none;
}

-- What is made of the outcome of `channel_add_connection`.
unfoldable pub entry : Bool → ℕ → Channel → Server → Rc → Channel → World → Rc × Server
entry created c ch s ok ch' w =
    (ok, record s { rooms = put_room ch' s.rooms; world = w; welcomed = update s.welcomed c true })
entry created c ch s fail ch' w = (
  fail,
  record s {
    rooms = if created then (channel_destroy ch s.rooms).1 else s.rooms;
    world = set_home c none w;
  },
)

-- `c->channel` is set to `ch` before.
unfoldable pub admit : Env → Bool → ℕ → Channel → Server → Rc × Server
admit env created c ch s =
    let (rc, ch', w) = add_connection env.users env.mem ch c (set_home c (some ch.id) s.world) in
    entry created c ch s rc ch' w

-- The channel that was made for the connection, if it was.
unfoldable pub admit_made : Env → ℕ → Option Channel × Server → Rc × Server
admit_made env c (none, s) = (fail, s)
admit_made env c (some ch, s) = admit env true c ch s

-- The channel that was found, if there is one.
unfoldable pub admit_found : Env → ℕ → Text → Option Channel × Server → Rc × Server
admit_found env c name (some ch, s) = admit env false c ch s
admit_found env c name (none, s) = admit_made env c (create env.mem (private_room env name) s)

unfoldable pub enter_channel : Env → ℕ → Text → Server → Rc × Server
enter_channel env c name s =
    admit_found env c name (find_channel_by_name name (env.country c) (env.realmname c) env.mem s)

unfoldable pub set_channel : Env → ℕ → Option Text → Server → Option (Rc × Server)
set_channel env c channelname s = do
  left ← leave_channel env c s
  elim channelname [
    | none ↦ some (ok, left)
    | some name ↦ some (enter_channel env c name (leave_game c left))
  ]
