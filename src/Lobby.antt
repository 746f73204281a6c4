-- ===== src/Lobby.antt =====
-- The list of channels of src/bnetd/channel.c and what src/bnetd/connection.c and
-- src/bnetd/command.c do with it, built without WITH_BITS. A channel's pointer is its id: an id
-- that no channel of the list has is a dangling pointer, and its use is `none` as the outcome.
-- `logname` and `log` are one field, so the log file can be opened; it is not modelled.
pub mod Moves
pub mod Commands
pub mod Roles
pub mod Departure
pub mod Roster
pub mod Invariant
pub mod Arrival
pub mod Lookup
pub mod Entering
pub mod Ruling
pub mod Reach
pub mod Play
mod Tests
use bnetd.Prelude.{
  ℕ, suc, ◌+◌, Bool, true, false, ◌&&◌, ◌||◌, not, List, [], ◌∷◌, ◌++◌, Option, none, some, ◌==◌,
  ltb, u32, if◌then◌else◌,
}
use bnetd.Prelude.Text.{Text, codes}
use bnetd.Util.Case.{same_name, same_bytes}
use bnetd.Util.Print.{decimal}
use bnetd.Channel.{Channel, World, Users, Rc, ok, fail}
use bnetd.Channel.Members.{is_empty}

-- `channellist_head` and `totalcount`; of connections, `conn->game` and `conn->welcomed`; and the
-- calls of `game_del_player`, by game and connection, in their order.
pub record Server : Type 0 where
  pub rooms : List Channel
  pub totalcount : ℕ
  pub world : World
  pub game_of : ℕ → Option ℕ
  pub game_exits : List (ℕ × ℕ)
  pub welcomed : ℕ → Bool

-- What is asked of connections, accounts and the configuration. `mem` tells whether allocations
-- succeed: in a command either all of them do or the first one fails.
pub record Env : Type 0 where
  pub users : Users
  pub mem : Bool
  -- `conn_get_country`, `conn_get_realmname` and `account_get_name(conn_get_account(c))`
  pub country : ℕ → Option Text
  pub realmname : ℕ → Option Text
  pub username : ℕ → Text
  -- `prefs_get_chanlog()`
  pub chanlog : Bool
  -- `account_get_auth_admin(conn_get_account(c))==1`
  pub admin : ℕ → Bool
  -- `connlist_find_connection`
  pub find_connection : Text → Option ℕ
  -- `account_get_auth_admin(accountlist_find_account(name))==1`, if there is such an account
  pub admin_account : Text → Option Bool

-- The arguments of `channel_create`.
pub record Form : Type 0 where
  pub fullname : Text
  pub shortname : Option Text
  pub clienttag : Option Text
  pub permanent : Bool
  pub allowbots : Bool
  pub allowopers : Bool
  pub log : Bool
  pub country : Option Text
  pub realmname : Option Text
  pub maxmembers : Option ℕ

unfoldable pub find_channel_by_fullname : List Channel → Text → Option Channel
find_channel_by_fullname [] name = none
find_channel_by_fullname (ch ∷ rs) name =
    if same_name ch.name name then some ch else find_channel_by_fullname rs name

unfoldable pub find_channel_bychannelid : List Channel → ℕ → Option Channel
find_channel_bychannelid [] id = none
find_channel_bychannelid (ch ∷ rs) id =
    if ch.id == id then some ch else find_channel_bychannelid rs id

abbrev pub is_nothing : Text → Bool
is_nothing [] = true
is_nothing (c ∷ s) = false

abbrev pub is_bad_shortname : Option Text → Bool
is_bad_shortname none = false
is_bad_shortname (some s) = is_nothing s

abbrev pub has_four : Text → Bool
has_four (a ∷ b ∷ c ∷ d ∷ []) = true
has_four _ = false

abbrev pub is_bad_clienttag : Option Text → Bool
is_bad_clienttag none = false
is_bad_clienttag (some t) = not (has_four t)

abbrev pub is_given {ℓ} : {A : Type ℓ} → Option A → Bool
is_given none = false
is_given (some a) = true

-- `totalcount++`, and 1 if that is 0. It is an int, whose overflow is taken to wrap around, as the
-- code does.
unfoldable pub next_id : ℕ → ℕ
next_id totalcount = let n = u32 (totalcount + 1) in if n == 0 then 1 else n

-- The channel that is made, with its id.
unfoldable pub new_channel : Form → ℕ → Channel
new_channel form id = record {
  id = id;
  name = form.fullname;
  shortname = form.shortname;
  country = form.country;
  realmname = form.realmname;
  permanent = form.permanent;
  allowbots = form.allowbots;
  allowopers = form.allowopers;
  public = form.permanent;
  system = form.permanent && (is_given form.clienttag && is_given form.maxmembers);
  maxmembers = form.maxmembers;
  currmembers = 0;
  clienttag = form.clienttag;
  memberlist = [];
  banlist = [];
  opr = none;
  next_opr = none;
  log = form.log;
}

-- The early returns of `channel_create`.
unfoldable pub refuses : Form → List Channel → Bool
refuses form rooms =
    is_nothing form.fullname
    || (is_bad_shortname form.shortname
        || (is_bad_clienttag form.clienttag
            || form.permanent && is_given (find_channel_by_fullname rooms form.fullname)))

-- Its later failures, when the id is drawn already, are those of an allocation that follows others
-- that succeeded, and do not occur (see `mem`).
unfoldable pub create : Bool → Form → Server → Option Channel × Server
create mem form s =
    if refuses form s.rooms || not mem
    then (none, s)
    else (let ch = new_channel form (next_id s.totalcount) in
        (some ch, record s { rooms = ch ∷ s.rooms; totalcount = next_id s.totalcount }))

-- Writes through a channel's pointer, and its removal from the list.
unfoldable pub put_room : Channel → List Channel → List Channel
put_room ch [] = []
put_room ch (r ∷ rs) = if r.id == ch.id then ch ∷ rs else r ∷ put_room ch rs

unfoldable pub remove_room : ℕ → List Channel → List Channel
remove_room id [] = []
remove_room id (r ∷ rs) = if r.id == id then rs else r ∷ remove_room id rs

unfoldable pub channel_destroy : Channel → List Channel → Rc × List Channel
channel_destroy ch rooms =
    if is_empty ch.memberlist
    then (ok, remove_room ch.id rooms)
    else (fail, put_room (record ch { permanent = false }) rooms)

-- `%s%s%s%s%s-%d` with the realm, a blank, the short name, a blank and the country.
unfoldable pub format_name : Text → Option Text → Option Text → ℕ → Text
format_name sname country realmname id =
    (elim realmname [ none ↦ [] | some r ↦ r ++ codes " " ])
    ++ (sname
        ++ ((elim country [ none ↦ [] | some k ↦ codes " " ++ k ]) ++ (codes "-" ++ decimal id)))

-- What the loop of `channellist_find_channel_by_name` comes to: a channel to enter, or the number
-- of full copies and the arguments for another one, or nothing.
pub data Search : Type 0 where
  hit : Channel → Search
  full : ℕ → Form → Search
  missing : Search

abbrev pub same_option : Option Text → Option Text → Bool
same_option none none = true
same_option none (some b) = false
same_option (some a) none = false
same_option (some a) (some b) = same_bytes a b

abbrev pub first_given : Option Text → Option Text → Option Text
first_given none b = b
first_given (some a) b = some a

abbrev pub goes_by : Channel → Text → Bool
goes_by ch name = elim ch.shortname [ none ↦ false | some s ↦ same_name s name ]

abbrev pub has_room : Channel → Bool
has_room ch = elim ch.maxmembers [ none ↦ true | some n ↦ ltb ch.currmembers n ]

-- What is done after the loop.
unfoldable pub from_search : Bool → Server → Search → Option Channel × Server
from_search mem s (hit ch) = (some ch, s)
from_search mem s missing = (none, s)
from_search mem s (full n form) =
    if mem
    then create mem
        (record form {
          fullname =
              format_name (elim form.shortname [ none ↦ [] | some x ↦ x ]) form.country
                form.realmname (n + 1);
        })
        s
    else (none, s)

module _ (name : Text) (country realmname : Option Text) where
  abbrev pub is_local : Channel → Bool
  is_local ch = same_option ch.country country && same_option ch.realmname realmname

  -- What is saved off a channel; the name is given later.
  unfoldable pub saved_from : Channel → Form
  saved_from ch = record {
    fullname = [];
    shortname = ch.shortname;
    clienttag = ch.clienttag;
    permanent = true;
    allowbots = ch.allowbots;
    allowopers = ch.allowopers;
    log = ch.log;
    country = first_given country ch.country;
    realmname = first_given realmname ch.realmname;
    maxmembers = ch.maxmembers;
  }

  unfoldable pub search_loop : List Channel → ℕ → Option Form → Search
  search_loop [] maxchannel none = missing
  search_loop [] maxchannel (some form) = full maxchannel form
  search_loop (ch ∷ rs) maxchannel saved =
      let rest =
        search_loop rs (if goes_by ch name && is_local ch then maxchannel + 1 else maxchannel)
          (if goes_by ch name then some (saved_from ch) else saved) in
      if same_name ch.name name || goes_by ch name && (is_local ch && has_room ch)
      then hit ch
      else rest

  unfoldable pub find_channel_by_name : Bool → Server → Option Channel × Server
  find_channel_by_name mem s = from_search mem s (search_loop s.rooms 0 none)
