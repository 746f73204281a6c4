-- ===== src/Lobby/Invariant.antt =====
-- What holds of the channels and connections of a server between two commands, and how leaving a
-- channel keeps it.
use bnetd.Prelude.{
  ℕ, ◌≤◌, ◌≡◌, refl, sym, ap, ◌∙◌, Bool, true, false, List, Option, none, some, if◌then◌else◌,
  arith, Bool-cases, Option-cases, inl, inr,
}
use bnetd.Channel.{Channel, World, is_conn}
use bnetd.Channel.Invariant.{contains}
use bnetd.Lobby.{Server, Env, find_channel_bychannelid, put_room, remove_room}
use bnetd.Lobby.Moves.{set_home, leave_room, leave_channel}
use bnetd.Lobby.Departure.{IsLeft, del_connection-IsLeft}
use bnetd.Lobby.Roster.{
  roster, has_id, AllListed, find-AllListed, find-roster, roster-find, has_id-put_room,
  AllListed-put_room, roster-put_room, AllListed-remove_room, roster-remove_room,
  has_id-remove_room,
}

-- Each channel is in order and in use, ids are distinct and were drawn from the counter, and a
-- connection is listed in its own channel and in no other.
pub record IsLobby (s : Server) : Type 0 where
  pub listed : AllListed s.rooms
  pub drawn : (id : ℕ) → has_id s.rooms id ≡ true → id ≤ s.totalcount
  pub homes : (c id : ℕ) → is_conn (s.world.home c) id ≡ roster s.rooms id c

-- The connection is in no channel, and no id was drawn.
pub record IsAway (c : ℕ) (s s' : Server) : Type 0 where
  pub lobby : IsLobby s'
  pub away : s'.world.home c ≡ none
  pub no_draw : s'.totalcount ≡ s.totalcount

home_of : (o : Option ℕ) (id : ℕ) → is_conn o id ≡ true → o ≡ some id
home_of none id h = ground arith
home_of (some d) id h = ground arith

has_less :
    (i : ℕ) (rooms : List Channel) (id : ℕ)
    → has_id (remove_room i rooms) id ≡ true
    → has_id rooms id ≡ true
has_less i rooms id h = elim (Bool-cases (has_id rooms id)) [
  | inl e ↦ e
  | inr e ↦ ground (arith, has_id-remove_room i rooms id e)
]

module _ (env : Env) (c : ℕ) (s : Server) (v : IsLobby s) (ch : Channel)
    (at : find_channel_bychannelid s.rooms ch.id ≡ some ch)
    (here : s.world.home c ≡ some ch.id) where
  abbrev after_leave : Channel → Bool → World → Server
  after_leave ch' gone w = record s {
    rooms = if gone then remove_room ch'.id s.rooms else put_room ch' s.rooms;
    world = set_home c none w;
  }

  where_listed : (q : ℕ) → is_conn (s.world.home q) ch.id ≡ contains q ch.memberlist
  where_listed q = v.homes q ch.id ∙ (find-roster s.rooms ch.id ch at).2 q

  removed-IsLobby :
      (ch' : Channel) (w : World)
      → IsLeft ch c s.world ch' true w
      → IsLobby (after_leave ch' true w)
  unfolding set_home
  removed-IsLobby ch' w l = record {
    listed = AllListed-remove_room ch'.id s.rooms v.listed;
    drawn = λ id h. v.drawn id (has_less ch'.id s.rooms id h);
    homes = λ q id. ground (
      arith,
      roster-remove_room ch'.id s.rooms id q v.listed,
      v.homes q id,
      v.homes c id,
      where_listed q,
      l.members q,
      l.destroyed,
      l.id,
      l.homes,
    );
  }

  stays-IsLobby :
      (ch' : Channel) (w : World)
      → IsLeft ch c s.world ch' false w
      → IsLobby (after_leave ch' false w)
  unfolding set_home
  stays-IsLobby ch' w l =
      let known = ap (has_id s.rooms) l.id ∙ (find-roster s.rooms ch.id ch at).1 in
      record {
        listed =
            AllListed-put_room ch' s.rooms (record { room = l.room; in_use = sym l.destroyed })
              v.listed;
        drawn = λ id h. v.drawn id (sym (has_id-put_room ch' s.rooms id) ∙ h);
        homes = λ q id. ground (
          arith,
          roster-put_room ch' s.rooms id q known,
          v.homes q id,
          v.homes c id,
          where_listed q,
          l.members q,
          l.id,
          l.homes,
        );
      }

  left_behind :
      (ch' : Channel) (gone : Bool) (w : World)
      → IsLeft ch c s.world ch' gone w
      → IsLobby (after_leave ch' gone w)
  left_behind ch' true w l = removed-IsLobby ch' w l
  left_behind ch' false w l = stays-IsLobby ch' w l

  now_away :
      (ch' : Channel) (gone : Bool) (w : World) → (after_leave ch' gone w).world.home c ≡ none
  unfolding set_home
  now_away ch' gone w = ground arith

  leave_room-IsAway : (s' : Server) × (leave_room env c ch s ≡ some s') × IsAway c s s'
  unfolding leave_room
  leave_room-IsAway =
      let listed = find-AllListed s.rooms ch.id ch v.listed at in
      let (ch', gone, w, run, left) =
        del_connection-IsLeft env.users c ch s.world listed.room
          (λ m h. home_of (s.world.home m) ch.id (where_listed m ∙ h))
          (sym (where_listed c) ∙ ground (arith, here)) in
      (
        after_leave ch' gone w,
        rw (run, leave_room) refl,
        record { lobby = left_behind ch' gone w left; away = now_away ch' gone w; no_draw = refl },
      )

-- A connection leaves its channel, if it is in one, and all is in order.
pub leave_channel-IsAway :
    (env : Env) (c : ℕ) (s : Server)
    → IsLobby s
    → (s' : Server) × (leave_channel env c s ≡ some s') × IsAway c s s'
unfolding leave_channel
leave_channel-IsAway env c s v = elim (Option-cases (s.world.home c)) [
  | inl e ↦ (s, rw (e, leave_channel) refl, record { lobby = v; away = e; no_draw = refl })
  | inr (id, e) ↦
      let member : roster s.rooms id c ≡ true = ground (arith, v.homes c id) in
      let (ch, f) = roster-find s.rooms id c member in
      let same = (find-roster s.rooms id ch f).0 in
      let (s', run, away) =
        leave_room-IsAway env c s v ch (ap (find_channel_bychannelid s.rooms) same ∙ f)
          (e ∙ ap some (sym same)) in
      (s', rw (e, f, leave_channel) run, away)
]
