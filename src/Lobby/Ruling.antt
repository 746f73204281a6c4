-- ===== src/Lobby/Ruling.antt =====
-- The commands that act on one channel keep a server in order.
use bnetd.Prelude.{
  ℕ, ◌≡◌, refl, sym, ap, ◌∙◌, true, List, [], ◌∷◌, none, some, ◌++◌, arith, Bool-cases,
  Option-cases, inl, inr,
}
use bnetd.Prelude.Text.{Text}
use bnetd.Channel.{Channel, World, Rc, MessageType, is_conn, send, info, ok, fail}
use bnetd.Channel.Operator.{set_next_operator}
use bnetd.Channel.Quiet.{message_send_quiet}
use bnetd.Channel.Bans.{ban_user, unban_user, unban_loop, listed, the_void}
use bnetd.Util.Case.{same_name}
use bnetd.Channel.Invariant.{contains}
use bnetd.Lobby.{Server, Env, find_channel_bychannelid, put_room}
use bnetd.Lobby.Commands.{
  say, tell, designate_in, resign_in, unban_in, may_rule, designated, resigned, unbanned,
}
use bnetd.Lobby.Roles.{AreAmong, SameRoom, choose_operator_room, choose_operator-AreAmong}
use bnetd.Lobby.Departure.{IsRoom, same-IsRoom}
use bnetd.Lobby.Roster.{
  has_id, find-AllListed, find-roster, has_id-put_room, AllListed-put_room, roster-put_room,
}
use bnetd.Lobby.Invariant.{IsLobby}

pub say-IsLobby :
    (type : MessageType) (c : ℕ) (text : Text) (s : Server)
    → IsLobby s
    → IsLobby (say type c text s)
unfolding say send
say-IsLobby type c text s v = record { listed = v.listed; drawn = v.drawn; homes = v.homes }

pub tell-IsLobby :
    (env : Env) (c : ℕ) (text : Text) (ch : Channel) (s : Server)
    → IsLobby s
    → IsLobby (tell env c text ch s)
unfolding tell
tell-IsLobby env c text ch s v =
    let quiet = message_send_quiet env.users info c text ch s.world in
    record {
      listed = v.listed;
      drawn = v.drawn;
      homes = λ q id. ap (λ f. is_conn (f q) id) quiet.1 ∙ v.homes q id;
    }

-- The channel that a pointer stands for, with new roles or a new ban list.
module _ (s : Server) (v : IsLobby s) (ch : Channel)
    (at : find_channel_bychannelid s.rooms ch.id ≡ some ch) where
  pub the_room : IsRoom ch
  the_room = (find-AllListed s.rooms ch.id ch v.listed at).room

  pub at_home : (q : ℕ) → contains q ch.memberlist ≡ is_conn (s.world.home q) ch.id
  at_home q = sym (v.homes q ch.id ∙ (find-roster s.rooms ch.id ch at).2 q)

  pub replaced-IsLobby :
      (ch' : Channel) (w : World)
      → SameRoom ch ch'
      → AreAmong ch.memberlist ch'
      → w.home ≡ s.world.home
      → IsLobby (record s { rooms = put_room ch' s.rooms; world = w })
  replaced-IsLobby ch' w same among home =
      let listed = find-AllListed s.rooms ch.id ch v.listed at in
      let found = find-roster s.rooms ch.id ch at in
      let known = ap (has_id s.rooms) same.0 ∙ found.1 in
      record {
        listed =
            AllListed-put_room ch' s.rooms
              (record {
                room = same-IsRoom ch ch' listed.room.counted listed.room.distinct same among;
                in_use = ground (arith, listed.in_use, same.1, same.3);
              })
              v.listed;
        drawn = λ id h. v.drawn id (sym (has_id-put_room ch' s.rooms id) ∙ h);
        homes = λ q id. ground (
          arith,
          roster-put_room ch' s.rooms id q known,
          v.homes q id,
          found.2 q,
          same.0,
          ap (contains q) same.1,
          home,
        );
      }

-- All is in order, and no id was drawn.
abbrev pub IsSteady : Server → Server → Type 0
IsSteady s s' = IsLobby s' × (s'.totalcount ≡ s.totalcount)

module _ (env : Env) (c : ℕ) (s : Server) (v : IsLobby s) (ch : Channel)
    (at : find_channel_bychannelid s.rooms ch.id ≡ some ch) where
  said :
      (type : MessageType) (text : Text) (s' : Server)
      → IsLobby s'
      → IsSteady s' (say type c text s')
  unfolding say send
  said type text s' v' = (say-IsLobby type c text s' v', refl)

  designated_room :
      (noc : ℕ)
      → contains noc ch.memberlist ≡ true
      → SameRoom ch (set_next_operator ch (some noc)).1
        × AreAmong ch.memberlist (set_next_operator ch (some noc)).1
  unfolding set_next_operator
  designated_room noc member = (
    ground arith,
    record {
      opr_in = λ o e. ground (arith, (the_room s v ch at).among.opr_in o);
      next_in = λ n e. ground (arith, (the_room s v ch at).among.next_in n);
    },
  )

  designated-IsSteady :
      (noc : ℕ) (rc : Rc) (ch' : Channel)
      → SameRoom ch ch' × AreAmong ch.memberlist ch'
      → IsSteady s (designated env c noc rc ch' s)
  unfolding designated
  designated-IsSteady noc fail ch' room = said _ _ s v
  designated-IsSteady noc ok ch' room =
      said _ _ _ (replaced-IsLobby s v ch at ch' s.world room.0 room.1 refl)

  pub designate_in-IsSteady : (name : Text) → IsSteady s (designate_in env c name s ch)
  unfolding designate_in
  designate_in-IsSteady name = elim (Bool-cases (may_rule env c ch)) [
    | inr e ↦ rw e (said _ _ s v)
    | inl e ↦ elim (Option-cases (env.find_connection name)) [
      | inl f ↦ rw (e, f) (said _ _ s v)
      | inr (noc, f) ↦ elim (Bool-cases (is_conn (s.world.home noc) ch.id)) [
        | inr g ↦ rw (e, f, g) (said _ _ s v)
        | inl g ↦
            rw (e, f, g)
              (designated-IsSteady noc _ _ (designated_room noc (at_home s v ch at noc ∙ g)))
      ]
    ]
  ]

  resigned-IsSteady : (rc : Rc) (s' : Server) → IsLobby s' → IsSteady s' (resigned c rc s')
  unfolding resigned
  resigned-IsSteady ok s' v' = said _ _ s' v'
  resigned-IsSteady fail s' v' = said _ _ s' v'

  pub resign_in-IsSteady : IsSteady s (resign_in env c s ch)
  unfolding resign_in
  resign_in-IsSteady =
      let room = choose_operator_room env.users ch none s.world in
      let among = choose_operator-AreAmong env.users ch none s.world (the_room s v ch at).among in
      elim (Bool-cases (is_conn ch.opr c)) [
        | inr e ↦ rw e (said _ _ s v)
        | inl e ↦ rw e (resigned-IsSteady _ _ (replaced-IsLobby s v ch at _ _ room.0 among room.1))
      ]

  -- A change of the ban list leaves the rest.
  with_bans :
      (bans : List Text)
      → SameRoom ch (record ch { banlist = bans })
        × AreAmong ch.memberlist (record ch { banlist = bans })
  with_bans bans =
      let among = (the_room s v ch at).among in
      ((refl, refl, refl, refl), record { opr_in = among.opr_in; next_in = among.next_in })

  banned_room :
      (user : Text)
      → SameRoom ch (ban_user env.mem ch user).1
        × AreAmong ch.memberlist (ban_user env.mem ch user).1
  unfolding ban_user
  banned_room user = elim (Bool-cases (same_name ch.name the_void)) [
    | inl e ↦ rw e (with_bans ch.banlist)
    | inr e ↦ elim (Bool-cases (listed ch.banlist user)) [
      | inl f ↦ rw (e, f) (with_bans ch.banlist)
      | inr f ↦ elim (Bool-cases env.mem) [
        | inl g ↦ rw (e, f, g) (with_bans (ch.banlist ++ user ∷ []))
        | inr g ↦ rw (e, f, g) (with_bans ch.banlist)
      ]
    ]
  ]

  pub banned-IsLobby :
      (user : Text) → IsLobby (record s { rooms = put_room (ban_user env.mem ch user).1 s.rooms })
  banned-IsLobby user =
      let room = banned_room user in
      replaced-IsLobby s v ch at (ban_user env.mem ch user).1 s.world room.0 room.1 refl

  pub unban_in-IsSteady : (args : Text) → IsSteady s (unban_in env c args s ch)
  unfolding unban_in unban_user unbanned
  unban_in-IsSteady args = elim (Bool-cases (may_rule env c ch)) [
    | inr e ↦ rw e (said _ _ s v)
    | inl e ↦ elim (Option-cases (unban_loop ch.banlist args)) [
      | inl f ↦ rw (e, f, unban_user) (said _ _ s v)
      | inr (bans, f) ↦
          let room = with_bans bans in
          rw (e, f, unban_user)
            (said _ _ _ (
              replaced-IsLobby s v ch at (record ch { banlist = bans }) s.world room.0 room.1 refl))
    ]
  ]
