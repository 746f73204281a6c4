-- ===== src/Lobby/Reach.antt =====
-- What a command on channels leaves, and any run of such commands.
use bnetd.Prelude.{
  ℕ, ◌+◌, ◌≤◌, ◌<◌, ◌^◌, ◌≡◌, refl, ap, ◌∙◌, Bool, true, false, Option, none, some, if◌then◌else◌,
  ◌>>=◌, arith, Bool-cases, Option-cases, inl, inr,
}
use bnetd.Prelude.Text.{Text}
use bnetd.Channel.{Channel, Rc, MessageType, is_conn, send, ok, fail}
use bnetd.Channel.Bans.{ban_user, the_void}
use bnetd.Lobby.{Server, Env, find_channel_bychannelid, put_room, is_nothing}
use bnetd.Lobby.Moves.{set_channel}
use bnetd.Lobby.Commands.{
  say, tell, may_rule, arguments, dest, in_channel, set_channel_or_void, join_command,
  rejoin_command, designate_command, resign_command, kick_in, kick_command, announce_ban, expel,
  ban_known, ban_in, ban_command, unban_command, Command, join, designate, kick, ban, unban, rejoin,
  resign, depart, run,
}
use bnetd.Lobby.Roster.{find-roster, roster-find}
use bnetd.Lobby.Invariant.{IsLobby}
use bnetd.Lobby.Entering.{set_channel-IsMoved}
use bnetd.Lobby.Ruling.{
  IsSteady, say-IsLobby, tell-IsLobby, designate_in-IsSteady, resign_in-IsSteady, banned-IsLobby,
  unban_in-IsSteady,
}

-- A server results, it is in order, and at most two ids were drawn.
abbrev pub IsKept : ℕ → Option Server → Type 0
IsKept n o = (s : Server) × (o ≡ some s) × IsLobby s × (s.totalcount ≤ n + 2)

module _ (env : Env) (c : ℕ) where
  steady : (s s' : Server) → IsSteady s s' → IsKept s.totalcount (some s')
  steady s s' v = (s', refl, v.0, omega (arith, v.1))

  said :
      (type : MessageType) (text : Text) (s : Server)
      → IsLobby s
      → IsKept s.totalcount (some (say type c text s))
  unfolding say send
  said type text s v = steady s (say type c text s) (say-IsLobby type c text s v, refl)

  -- The channel of a connection is there.
  in_channel-IsKept :
      (s : Server) (act : Channel → Option Server)
      → IsLobby s
      → ((ch : Channel)
          → find_channel_bychannelid s.rooms ch.id ≡ some ch
          → IsKept s.totalcount (act ch))
      → IsKept s.totalcount (in_channel c s act)
  unfolding in_channel
  in_channel-IsKept s act v h = elim (Option-cases (s.world.home c)) [
    | inl e ↦ rw (e, in_channel) (said _ _ s v)
    | inr (id, e) ↦
        let (ch, f) = roster-find s.rooms id c (ground (arith, v.homes c id)) in
        rw (e, f, in_channel)
          (h ch (ap (find_channel_bychannelid s.rooms) (find-roster s.rooms id ch f).0 ∙ f))
  ]

  -- A connection is moved, by whomever.
  moved :
      (q : ℕ) (name : Option Text) (s : Server)
      → IsLobby s
      → s.totalcount + 1 < 2 ^ 31
      → IsKept s.totalcount (do r ← set_channel env q name s; some r.1)
  moved q name s v bound =
      let (r, run, m) = set_channel-IsMoved env q name s v bound in
      rw run (r.1, refl, m.lobby, omega (arith, m.draws))

  after_try :
      (r : Rc × Server) (n : ℕ)
      → IsLobby r.1
      → r.1.totalcount ≤ n + 1
      → n + 2 < 2 ^ 31
      → IsKept n (elim r.0 [
        | ok ↦ some r.1
        | fail ↦ do r' ← set_channel env c (some the_void) r.1; some r'.1
      ])
  after_try (ok, s) n v drew bound = (s, refl, v, omega (arith, drew))
  after_try (fail, s) n v drew bound =
      let (r, run, m) =
        set_channel-IsMoved env c (some the_void) s v (omega (arith, drew, bound)) in
      rw run (r.1, refl, m.lobby, omega (arith, m.draws, drew))

  set_channel_or_void-IsKept :
      (name : Text) (s : Server)
      → IsLobby s
      → s.totalcount + 2 < 2 ^ 31
      → IsKept s.totalcount (set_channel_or_void env c name s)
  unfolding set_channel_or_void
  set_channel_or_void-IsKept name s v bound =
      let (r, run, m) = set_channel-IsMoved env c (some name) s v (omega (arith, bound)) in
      rw run (after_try r s.totalcount m.lobby m.draws bound)

  join_command-IsKept :
      (text : Text) (s : Server)
      → IsLobby s
      → s.totalcount + 2 < 2 ^ 31
      → IsKept s.totalcount (join_command env c text s)
  unfolding join_command
  join_command-IsKept text s v bound = elim (Bool-cases (is_nothing (arguments text))) [
    | inl e ↦ rw e (said _ _ s v)
    | inr e ↦ rw e (set_channel_or_void-IsKept (arguments text) s v bound)
  ]

  -- `if ((chname = strdup(temp)))`
  copied-IsKept :
      (name : Text) (s : Server)
      → IsLobby s
      → s.totalcount + 2 < 2 ^ 31
      → (enough : Bool)
      → IsKept s.totalcount (if enough then set_channel_or_void env c name s else some s)
  copied-IsKept name s v bound true = set_channel_or_void-IsKept name s v bound
  copied-IsKept name s v bound false = (s, refl, v, omega arith)

  rejoin_command-IsKept :
      (s : Server)
      → IsLobby s
      → s.totalcount + 2 < 2 ^ 31
      → IsKept s.totalcount (rejoin_command env c s)
  unfolding rejoin_command
  rejoin_command-IsKept s v bound = elim (Option-cases (s.world.home c)) [
    | inl e ↦ rw (e, rejoin_command) (said _ _ s v)
    | inr (id, e) ↦
        let (ch, f) = roster-find s.rooms id c (ground (arith, v.homes c id)) in
        rw (e, f, rejoin_command) (copied-IsKept ch.name s v bound env.mem)
  ]

  kick_in-IsKept :
      (args : Text) (s : Server) (ch : Channel)
      → IsLobby s
      → s.totalcount + 1 < 2 ^ 31
      → IsKept s.totalcount (kick_in env c args s ch)
  unfolding kick_in tell
  kick_in-IsKept args s ch v bound = elim (Bool-cases (may_rule env c ch)) [
    | inr e ↦ rw e (said _ _ s v)
    | inl e ↦ elim (Option-cases (env.find_connection (dest args))) [
      | inl f ↦ rw (e, f) (said _ _ s v)
      | inr (kuc, f) ↦ elim (Bool-cases (is_conn (s.world.home kuc) ch.id)) [
        | inr g ↦ rw (e, f, g) (said _ _ s v)
        | inl g ↦ elim (Bool-cases (env.admin kuc)) [
          | inl a ↦ rw (e, f, g, a) (said _ _ s v)
          | inr a ↦
              rw (e, f, g, a) (moved kuc (some the_void) _ (tell-IsLobby env c _ ch s v) bound)
        ]
      ]
    ]
  ]

  expel-IsKept :
      (name : Text) (id : ℕ) (s : Server)
      → IsLobby s
      → s.totalcount + 1 < 2 ^ 31
      → IsKept s.totalcount (expel env name id s)
  unfolding expel
  expel-IsKept name id s v bound = elim (Option-cases (env.find_connection name)) [
    | inl f ↦ rw (f, expel) (s, refl, v, omega arith)
    | inr (buc, f) ↦ elim (Bool-cases (is_conn (s.world.home buc) id)) [
      | inr g ↦ rw (f, g, expel) (s, refl, v, omega arith)
      | inl g ↦ rw (f, g, expel) (moved buc (some the_void) s v bound)
    ]
  ]

  announce_ban-IsSteady :
      (args : Text) (ch : Channel) (rc : Rc) (s : Server)
      → IsLobby s
      → IsSteady s (announce_ban env c args ch rc s)
  unfolding announce_ban say tell send
  announce_ban-IsSteady args ch fail s v = (say-IsLobby _ c _ s v, refl)
  announce_ban-IsSteady args ch ok s v = (tell-IsLobby env c _ ch s v, refl)

  ban_known-IsKept :
      (args : Text) (s : Server) (ch : Channel)
      → IsLobby s
      → find_channel_bychannelid s.rooms ch.id ≡ some ch
      → s.totalcount + 1 < 2 ^ 31
      → IsKept s.totalcount (ban_known env c args s ch)
  unfolding ban_known
  ban_known-IsKept args s ch v at bound =
      let r = ban_user env.mem ch (dest args) in
      let told =
        announce_ban-IsSteady args r.1 r.0 (record s { rooms = put_room r.1 s.rooms })
          (banned-IsLobby env c s v ch at (dest args)) in
      let (s', ran, lobby, drew) =
        expel-IsKept (dest args) ch.id _ told.0 (omega (arith, told.1, bound)) in
      (s', ran, lobby, omega (arith, told.1, drew))

  ban_in-IsKept :
      (args : Text) (s : Server) (ch : Channel)
      → IsLobby s
      → find_channel_bychannelid s.rooms ch.id ≡ some ch
      → s.totalcount + 1 < 2 ^ 31
      → IsKept s.totalcount (ban_in env c args s ch)
  unfolding ban_in say
  ban_in-IsKept args s ch v at bound = elim (Bool-cases (may_rule env c ch)) [
    | inr e ↦ rw e (said _ _ s v)
    | inl e ↦ elim (Option-cases (env.admin_account (dest args))) [
      | inl f ↦ rw (e, f) (ban_known-IsKept args _ ch (say-IsLobby _ c _ s v) at bound)
      | inr (a, f) ↦ elim (Bool-cases a) [
        | inl g ↦ rw (e, f, g) (said _ _ s v)
        | inr g ↦ rw (e, f, g) (ban_known-IsKept args s ch v at bound)
      ]
    ]
  ]

  -- Any of the commands.
  pub run-IsKept :
      (command : Command) (s : Server)
      → IsLobby s
      → s.totalcount + 2 < 2 ^ 31
      → IsKept s.totalcount (run env c command s)
  unfolding run designate_command resign_command kick_command ban_command unban_command
  run-IsKept (join text) s v bound = join_command-IsKept text s v bound
  run-IsKept rejoin s v bound = rejoin_command-IsKept s v bound
  run-IsKept depart s v bound = moved c none s v (omega (arith, bound))
  run-IsKept resign s v bound =
      in_channel-IsKept s _ v (λ ch at. steady s _ (resign_in-IsSteady env c s v ch at))
  run-IsKept (designate text) s v bound = elim (Bool-cases (is_nothing (arguments text))) [
    | inl e ↦ rw e (said _ _ s v)
    | inr e ↦ rw e (
        in_channel-IsKept s _ v
          (λ ch at. steady s _ (designate_in-IsSteady env c s v ch at (arguments text))))
  ]
  run-IsKept (unban text) s v bound = elim (Bool-cases (is_nothing (arguments text))) [
    | inl e ↦ rw e (said _ _ s v)
    | inr e ↦ rw e (
        in_channel-IsKept s _ v
          (λ ch at. steady s _ (unban_in-IsSteady env c s v ch at (arguments text))))
  ]
  run-IsKept (kick text) s v bound = elim (Bool-cases (is_nothing (dest (arguments text)))) [
    | inl e ↦ rw e (said _ _ s v)
    | inr e ↦ rw e (
        in_channel-IsKept s _ v
          (λ ch at. kick_in-IsKept (arguments text) s ch v (omega (arith, bound))))
  ]
  run-IsKept (ban text) s v bound = elim (Bool-cases (is_nothing (dest (arguments text)))) [
    | inl e ↦ rw e (said _ _ s v)
    | inr e ↦ rw e (
        in_channel-IsKept s _ v
          (λ ch at. ban_in-IsKept (arguments text) s ch v at (omega (arith, bound))))
  ]
