-- ===== src/Lobby/Entering.antt =====
-- `conn_set_channel` keeps a server in order, whatever channel it is called with.
use bnetd.Prelude.{
  ℕ, ◌+◌, ◌≤◌, ◌<◌, ◌^◌, ◌≡◌, refl, ap, ◌∙◌, Option, none, some, arith, Option-cases, inl, inr,
}
use bnetd.Prelude.Text.{Text}
use bnetd.Channel.{Channel, Rc, ok, fail}
use bnetd.Lobby.{Server, Env, create, find_channel_by_name}
use bnetd.Lobby.Moves.{
  leave_game, private_room, admit_made, admit_found, enter_channel, set_channel,
}
use bnetd.Lobby.Invariant.{IsLobby, leave_channel-IsAway}
use bnetd.Lobby.Arrival.{create_cases, next_id_le, admit-IsTried, admit_made-IsTried}
use bnetd.Lobby.Lookup.{Located, nowhere, somewhere, found-Located}

-- After an attempt to move the connection: all is in order, and if the outcome is -1 the connection
-- is in no channel.
pub record IsMoved (c : ℕ) (s : Server) (r : Rc × Server) : Type 0 where
  pub lobby : IsLobby r.1
  pub failed : r.0 ≡ fail → r.1.world.home c ≡ none
  pub draws : r.1.totalcount ≤ s.totalcount + 1

module _ (env : Env) (c : ℕ) where
  created-IsMoved :
      (name : Text) (s : Server)
      → IsLobby s
      → s.totalcount + 1 < 2 ^ 31
      → s.world.home c ≡ none
      → IsMoved c s (admit_made env c (create env.mem (private_room env name) s))
  unfolding admit_made
  created-IsMoved name s v bound away =
      let form = private_room env name in
      elim (create_cases form s v bound env.mem) [
        | inl run ↦ rw run (record { lobby = v; failed = λ e. away; draws = omega arith })
        | inr run ↦
            let t = admit_made-IsTried env c form s v bound away in
            rw run (record {
              lobby = t.lobby;
              failed = t.failed;
              draws = omega (arith, t.no_draw, next_id_le form s v bound);
            })
      ]

  found-IsMoved :
      (name : Text) (s : Server) (p : Option Channel × Server)
      → IsLobby s
      → s.totalcount + 1 < 2 ^ 31
      → s.world.home c ≡ none
      → Located s p
      → IsMoved c s (admit_found env c name p)
  unfolding admit_found
  found-IsMoved name s _ v bound away nowhere = created-IsMoved name s v bound away
  found-IsMoved name s _ v bound away (somewhere ch s' v' at same draws) =
      let t = admit-IsTried env c s' v' (ap (λ w. w.home c) same ∙ away) ch at in
      record { lobby = t.lobby; failed = t.failed; draws = omega (arith, t.no_draw) }

  left_game : (s : Server) → IsLobby s → IsLobby (leave_game c s)
  unfolding leave_game
  left_game s v = elim (Option-cases (s.game_of c)) [
    | inl e ↦ rw (e, leave_game) v
    | inr (g, e) ↦
        rw (e, leave_game) (record { listed = v.listed; drawn = v.drawn; homes = v.homes })
  ]

  same_after_game :
      (s : Server)
      → ((leave_game c s).world ≡ s.world) × ((leave_game c s).totalcount ≡ s.totalcount)
  unfolding leave_game
  same_after_game s = ground arith

  -- In a server that is in order, whose counter of channels is below 2 ^ 31 - 1, so that it cannot
  -- overflow, the call returns without using a channel that is gone and leaves the server in order.
  -- If its outcome is -1, the connection is in no channel. It draws at most one channel id.
  pub set_channel-IsMoved :
      (name : Option Text) (s : Server)
      → IsLobby s
      → s.totalcount + 1 < 2 ^ 31
      → (r : Rc × Server) × (set_channel env c name s ≡ some r) × IsMoved c s r
  unfolding set_channel enter_channel
  set_channel-IsMoved none s v bound =
      let (s', run, away) = leave_channel-IsAway env c s v in
      (
        (ok, s'),
        rw run refl,
        record { lobby = away.lobby; failed = λ e. away.away; draws = omega (arith, away.no_draw) },
      )
  set_channel-IsMoved (some name) s v bound =
      let (s', run, away) = leave_channel-IsAway env c s v in
      let s'' = leave_game c s' in
      let same = same_after_game s' in
      let bound' : s''.totalcount + 1 < 2 ^ 31 = omega (arith, same.1, away.no_draw) in
      let lobby = left_game s' away.lobby in
      let m =
        found-IsMoved name s''
          (find_channel_by_name name (env.country c) (env.realmname c) env.mem s'') lobby bound'
          (ap (λ w. w.home c) same.0 ∙ away.away)
          (found-Located name (env.country c) (env.realmname c) env.mem s'' lobby bound') in
      (
        enter_channel env c name s'',
        rw run refl,
        record {
          lobby = m.lobby;
          failed = m.failed;
          draws = omega (arith, m.draws, same.1, away.no_draw);
        },
      )
