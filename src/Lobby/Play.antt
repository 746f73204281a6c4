-- ===== src/Lobby/Play.antt =====
-- Commands one after the other, by any connections.
use bnetd.Prelude.{
  ℕ, ◌+◌, ◌*◌, ◌<◌, ◌^◌, ◌≡◌, refl, List, [], ◌∷◌, Option, some, ◌>>=◌, arith, length,
}
use bnetd.Lobby.{Server, Env}
use bnetd.Lobby.Commands.{Command, run}
use bnetd.Lobby.Invariant.{IsLobby}
use bnetd.Lobby.Reach.{run-IsKept}

-- A command, the connection that it comes from, and what accounts and connections are then.
pub record Call : Type 0 where
  pub env : Env
  pub by : ℕ
  pub command : Command

unfoldable pub play : List Call → Server → Option Server
play [] s = some s
play (call ∷ calls) s = do s' ← run call.env call.by call.command s; play calls s'

-- In a server that is in order, any sequence of channel commands from any connections runs to its
-- end, so that none of them uses the pointer of a channel that is gone, and leaves a server in
-- order: ids of channels are distinct, a connection is on the member list of its own channel, once,
-- and of no other, operators are members of their channel, and only a permanent channel is empty.
-- The counter of channels, an int, must be at least two per command below 2 ^ 31, so that it cannot
-- overflow.
pub play-IsLobby :
    (calls : List Call) (s : Server)
    → IsLobby s
    → s.totalcount + 2 * length calls < 2 ^ 31
    → (s' : Server) × (play calls s ≡ some s') × IsLobby s'
unfolding play
play-IsLobby [] s v bound = (s, refl, v)
play-IsLobby (call ∷ calls) s v bound =
    let (s', ran, v', drew) = run-IsKept call.env call.by call.command s v (omega (arith, bound)) in
    let (s'', played, v'') = play-IsLobby calls s' v' (omega (arith, drew, bound)) in
    (s'', rw ran played, v'')
