-- ===== src/Timers/Keeping.antt =====
-- Every step keeps the timers in order.
use bnetd.Prelude.{ℕ, ◌<◌, ◌≡◌, inl, inr, true, false, arith, Bool-cases}
use bnetd.Prelude.Text.{Text}
use bnetd.Channel.{Rc, ok, fail}
use bnetd.Timers.{ConnState, Clock, Env, is_initial, emit, timerlist_add_timer}
use bnetd.Timers.Uses.{conn_set_state, irc_line, tell_timer, timer_command}
use bnetd.Timers.Pending.{count}
use bnetd.Timers.Steps.{
  is_irc, connect, accept, classify, set_state, hear_irc, set_timer, check, leave, Reached, begin,
  next, IsKeeping, start-IsKeeping, check-IsKeeping, connect-IsKeeping, leave-IsKeeping,
}
use bnetd.Timers.Classes.{conn_set_class-IsKeeping, accept_irc-IsKeeping}

set_state-IsKeeping :
    (c : ℕ) (state : ConnState) (s : Clock)
    → is_initial state ≡ false
    → IsKeeping s
    → IsKeeping (conn_set_state c state s)
unfolding conn_set_state
set_state-IsKeeping c state s h v = record {
  dated = v.dated;
  owners = v.owners;
  tests = v.tests;
  heard = λ q a i. ground (arith, v.heard q a i);
}

hear_irc-IsKeeping :
    (env : Env) (now c : ℕ) (s : Clock)
    → s.alive c ≡ true
    → is_irc (s.class_of c) ≡ true
    → IsKeeping s
    → IsKeeping (irc_line env now c s)
unfolding irc_line
hear_irc-IsKeeping env now c s there irc v = rw (v.heard c there irc, irc_line) v

tell_timer-IsKeeping :
    (c delta : ℕ) (rc : Rc) (s : Clock) → IsKeeping s → IsKeeping (tell_timer c delta rc s)
unfolding tell_timer emit
tell_timer-IsKeeping c delta ok s v = record {
  dated = v.dated;
  owners = v.owners;
  tests = v.tests;
  heard = v.heard;
}
tell_timer-IsKeeping c delta fail s v = record {
  dated = v.dated;
  owners = v.owners;
  tests = v.tests;
  heard = v.heard;
}

timer_command-IsKeeping :
    (env : Env) (now c delta : ℕ) (text : Text) (s : Clock)
    → 0 < now
    → s.alive c ≡ true
    → IsKeeping s
    → IsKeeping (timer_command env now c delta text s)
unfolding timer_command timerlist_add_timer count
timer_command-IsKeeping env now c delta text s late there v = elim (Bool-cases env.mem) [
  | inr e ↦ rw (e, timer_command) (tell_timer-IsKeeping c delta fail s v)
  | inl e ↦
      rw (e, timer_command)
        (tell_timer-IsKeeping c delta ok _ (record {
          dated = (omega arith, v.dated);
          owners = λ q h. ground (arith, v.owners q h);
          tests = λ q h. ground (arith, v.tests q h);
          heard = v.heard;
        }))
]

-- Whatever happens while allocations succeed and the clock shows a time after 0: no timer is
-- pending for a connection that is gone, so that no callback is called with one; and of the tests
-- of latency exactly one is pending for each connection of class bnet, and none for any other. An
-- IRC connection is never in the state in which a line from it would start such tests.
pub reached-IsKeeping : {s : Clock} → Reached s → IsKeeping s
reached-IsKeeping begin = start-IsKeeping
reached-IsKeeping (next r (connect c s free)) = connect-IsKeeping c s free (reached-IsKeeping r)
reached-IsKeeping (next r (accept env now c s m late there opened)) =
    accept_irc-IsKeeping env now c s m late (reached-IsKeeping r) there opened
reached-IsKeeping (next r (classify env now c class s m late there opened i)) =
    conn_set_class-IsKeeping env now c s m late (reached-IsKeeping r) there opened class i
reached-IsKeeping (next r (set_state c state s h)) =
    set_state-IsKeeping c state s h (reached-IsKeeping r)
reached-IsKeeping (next r (hear_irc env now c s m late there irc)) =
    hear_irc-IsKeeping env now c s there irc (reached-IsKeeping r)
reached-IsKeeping (next r (set_timer env now c delta text s m late there)) =
    timer_command-IsKeeping env now c delta text s late there (reached-IsKeeping r)
reached-IsKeeping (next r (check env now s m)) = check-IsKeeping env now s m (reached-IsKeeping r)
reached-IsKeeping (next r (leave env c s m there)) = leave-IsKeeping env c s (reached-IsKeeping r)
