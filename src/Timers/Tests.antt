-- ===== src/Timers/Tests.antt =====
-- A client connects, its latency is tested, and it sets a timer.
use bnetd.Prelude.{ℕ, ◌<◌, ◌≡◌, refl, true, false, ltb, arith}
use bnetd.Prelude.Text.{codes}
use bnetd.Timers.{conn_class_bnet, Clock, Env, timerlist_check_timers, timerlist_add_timer, emit}
use bnetd.Timers.Uses.{conn_create, conn_set_class, timer_command, for_class, become_bnet, test_udp}
use bnetd.Timers.Swept.{IsSwept, check_timers-IsSwept}
use bnetd.Timers.Steps.{
  start, Reached, begin, next, connect, classify, set_timer, is_bnet, IsKeeping,
}
use bnetd.Timers.Keeping.{reached-IsKeeping}
use bnetd.Timers.Beat.{IsTested, check_timers-calls}

abbrev env : Env
env = record {
  mem = true;
  get_ticks = 77;
  pinged = λ c. false;
  in_channel = λ c. true;
  prefs_get_latency = 600;
  prefs_get_irc_latency = 180;
  prefs_get_nullmsg = 120;
  prefs_get_udptest_port = 6112;
}

abbrev joined : Clock
joined = conn_set_class env 1000 3 conn_class_bnet (conn_create 3 start)

abbrev waiting : Clock
waiting = timer_command env 1005 3 60 (codes "tea") joined

joined-Reached : Reached joined
unfolding conn_create
joined-Reached =
    next (next begin (connect 3 start refl))
      (classify env 1000 3 conn_class_bnet (conn_create 3 start) refl (omega arith) refl refl refl)

joined_there : joined.alive 3 ≡ true
unfolding conn_create conn_set_class for_class become_bnet test_udp timerlist_add_timer emit
joined_there = refl

joined_bnet : is_bnet (joined.class_of 3) ≡ true
unfolding conn_create conn_set_class for_class become_bnet test_udp timerlist_add_timer emit
joined_bnet = refl

waiting-Reached : Reached waiting
waiting-Reached =
    next joined-Reached
      (set_timer env 1005 3 60 (codes "tea") joined refl (omega arith) joined_there)

reached-IsKeeping_example : IsKeeping waiting
reached-IsKeeping_example = reached-IsKeeping waiting-Reached

check_timers-IsSwept_example :
    IsSwept env
      (λ t. ltb t.when 1700)
      (λ t. t.when)
      waiting
      (timerlist_check_timers env 1700 waiting)
check_timers-IsSwept_example = check_timers-IsSwept env 1700 waiting

check_timers-calls_example :
    (when delta : ℕ) × ((env' : Env) (now : ℕ) → when < now → IsTested env' now 3 when delta joined)
check_timers-calls_example = check_timers-calls joined-Reached 3 joined_there joined_bnet
