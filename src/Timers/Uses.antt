-- ===== src/Timers/Uses.antt =====
-- Where timers are set and dropped: conn_create, conn_set_class and conn_destroy of
-- src/bnetd/connection.c, the first line from an IRC client in src/bnetd/handle_irc.c, the
-- accepting of an IRC client in src/bnetd/server.c, and /timer of src/bnetd/command.c after its
-- arguments are parsed.
use bnetd.Prelude.{ℕ, ◌+◌, true, false, [], ◌∷◌, ◌++◌, ◌==◌, u16, if◌then◌else◌}
use bnetd.Prelude.Text.{Text, codes}
use bnetd.Util.Duration.{seconds_to_timestr}
use bnetd.Channel.{Rc, ok, fail, info, error, update}
use bnetd.Timers.{
  test_latency, send_nullmsg, user_timer, ConnClass, conn_class_init, conn_class_bnet,
  conn_class_bot, conn_class_telnet, conn_class_irc, ConnState, conn_state_empty,
  conn_state_initial, conn_state_connected, conn_state_bot_username, issue, prompt, udptest,
  text_message, game_port, Clock, Env, class_number, is_initial, emit, timerlist_add_timer,
  conn_test_latency, timerlist_del_all_timers,
}

unfoldable pub conn_create : ℕ → Clock → Clock
conn_create c s = record s {
  alive = update s.alive c true;
  class_of = update s.class_of c conn_class_init;
  state_of = update s.state_of c conn_state_initial;
}

unfoldable pub conn_set_state : ℕ → ConnState → Clock → Clock
conn_set_state c state s = record s { state_of = update s.state_of c state }

unfoldable pub test_udp : Env → ℕ → Clock → Clock
test_udp env c s =
    let port = env.prefs_get_udptest_port in
    emit (udptest c) (if port == 0 then s else emit (game_port c (u16 port)) s)

abbrev pub timer_text : Text → Text
timer_text [] = codes "Your timer has expired."
timer_text (a ∷ text) = a ∷ text

-- What is told of the outcome of `timerlist_add_timer`.
unfoldable pub tell_timer : ℕ → ℕ → Rc → Clock → Clock
tell_timer c delta ok s =
    emit (text_message info c (codes "Timer set for " ++ seconds_to_timestr delta)) s
tell_timer c delta fail s = emit (text_message error c (codes "Could not set timer.")) s

-- The prompt of `conn_set_class`.
unfoldable pub ask_name : Env → ℕ → Clock → Clock
ask_name env c s = if env.mem then emit (prompt c) (emit (issue c) s) else emit (issue c) s

module _ (env : Env) (now : ℕ) where
  -- `if (class==conn_class_bnet)`
  unfoldable pub become_bnet : ℕ → Clock → Clock
  become_bnet c s =
      (timerlist_add_timer env.mem c (now + env.prefs_get_latency)
        (test_latency env.prefs_get_latency) (test_udp env c s)).1

  -- `if ((delta = prefs_get_nullmsg())>0)`
  unfoldable pub start_nullmsg : ℕ → Clock → Clock
  start_nullmsg c s =
      let delta = env.prefs_get_nullmsg in
      if delta == 0
      then s
      else (timerlist_add_timer env.mem c (now + delta) (send_nullmsg delta) s).1

  unfoldable pub for_class : ℕ → ConnClass → Clock → Clock
  for_class c conn_class_bnet s = become_bnet c s
  for_class c conn_class_bot s = ask_name env c (start_nullmsg c s)
  for_class c conn_class_telnet s = ask_name env c s
  for_class c _ s = s

  unfoldable pub conn_set_class : ℕ → ConnClass → Clock → Clock
  conn_set_class c class s =
      if class_number (s.class_of c) == class_number class
      then s
      else for_class c class (record s { class_of = update s.class_of c class })

  -- `case laddr_type_irc` of `sd_accept`
  unfoldable pub accept_irc : ℕ → Clock → Clock
  accept_irc c s = conn_set_state c conn_state_connected (conn_set_class c conn_class_irc s)

  -- What `handle_irc_line` does before it looks at the command.
  unfoldable pub irc_line : ℕ → Clock → Clock
  irc_line c s =
      if is_initial (s.state_of c)
      then conn_test_latency env c now env.prefs_get_irc_latency
          (conn_set_state c conn_state_bot_username s)
      else s

  -- /timer after its arguments were read.
  unfoldable pub timer_command : ℕ → ℕ → Text → Clock → Clock
  timer_command c delta text s =
      let (rc, s') = timerlist_add_timer env.mem c (now + delta) (user_timer (timer_text text)) s in
      tell_timer c delta rc s'

-- The part of `conn_destroy` that concerns timers.
unfoldable pub conn_destroy : Env → ℕ → Clock → Clock
conn_destroy env c s =
    conn_set_state c conn_state_empty
      (timerlist_del_all_timers env c (record s { alive = update s.alive c false }))
