-- ===== src/Timers.antt =====
-- src/bnetd/timer.c, the list of timers, with the callbacks that it is used with: conn_test_latency
-- and conn_send_nullmsg of src/bnetd/connection.c and user_timer_cb of src/bnetd/command.c. A
-- connection is a number, a time a number of seconds. A callback adds a timer at the head of the
-- list, in front of the traversal, and an element that is removed keeps its successor, so that a
-- traversal goes over the list that there was at its start.
pub mod Uses
pub mod Swept
pub mod Pending
pub mod Steps
pub mod Classes
pub mod Keeping
pub mod Beat
mod Tests
use bnetd.Prelude.{ℕ, ◌+◌, Bool, true, false, List, [], ◌∷◌, ◌++◌, ◌==◌, ltb, if◌then◌else◌}
use bnetd.Prelude.Text.{Text}
use bnetd.Channel.{Rc, ok, fail, MessageType, info, update}

-- `cb` with the member of `data` that it reads: each caller of `timerlist_add_timer` sets that one.
pub data Callback : Type 0 where
  test_latency send_nullmsg : (delta : ℕ) → Callback
  user_timer : Text → Callback

pub record Timer : Type 0 where
  pub owner : ℕ
  pub when : ℕ
  pub cb : Callback

-- `t_conn_class` and `t_conn_state`
pub data ConnClass : Type 0 where
  conn_class_init conn_class_defer conn_class_bnet conn_class_file conn_class_bot conn_class_bits
        conn_class_remote conn_class_auth conn_class_telnet conn_class_irc conn_class_d2cs_bnetd
        conn_class_none :
      ConnClass

pub data ConnState : Type 0 where
  conn_state_empty conn_state_initial conn_state_connected conn_state_loggedin conn_state_destroy
        conn_state_bot_username conn_state_bot_password :
      ConnState

-- What is sent to a connection, or set in it for other parts.
pub data Output : Type 0 where
  echoreq : ℕ → (ticks : ℕ) → Output
  irc_ping null_message issue prompt udptest : ℕ → Output
  text_message : MessageType → ℕ → Text → Output
  game_port : ℕ → (port : ℕ) → Output

-- A call of a callback.
pub record Call : Type 0 where
  pub to : ℕ
  pub now : ℕ
  pub cb : Callback

-- `timers` is the list; of connections, whether they are on the list of connections, and what of
-- them timers depend on; the calls of callbacks and the output so far, the oldest first.
pub record Clock : Type 0 where
  pub timers : List Timer
  pub alive : ℕ → Bool
  pub class_of : ℕ → ConnClass
  pub state_of : ℕ → ConnState
  pub latency : ℕ → ℕ
  pub calls : List Call
  pub out : List Output

-- What is asked of the rest. `mem` tells whether allocations succeed.
pub record Env : Type 0 where
  pub mem : Bool
  pub get_ticks : ℕ
  -- `conn_get_ircping(c)!=0` and `conn_get_channel(c)`
  pub pinged : ℕ → Bool
  pub in_channel : ℕ → Bool
  pub prefs_get_latency : ℕ
  pub prefs_get_irc_latency : ℕ
  pub prefs_get_nullmsg : ℕ
  pub prefs_get_udptest_port : ℕ

abbrev pub class_number : ConnClass → ℕ
class_number conn_class_init = 0
class_number conn_class_defer = 1
class_number conn_class_bnet = 2
class_number conn_class_file = 3
class_number conn_class_bot = 4
class_number conn_class_bits = 5
class_number conn_class_remote = 6
class_number conn_class_auth = 7
class_number conn_class_telnet = 8
class_number conn_class_irc = 9
class_number conn_class_d2cs_bnetd = 10
class_number conn_class_none = 11

abbrev pub is_initial : ConnState → Bool
is_initial conn_state_initial = true
is_initial _ = false

unfoldable pub emit : Output → Clock → Clock
emit o s = record s { out = s.out ++ o ∷ [] }

unfoldable pub timerlist_add_timer : Bool → ℕ → ℕ → Callback → Clock → Rc × Clock
timerlist_add_timer mem owner when cb s =
    if mem
    then (ok, record s { timers = record { owner = owner; when = when; cb = cb } ∷ s.timers })
    else (fail, s)

module _ (env : Env) where
  -- What `conn_test_latency` sends before it sets the next timer.
  unfoldable pub probe : ℕ → Clock → Clock
  probe c s =
      if class_number (s.class_of c) == 9
      then emit (irc_ping c)
          (if env.pinged c then record s { latency = update s.latency c 0 } else s)
      else if env.in_channel c
      then if env.mem then emit (echoreq c env.get_ticks) s else s
      else s

  unfoldable pub conn_test_latency : ℕ → ℕ → ℕ → Clock → Clock
  conn_test_latency c now delta s =
      if now == 0
      then s
      else (timerlist_add_timer env.mem c (now + delta) (test_latency delta) (probe c s)).1

  unfoldable pub conn_send_nullmsg : ℕ → ℕ → ℕ → Clock → Clock
  conn_send_nullmsg c now delta s =
      if now == 0
      then s
      else (timerlist_add_timer env.mem c (now + delta) (send_nullmsg delta)
          (emit (null_message c) s)).1

  unfoldable pub user_timer_cb : ℕ → ℕ → Text → Clock → Clock
  user_timer_cb c now str s = if now == 0 then s else emit (text_message info c str) s

  unfoldable pub call_back : ℕ → ℕ → Callback → Clock → Clock
  call_back c now (test_latency delta) s = conn_test_latency c now delta s
  call_back c now (send_nullmsg delta) s = conn_send_nullmsg c now delta s
  call_back c now (user_timer str) s = user_timer_cb c now str s

  -- `timer->cb(timer->owner,now,timer->data)`
  unfoldable pub invoke : Timer → ℕ → Clock → Clock
  invoke t now s =
      call_back t.owner now t.cb
        (record s { calls = s.calls ++ record { to = t.owner; now = now; cb = t.cb } ∷ [] })

  -- The loops over the list: what of it is left, and the clock, whose list has what was added.
  -- `due` tells which timers go off, and `time_of` what time their callback is given.
  unfoldable pub traverse :
      (due : Timer → Bool) (time_of : Timer → ℕ) → List Timer → Clock → List Timer × Clock
  traverse due time_of [] s = ([], s)
  traverse due time_of (t ∷ ts) s =
      let (kept, s') = traverse due time_of ts (if due t then invoke t (time_of t) s else s) in
      (if due t then kept else t ∷ kept, s')

  unfoldable pub sweep : (due : Timer → Bool) (time_of : Timer → ℕ) → Clock → Clock
  sweep due time_of s =
      let (kept, s') = traverse due time_of s.timers (record s { timers = [] }) in
      record s' { timers = s'.timers ++ kept }

  unfoldable pub timerlist_del_all_timers : ℕ → Clock → Clock
  timerlist_del_all_timers owner s = sweep (λ t. t.owner == owner) (λ t. 0) s

  unfoldable pub timerlist_check_timers : ℕ → Clock → Clock
  timerlist_check_timers when s = sweep (λ t. ltb t.when when) (λ t. t.when) s
