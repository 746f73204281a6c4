-- ===== src/Timers/Swept.antt =====
-- What a traversal of the list of timers does, against lists of the timers that go off and that
-- stay.
use bnetd.Prelude.{
  ℕ, ◌+◌, ◌≡◌, refl, sym, ap, ◌∙◌, Bool, ◌&&◌, not, List, [], ◌∷◌, ◌++◌, map, ◌==◌, ltb,
  if◌then◌else◌, arith, Bool-cases, inl, inr,
}
use mathlib.Core.List.{append_assoc, append-nil}
use bnetd.Timers.{
  Callback, test_latency, send_nullmsg, user_timer, Timer, Call, Clock, Env, emit,
  timerlist_add_timer, probe, conn_test_latency, conn_send_nullmsg, user_timer_cb, call_back,
  invoke, traverse, sweep, timerlist_check_timers, timerlist_del_all_timers,
}

-- The timers of a list that pass a test.
unfoldable pub those : (Timer → Bool) → List Timer → List Timer
those test [] = []
those test (t ∷ ts) = if test t then t ∷ those test ts else those test ts

abbrev pub call_of : (Timer → ℕ) → Timer → Call
call_of time_of t = record { to = t.owner; now = time_of t; cb = t.cb }

-- The timer that a callback sets: a periodic one, by the time that it is given, unless that is 0.
abbrev pub period : Callback → List ℕ
period (test_latency delta) = delta ∷ []
period (send_nullmsg delta) = delta ∷ []
period (user_timer str) = []

abbrev pub again : Timer → ℕ → List ℕ → List Timer
again t now [] = []
again t now (delta ∷ ds) = record { owner = t.owner; when = now + delta; cb = t.cb } ∷ []

unfoldable pub renewal : Bool → Timer → ℕ → List Timer
renewal mem t now = if mem && not (now == 0) then again t now (period t.cb) else []

-- The timers that the callbacks of a list set, the newest first.
unfoldable pub renewals : Bool → (Timer → ℕ) → List Timer → List Timer → List Timer
renewals mem time_of [] added = added
renewals mem time_of (t ∷ ts) added = renewals mem time_of ts (renewal mem t (time_of t) ++ added)

-- What callbacks leave as it is.
abbrev pub SameConns : Clock → Clock → Type 0
SameConns s s' = (s'.alive ≡ s.alive) × (s'.class_of ≡ s.class_of) × (s'.state_of ≡ s.state_of)

module _ (env : Env) where
  probe_quiet :
      (c : ℕ) (s : Clock)
      → SameConns s (probe env c s)
        × ((probe env c s).timers ≡ s.timers)
        × ((probe env c s).calls ≡ s.calls)
  unfolding probe emit
  probe_quiet c s = ground arith

  call_back_effect :
      (cb : Callback) (c when now : ℕ) (s : Clock)
      → let s' = call_back env c now cb s in
        SameConns s s'
        × (s'.timers ≡ renewal env.mem (record { owner = c; when = when; cb = cb }) now ++ s.timers)
        × (s'.calls ≡ s.calls)
  unfolding call_back conn_test_latency conn_send_nullmsg user_timer_cb timerlist_add_timer emit
      renewal
  call_back_effect (test_latency delta) c when now s = ground (arith, probe_quiet c s)
  call_back_effect (send_nullmsg delta) c when now s = ground arith
  call_back_effect (user_timer str) c when now s = ground arith

  invoke_effect :
      (t : Timer) (now : ℕ) (s : Clock)
      → let s' = invoke env t now s in
        SameConns s s'
        × (s'.timers ≡ renewal env.mem t now ++ s.timers)
        × (s'.calls ≡ s.calls ++ record { to = t.owner; now = now; cb = t.cb } ∷ [])
  unfolding invoke
  invoke_effect t now s = call_back_effect t.cb t.owner t.when now _

  -- The connections, the timers that were added, the calls, and what stays.
  abbrev IsTraversed :
      (Timer → Bool) → (Timer → ℕ) → List Timer → Clock → List Timer → Clock → Type 0
  IsTraversed due time_of ts s kept s' =
      SameConns s s'
      × (s'.timers ≡ renewals env.mem time_of (those due ts) s.timers)
      × (s'.calls ≡ s.calls ++ map (call_of time_of) (those due ts))
      × (kept ≡ those (λ t. not (due t)) ts)

  traverse_lem :
      (due : Timer → Bool) (time_of : Timer → ℕ) (ts : List Timer) (s : Clock)
      → let (kept, s') = traverse env due time_of ts s in IsTraversed due time_of ts s kept s'
  unfolding traverse those renewals
  traverse_lem due time_of [] s = ((refl, refl, refl), refl, sym (append-nil s.calls), refl)
  traverse_lem due time_of (t ∷ ts) s = elim (Bool-cases (due t)) [
    | inl e ↦
        let one = invoke_effect t (time_of t) s in
        let more = traverse_lem due time_of ts (invoke env t (time_of t) s) in
        rw e (
          (more.0.0 ∙ one.0.0, more.0.1 ∙ one.0.1, more.0.2 ∙ one.0.2),
          more.1 ∙ ap (renewals env.mem time_of (those due ts)) one.1,
          more.2
              ∙ ap (λ l. l ++ map (call_of time_of) (those due ts)) one.2
              ∙ append_assoc s.calls (call_of time_of t ∷ [])
                  (map (call_of time_of) (those due ts)),
          more.3,
        )
    | inr e ↦
        let more = traverse_lem due time_of ts s in
        rw e (more.0, more.1, more.2, ap (λ l. t ∷ l) more.3)
  ]

  -- The timers that go off are called once each, in the order of the list. What is left are the
  -- timers that they set, the newest first, before those that did not go off.
  pub record IsSwept (due : Timer → Bool) (time_of : Timer → ℕ) (s s' : Clock) : Type 0 where
    pub conns : SameConns s s'
    pub called : s'.calls ≡ s.calls ++ map (call_of time_of) (those due s.timers)
    pub left :
        s'.timers
        ≡ renewals env.mem time_of (those due s.timers) [] ++ those (λ t. not (due t)) s.timers

  sweep-IsSwept :
      (due : Timer → Bool) (time_of : Timer → ℕ) (s : Clock)
      → IsSwept due time_of s (sweep env due time_of s)
  unfolding sweep
  sweep-IsSwept due time_of s =
      let t = traverse_lem due time_of s.timers (record s { timers = [] }) in
      record {
        conns = t.0;
        called = t.2;
        left =
            ap (λ l. l ++ (traverse env due time_of s.timers (record s { timers = [] })).0) t.1
            ∙ ap (λ l. renewals env.mem time_of (those due s.timers) [] ++ l) t.3;
      }

  -- A check of the timers at a time calls the callback of each timer that was set for an earlier
  -- time exactly once, in the order of the list, with the time it was set for. Then the list is
  -- that of the timers these callbacks set, the newest first, followed by the ones that were not
  -- due in their order: a timer that is set during the check waits for the next one.
  pub check_timers-IsSwept :
      (when : ℕ) (s : Clock)
      → IsSwept (λ t. ltb t.when when) (λ t. t.when) s (timerlist_check_timers env when s)
  unfolding timerlist_check_timers
  check_timers-IsSwept when s = sweep-IsSwept (λ t. ltb t.when when) (λ t. t.when) s

  pub del_all_timers-IsSwept :
      (owner : ℕ) (s : Clock)
      → IsSwept (λ t. t.owner == owner) (λ t. 0) s (timerlist_del_all_timers env owner s)
  unfolding timerlist_del_all_timers
  del_all_timers-IsSwept owner s = sweep-IsSwept (λ t. t.owner == owner) (λ t. 0) s
