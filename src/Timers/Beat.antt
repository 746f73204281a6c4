-- ===== src/Timers/Beat.antt =====
-- A test of latency that is pending goes off.
use bnetd.Prelude.{
  ℕ, ◌<◌, ◌≡◌, refl, ap, ◌∙◌, Bool, true, ◌&&◌, List, [], ◌∷◌, ◌++◌, map, ◌==◌, ltb, if◌then◌else◌,
  arith, Bool-cases, inl, inr,
}
use bnetd.Timers.{
  Callback, test_latency, send_nullmsg, user_timer, Timer, Call, Clock, Env, timerlist_check_timers,
}
use bnetd.Timers.Swept.{those, call_of, check_timers-IsSwept}
use bnetd.Timers.Pending.{count, test_of, is_latency}
use bnetd.Timers.Steps.{is_bnet, Reached}
use bnetd.Timers.Keeping.{reached-IsKeeping}

-- The timer stands in the list.
record IsAmong (c : ℕ) (ts : List Timer) : Type 0 where
  before : List Timer
  after : List Timer
  when : ℕ
  delta : ℕ
  listed : ts ≡ before ++ record { owner = c; when = when; cb = test_latency delta } ∷ after

test_known :
    (c o when : ℕ) (cb : Callback)
    → (o == c && is_latency cb) ≡ true
    → let t : Timer = record { owner = o; when = when; cb = cb } in
      (delta : ℕ) × (t ≡ record { owner = c; when = when; cb = test_latency delta })
test_known c o when (test_latency delta) h =
    let same : o ≡ c = ground arith in
    (delta, ap (λ x. record { owner = x; when = when; cb = test_latency delta }) same)
test_known c o when (send_nullmsg delta) h = ground arith
test_known c o when (user_timer str) h = ground arith

counted-IsAmong : (c : ℕ) (ts : List Timer) → count (test_of c) ts ≡ 1 → IsAmong c ts
unfolding count
counted-IsAmong c [] h = ground arith
counted-IsAmong c (t ∷ ts) h = elim (Bool-cases (test_of c t)) [
  | inl e ↦
      let (delta, same) = test_known c t.owner t.when t.cb e in
      record {
        before = [];
        after = ts;
        when = t.when;
        delta = delta;
        listed = ap (λ x. x ∷ ts) same;
      }
  | inr e ↦
      let more = counted-IsAmong c ts (ground arith) in
      record {
        before = t ∷ more.before;
        after = more.after;
        when = more.when;
        delta = more.delta;
        listed = ap (λ l. t ∷ l) more.listed;
      }
]

called_among :
    (due : Timer → Bool) (time_of : Timer → ℕ) (us vs : List Timer) (t : Timer)
    → due t ≡ true
    → map (call_of time_of) (those due (us ++ t ∷ vs))
      ≡ map (call_of time_of) (those due us)
        ++ call_of time_of t ∷ map (call_of time_of) (those due vs)
unfolding those
called_among due time_of [] vs t h = rw h refl
called_among due time_of (u ∷ us) vs t h = elim (Bool-cases (due u)) [
  | inl e ↦ rw e (ap (λ l. call_of time_of u ∷ l) (called_among due time_of us vs t h))
  | inr e ↦ rw e (called_among due time_of us vs t h)
]

-- The calls of a check contain one of the test of latency of `c`, which is given the time `when`.
pub record IsTested (env : Env) (now c when delta : ℕ) (s : Clock) : Type 0 where
  pub before : List Call
  pub after : List Call
  pub called :
      (timerlist_check_timers env now s).calls
      ≡ s.calls ++ (before ++ record { to = c; now = when; cb = test_latency delta } ∷ after)

-- While allocations succeed and the clock shows a time after 0, each connection of class bnet that
-- is there has a test of its latency set for some time, and each check of the timers at a later
-- time than that calls it.
pub check_timers-calls :
    {s : Clock}
    → Reached s
    → (c : ℕ) → s.alive c ≡ true
    → is_bnet (s.class_of c) ≡ true
    → (when delta : ℕ) × ((env : Env) (now : ℕ) → when < now → IsTested env now c when delta s)
check_timers-calls {s} r c there bnet =
    let v = reached-IsKeeping r in
    let one : count (test_of c) s.timers ≡ 1 =
      v.tests c there ∙ ap (λ b. if b then 1 else 0) bnet in
    let at = counted-IsAmong c s.timers one in
    (
      at.when,
      at.delta,
      λ env now late.
          let due : Timer → Bool = λ t. ltb t.when now in
          record {
            before = map (call_of (λ t. t.when)) (those due at.before);
            after = map (call_of (λ t. t.when)) (those due at.after);
            called =
                (check_timers-IsSwept env now s).called
                ∙ ap (λ l. s.calls ++ map (call_of (λ t. t.when)) (those due l)) at.listed
                ∙ ap (λ l. s.calls ++ l)
                    (called_among due (λ t. t.when) at.before at.after
                      (record { owner = c; when = at.when; cb = test_latency at.delta })
                      (ground arith));
          },
    )
