-- ===== src/Timers/Steps.antt =====
-- The life of connections as far as timers go, as steps of the clock.
use bnetd.Prelude.{
  ℕ, ◌<◌, ◌≡◌, inl, inr, refl, sym, ap, ◌∙◌, Bool, true, false, List, [], ◌∷◌, ◌==◌, if◌then◌else◌,
  arith, Bool-cases,
}
use mathlib.Core.Path.{subst}
use bnetd.Prelude.Text.{Text}
use bnetd.Channel.{update}
use bnetd.Timers.{
  Timer, ConnClass, conn_class_init, conn_class_defer, conn_class_bnet, conn_class_irc,
  conn_class_none, ConnState, conn_state_connected, Clock, Env, is_initial, timerlist_check_timers,
  timerlist_del_all_timers,
}
use bnetd.Timers.Uses.{
  conn_create, conn_set_state, conn_set_class, accept_irc, irc_line, timer_command, conn_destroy,
}
use bnetd.Timers.Swept.{check_timers-IsSwept, del_all_timers-IsSwept}
use bnetd.Timers.Pending.{count, of_conn, test_of, AllDated, count_nil, check_pending, del_pending}

abbrev pub start : Clock
start = record {
  timers = [];
  alive = λ c. false;
  class_of = λ c. conn_class_none;
  state_of = λ c. conn_state_connected;
  latency = λ c. 0;
  calls = [];
  out = [];
}

-- Whether `handle_init_packet` or the first byte from a client may still choose the class.
abbrev pub is_open : ConnClass → Bool
is_open conn_class_init = true
is_open conn_class_defer = true
is_open _ = false

abbrev pub is_bnet : ConnClass → Bool
is_bnet conn_class_bnet = true
is_bnet _ = false

abbrev pub is_irc : ConnClass → Bool
is_irc conn_class_irc = true
is_irc _ = false

-- What may happen while `env` answers. The clock shows a time after 0, and allocations succeed.
-- Apart from `conn_create`, no code sets `conn_state_initial`.
pub data Step : Clock → Clock → Type 0 where
  connect : (c : ℕ) (s : Clock) → s.alive c ≡ false → Step s (conn_create c s)
  accept :
      (env : Env) (now c : ℕ) (s : Clock)
      → env.mem ≡ true
      → 0 < now
      → s.alive c ≡ true
      → is_open (s.class_of c) ≡ true
      → Step s (accept_irc env now c s)
  classify :
      (env : Env) (now c : ℕ) (class : ConnClass) (s : Clock)
      → env.mem ≡ true
      → 0 < now
      → s.alive c ≡ true
      → is_open (s.class_of c) ≡ true
      → is_irc class ≡ false
      → Step s (conn_set_class env now c class s)
  set_state :
      (c : ℕ) (state : ConnState) (s : Clock)
      → is_initial state ≡ false
      → Step s (conn_set_state c state s)
  hear_irc :
      (env : Env) (now c : ℕ) (s : Clock)
      → env.mem ≡ true
      → 0 < now
      → s.alive c ≡ true
      → is_irc (s.class_of c) ≡ true
      → Step s (irc_line env now c s)
  set_timer :
      (env : Env) (now c delta : ℕ) (text : Text) (s : Clock)
      → env.mem ≡ true
      → 0 < now
      → s.alive c ≡ true
      → Step s (timer_command env now c delta text s)
  check :
      (env : Env) (now : ℕ) (s : Clock) → env.mem ≡ true → Step s (timerlist_check_timers env now s)
  leave :
      (env : Env) (c : ℕ) (s : Clock)
      → env.mem ≡ true
      → s.alive c ≡ true
      → Step s (conn_destroy env c s)

pub data Reached : Clock → Type 0 where
  begin : Reached start
  next : {s s' : Clock} → Reached s → Step s s' → Reached s'

-- Only connections that are there have timers, and exactly the ones of class bnet have one test of
-- their latency pending. An IRC connection is never in its initial state.
pub record IsKeeping (s : Clock) : Type 0 where
  pub dated : AllDated s.timers
  pub owners : (c : ℕ) → s.alive c ≡ false → count (of_conn c) s.timers ≡ 0
  pub tests :
      (c : ℕ)
      → s.alive c ≡ true
      → count (test_of c) s.timers ≡ (if is_bnet (s.class_of c) then 1 else 0)
  pub heard :
      (c : ℕ) → s.alive c ≡ true → is_irc (s.class_of c) ≡ true → is_initial (s.state_of c) ≡ false

count_no_tests : (c : ℕ) (ts : List Timer) → count (of_conn c) ts ≡ 0 → count (test_of c) ts ≡ 0
unfolding count
count_no_tests c [] h = refl
count_no_tests c (t ∷ ts) h = ground (arith, count_no_tests c ts)

pub start-IsKeeping : IsKeeping start
start-IsKeeping = record {
  dated = tt;
  owners = λ c h. count_nil (of_conn c);
  tests = λ c h. ground arith;
  heard = λ c h. ground arith;
}

pub check-IsKeeping :
    (env : Env) (now : ℕ) (s : Clock)
    → env.mem ≡ true
    → IsKeeping s
    → IsKeeping (timerlist_check_timers env now s)
check-IsKeeping env now s m v =
    let same = (check_timers-IsSwept env now s).conns in
    let p = check_pending env now s v.dated in
    record {
      dated = p.0;
      owners = λ c h. p.1 c (v.owners c (sym (ap (λ f. f c) same.0) ∙ h));
      tests = λ c h.
          p.2 m c
          ∙ v.tests c (sym (ap (λ f. f c) same.0) ∙ h)
          ∙ ap (λ f. if is_bnet (f c) then 1 else 0) (sym same.1);
      heard = λ c h g.
          ap (λ f. is_initial (f c)) same.2
          ∙ v.heard c (sym (ap (λ f. f c) same.0) ∙ h) (ap (λ f. is_irc (f c)) (sym same.1) ∙ g);
    }

pub connect-IsKeeping :
    (c : ℕ) (s : Clock) → s.alive c ≡ false → IsKeeping s → IsKeeping (conn_create c s)
unfolding conn_create
connect-IsKeeping c s free v = record {
  dated = v.dated;
  owners = λ q h. ground (arith, v.owners q);
  tests = λ q h. ground (arith, v.tests q, count_no_tests q s.timers, v.owners q);
  heard = λ q h g. ground (arith, v.heard q);
}

pub leave-IsKeeping :
    (env : Env) (c : ℕ) (s : Clock) → IsKeeping s → IsKeeping (conn_destroy env c s)
unfolding conn_destroy conn_set_state
leave-IsKeeping env c s v =
    let s₀ : Clock = record s { alive = update s.alive c false } in
    let same = (del_all_timers-IsSwept env c s₀).conns in
    let p = del_pending env c s₀ v.dated in
    record {
      dated = p.0;
      owners = λ q h. elim (Bool-cases (c == q)) [
        | inl e ↦
            let own : c ≡ q = ground arith in
            subst (λ x. count (of_conn x) (timerlist_del_all_timers env c s₀).timers ≡ 0) own p.1
        | inr e ↦ p.2 q (v.owners q (ground (arith, ap (λ f. f q) same.0)))
      ];
      tests = λ q h.
          let still : update s.alive c false q ≡ true = sym (ap (λ f. f q) same.0) ∙ h in
          ap (λ n. n) (p.3 q (ground arith))
          ∙ v.tests q (ground arith)
          ∙ ap (λ f. if is_bnet (f q) then 1 else 0) (sym same.1);
      heard = λ q h g.
          let still : update s.alive c false q ≡ true = sym (ap (λ f. f q) same.0) ∙ h in
          ground (
            arith,
            ap (λ f. is_initial (f q)) same.2,
            v.heard q (ground arith) (ap (λ f. is_irc (f q)) (sym same.1) ∙ g),
          );
    }
