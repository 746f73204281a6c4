-- ===== src/Timers/Classes.antt =====
-- The class of a connection is chosen: what that does to its timers.
use bnetd.Prelude.{
  ℕ, ◌+◌, ◌<◌, ◌≡◌, inl, inr, refl, sym, ap, ◌∙◌, Bool, true, false, ◌==◌, if◌then◌else◌, arith,
  Bool-cases,
}
use mathlib.Core.Path.{subst}
use bnetd.Channel.{update}
use bnetd.Timers.{
  ConnClass, conn_class_init, conn_class_defer, conn_class_bnet, conn_class_file, conn_class_bot,
  conn_class_bits, conn_class_remote, conn_class_auth, conn_class_telnet, conn_class_irc,
  conn_class_d2cs_bnetd, conn_class_none, Output, issue, prompt, Clock, Env, class_number,
  is_initial, emit, timerlist_add_timer,
}
use bnetd.Timers.Uses.{
  conn_set_state, become_bnet, start_nullmsg, test_udp, ask_name, for_class, conn_set_class,
  accept_irc,
}
use bnetd.Timers.Swept.{SameConns}
use bnetd.Timers.Pending.{count, of_conn, test_of, AllDated}
use bnetd.Timers.Steps.{is_open, is_bnet, is_irc, IsKeeping}

open_not_irc : (class : ConnClass) → is_open class ≡ true → (class_number class == 9) ≡ false
open_not_irc class h = ground arith

open_not_bnet : (class : ConnClass) → is_open class ≡ true → is_bnet class ≡ false
open_not_bnet class h = ground arith

-- The class of a connection is chosen; if that is bnet, its test of latency is set.
module _ (c : ℕ) (class : ConnClass) (s : Clock) (v : IsKeeping s) (there : s.alive c ≡ true)
    (opened : is_open (s.class_of c) ≡ true) where
  record IsClassed (s' : Clock) : Type 0 where
    dated : AllDated s'.timers
    alive : s'.alive ≡ s.alive
    class_is : s'.class_of ≡ update s.class_of c class
    state_is : (q : ℕ) → (c == q) ≡ false → s'.state_of q ≡ s.state_of q
    timed : (q : ℕ) → (c == q) ≡ false → count (of_conn q) s'.timers ≡ count (of_conn q) s.timers
    tested :
        (q : ℕ)
        → count (test_of q) s'.timers
          ≡ count (test_of q) s.timers + (if c == q then if is_bnet class then 1 else 0 else 0)
    hears : is_irc class ≡ true → is_initial (s'.state_of c) ≡ false

  alive_then : (q : ℕ) {b : Bool} (s' : Clock) → IsClassed s' → s'.alive q ≡ b → s.alive q ≡ b
  alive_then q s' k h = sym (ap (λ f. f q) k.alive) ∙ h

  classed-IsKeeping : (s' : Clock) → IsClassed s' → IsKeeping s'
  classed-IsKeeping s' k = record {
    dated = k.dated;
    owners =
        λ q h. ground (arith, k.timed q, v.owners q (alive_then q s' k h), alive_then q s' k h);
    tests = λ q h. elim (Bool-cases (c == q)) [
      | inl e ↦
          let own : c ≡ q = ground arith in
          ground (
            arith,
            k.tested q,
            v.tests c there,
            ap (λ f. f q) k.class_is,
            open_not_bnet (s.class_of c) opened,
            ap (λ x. count (test_of x) s.timers) own,
          )
      | inr e ↦
          ground (arith, k.tested q, v.tests q (alive_then q s' k h), ap (λ f. f q) k.class_is)
    ];
    heard = λ q h g. elim (Bool-cases (c == q)) [
      | inl e ↦
          let own : c ≡ q = ground arith in
          ground (arith, k.hears, ap (λ f. f q) k.class_is, ap (λ x. s'.state_of x) own)
      | inr e ↦
          ground (arith, k.state_is q e, v.heard q (alive_then q s' k h), ap (λ f. f q) k.class_is)
    ];
  }

  -- With the class and nothing else.
  abbrev reclassed : Clock
  reclassed = record s { class_of = update s.class_of c class }

  reclassed-IsClassed : is_bnet class ≡ false → is_irc class ≡ false → IsClassed reclassed
  reclassed-IsClassed b i = record {
    dated = v.dated;
    alive = refl;
    class_is = refl;
    state_is = λ q h. refl;
    timed = λ q h. refl;
    tested = λ q. ground (arith, b);
    hears = λ h. ground arith;
  }

  -- What is sent does not matter.
  emit-IsClassed : (o : Output) (s' : Clock) → IsClassed s' → IsClassed (emit o s')
  unfolding emit
  emit-IsClassed o s' k = record {
    dated = k.dated;
    alive = k.alive;
    class_is = k.class_is;
    state_is = k.state_is;
    timed = k.timed;
    tested = k.tested;
    hears = k.hears;
  }

  ask_name-IsClassed : (env : Env) (s' : Clock) → IsClassed s' → IsClassed (ask_name env c s')
  unfolding ask_name
  ask_name-IsClassed env s' k =
      let issued = emit-IsClassed (issue c) s' k in
      elim (Bool-cases env.mem) [
        | inl e ↦ rw (e, ask_name) (emit-IsClassed (prompt c) (emit (issue c) s') issued)
        | inr e ↦ rw (e, ask_name) issued
      ]

  start_nullmsg-IsClassed :
      (env : Env) (now : ℕ) (s' : Clock)
      → 0 < now
      → env.mem ≡ true
      → IsClassed s'
      → IsClassed (start_nullmsg env now c s')
  unfolding start_nullmsg timerlist_add_timer count
  start_nullmsg-IsClassed env now s' late m k = elim (Bool-cases (env.prefs_get_nullmsg == 0)) [
    | inl e ↦ rw (e, start_nullmsg) k
    | inr e ↦
        rw (e, m, start_nullmsg)
          (record {
            dated = (omega arith, k.dated);
            alive = k.alive;
            class_is = k.class_is;
            state_is = k.state_is;
            timed = λ q h. ground (arith, k.timed q h);
            tested = λ q. ground (arith, k.tested q);
            hears = k.hears;
          })
  ]

-- `conn_set_class` with each class but that of IRC.
module _ (env : Env) (now c : ℕ) (s : Clock) (m : env.mem ≡ true) (late : 0 < now) (v : IsKeeping s)
    (there : s.alive c ≡ true) (opened : is_open (s.class_of c) ≡ true) where
  test_udp_quiet :
      (s' : Clock) → SameConns s' (test_udp env c s') × ((test_udp env c s').timers ≡ s'.timers)
  unfolding test_udp emit
  test_udp_quiet s' = ground arith

  become_bnet-IsClassed :
      IsClassed c conn_class_bnet s v there opened
        (become_bnet env now c (reclassed c conn_class_bnet s v there opened))
  unfolding become_bnet timerlist_add_timer count test_udp
  become_bnet-IsClassed =
      let (same, listed) = test_udp_quiet (reclassed c conn_class_bnet s v there opened) in
      rw (m, become_bnet)
        (record {
          dated = (omega arith, subst AllDated (sym listed) v.dated);
          alive = same.0;
          class_is = same.1;
          state_is = λ q h. ap (λ f. f q) same.2;
          timed = λ q h. ground (arith, ap (count (of_conn q)) listed);
          tested = λ q. ground (arith, ap (count (test_of q)) listed);
          hears = λ h. ground arith;
        })

  for_class-IsKeeping :
      (class : ConnClass)
      → is_irc class ≡ false
      → IsKeeping (for_class env now c class (record s { class_of = update s.class_of c class }))
  unfolding for_class
  for_class-IsKeeping conn_class_bnet i =
      classed-IsKeeping c conn_class_bnet s v there opened _ become_bnet-IsClassed
  for_class-IsKeeping conn_class_bot i = classed-IsKeeping c conn_class_bot s v there opened _ (
      ask_name-IsClassed c conn_class_bot s v there opened env _ (
        start_nullmsg-IsClassed c conn_class_bot s v there opened env now _ late m
          (reclassed-IsClassed c conn_class_bot s v there opened refl refl)))
  for_class-IsKeeping conn_class_telnet i =
      classed-IsKeeping c conn_class_telnet s v there opened _ (
        ask_name-IsClassed c conn_class_telnet s v there opened env _
          (reclassed-IsClassed c conn_class_telnet s v there opened refl refl))
  for_class-IsKeeping conn_class_init i =
      classed-IsKeeping c conn_class_init s v there opened _
        (reclassed-IsClassed c conn_class_init s v there opened refl refl)
  for_class-IsKeeping conn_class_defer i =
      classed-IsKeeping c conn_class_defer s v there opened _
        (reclassed-IsClassed c conn_class_defer s v there opened refl refl)
  for_class-IsKeeping conn_class_file i =
      classed-IsKeeping c conn_class_file s v there opened _
        (reclassed-IsClassed c conn_class_file s v there opened refl refl)
  for_class-IsKeeping conn_class_bits i =
      classed-IsKeeping c conn_class_bits s v there opened _
        (reclassed-IsClassed c conn_class_bits s v there opened refl refl)
  for_class-IsKeeping conn_class_remote i =
      classed-IsKeeping c conn_class_remote s v there opened _
        (reclassed-IsClassed c conn_class_remote s v there opened refl refl)
  for_class-IsKeeping conn_class_auth i =
      classed-IsKeeping c conn_class_auth s v there opened _
        (reclassed-IsClassed c conn_class_auth s v there opened refl refl)
  for_class-IsKeeping conn_class_irc i = ground arith
  for_class-IsKeeping conn_class_d2cs_bnetd i =
      classed-IsKeeping c conn_class_d2cs_bnetd s v there opened _
        (reclassed-IsClassed c conn_class_d2cs_bnetd s v there opened refl refl)
  for_class-IsKeeping conn_class_none i =
      classed-IsKeeping c conn_class_none s v there opened _
        (reclassed-IsClassed c conn_class_none s v there opened refl refl)

  pub conn_set_class-IsKeeping :
      (class : ConnClass) → is_irc class ≡ false → IsKeeping (conn_set_class env now c class s)
  unfolding conn_set_class
  conn_set_class-IsKeeping class i =
      elim (Bool-cases (class_number (s.class_of c) == class_number class)) [
        | inl e ↦ rw (e, conn_set_class) v
        | inr e ↦ rw (e, conn_set_class) (for_class-IsKeeping class i)
      ]

  pub accept_irc-IsKeeping : IsKeeping (accept_irc env now c s)
  unfolding accept_irc conn_set_state conn_set_class for_class
  accept_irc-IsKeeping =
      rw (open_not_irc (s.class_of c) opened, accept_irc)
        (classed-IsKeeping c conn_class_irc s v there opened _ (record {
          dated = v.dated;
          alive = refl;
          class_is = refl;
          state_is = λ q h. ground (arith, h);
          timed = λ q h. refl;
          tested = λ q. ground arith;
          hears = λ h. ground arith;
        }))
