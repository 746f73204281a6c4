-- ===== src/Timers/Pending.antt =====
-- How many timers of a kind are pending, and what a traversal does to that.
use bnetd.Prelude.{
  ℕ, ◌+◌, ◌<◌, ◌≡◌, refl, sym, ap, ◌∙◌, Bool, true, false, ◌&&◌, not, List, [], ◌∷◌, ◌++◌, ◌==◌,
  ltb, if◌then◌else◌, arith, Bool-cases, inl, inr,
}
use mathlib.Core.Path.{subst}
use bnetd.Timers.{
  Callback, test_latency, send_nullmsg, user_timer, Timer, Clock, Env, timerlist_check_timers,
  timerlist_del_all_timers,
}
use bnetd.Timers.Swept.{
  those, period, again, renewal, renewals, check_timers-IsSwept, del_all_timers-IsSwept,
}

unfoldable pub count : (Timer → Bool) → List Timer → ℕ
count test [] = 0
count test (t ∷ ts) = if test t then 1 + count test ts else count test ts

-- The timer belongs to the connection, and is one for its latency.
abbrev pub of_conn : ℕ → Timer → Bool
of_conn c t = t.owner == c

abbrev pub is_latency : Callback → Bool
is_latency (test_latency delta) = true
is_latency (send_nullmsg delta) = false
is_latency (user_timer str) = false

abbrev pub test_of : ℕ → Timer → Bool
test_of c t = t.owner == c && is_latency t.cb

-- No timer is set for the time 0.
abbrev pub AllDated : List Timer → Type 0
AllDated [] = Unit
AllDated (t ∷ ts) = (0 < t.when) × AllDated ts

count-append :
    (p : Timer → Bool) (ts us : List Timer) → count p (ts ++ us) ≡ count p ts + count p us
unfolding count
count-append p [] us = omega arith
count-append p (t ∷ ts) us = ground (arith, count-append p ts us)

count_split :
    (p q : Timer → Bool) (ts : List Timer)
    → count p (those q ts) + count p (those (λ t. not (q t)) ts) ≡ count p ts
unfolding count those
count_split p q [] = refl
count_split p q (t ∷ ts) = ground (arith, count_split p q ts)

pub count_nil : (p : Timer → Bool) → count p [] ≡ 0
unfolding count
count_nil p = refl

count_others :
    (o : ℕ) (ts : List Timer) → count (of_conn o) (those (λ t. not (t.owner == o)) ts) ≡ 0
unfolding count those
count_others o [] = refl
count_others o (t ∷ ts) = ground (arith, count_others o ts)

count_else :
    (c o : ℕ) (ts : List Timer)
    → (o == c) ≡ false
    → count (test_of c) (those (λ t. t.owner == o) ts) ≡ 0
unfolding count those
count_else c o [] h = refl
count_else c o (t ∷ ts) h = ground (arith, count_else c o ts)

-- With memory, each test of latency is set again; a timer is set for nobody else.
count_renewal :
    (c o when : ℕ) (cb : Callback) (now : ℕ)
    → 0 < now
    → let t : Timer = record { owner = o; when = when; cb = cb } in
      count (test_of c) (renewal true t now) ≡ (if test_of c t then 1 else 0)
unfolding count renewal
count_renewal c o when (test_latency delta) now h = ground arith
count_renewal c o when (send_nullmsg delta) now h = ground arith
count_renewal c o when (user_timer str) now h = ground arith

count_renewals :
    (c : ℕ) (ts added : List Timer)
    → AllDated ts
    → count (test_of c) (renewals true (λ t. t.when) ts added)
      ≡ count (test_of c) ts + count (test_of c) added
unfolding count renewals
count_renewals c [] added d = omega arith
count_renewals c (t ∷ ts) added d = ground (
  arith,
  count_renewals c ts (renewal true t t.when ++ added) d.1,
  count-append (test_of c) (renewal true t t.when) added,
  count_renewal c t.owner t.when t.cb t.when d.0,
)

nobody_renewal :
    (c : ℕ) (mem : Bool) (o when : ℕ) (cb : Callback) (now : ℕ)
    → (o == c) ≡ false
    → count (of_conn c) (renewal mem (record { owner = o; when = when; cb = cb }) now) ≡ 0
unfolding count renewal
nobody_renewal c mem o when (test_latency delta) now h = ground arith
nobody_renewal c mem o when (send_nullmsg delta) now h = ground arith
nobody_renewal c mem o when (user_timer str) now h = ground arith

nobody_renewals :
    (c : ℕ) (mem : Bool) (ts added : List Timer)
    → count (of_conn c) ts ≡ 0
    → count (of_conn c) added ≡ 0
    → count (of_conn c) (renewals mem (λ t. t.when) ts added) ≡ 0
unfolding count renewals
nobody_renewals c mem [] added h g = g
nobody_renewals c mem (t ∷ ts) added h g =
    let other : (t.owner == c) ≡ false = ground arith in
    nobody_renewals c mem ts (renewal mem t t.when ++ added) (ground arith) (
      ground (
        arith,
        count-append (of_conn c) (renewal mem t t.when) added,
        nobody_renewal c mem t.owner t.when t.cb t.when other,
      ))

no_renewals : (mem : Bool) (ts added : List Timer) → renewals mem (λ t. 0) ts added ≡ added
unfolding renewals renewal
no_renewals mem [] added = refl
no_renewals mem (t ∷ ts) added = ground (arith, no_renewals mem ts added)

AllDated-append : (ts us : List Timer) → AllDated ts → AllDated us → AllDated (ts ++ us)
AllDated-append [] us d e = e
AllDated-append (t ∷ ts) us d e = (d.0, AllDated-append ts us d.1 e)

AllDated-those : (q : Timer → Bool) (ts : List Timer) → AllDated ts → AllDated (those q ts)
unfolding those
AllDated-those q [] d = tt
AllDated-those q (t ∷ ts) d = elim (Bool-cases (q t)) [
  | inl e ↦ rw e (d.0, AllDated-those q ts d.1)
  | inr e ↦ rw e (AllDated-those q ts d.1)
]

AllDated-again : (t : Timer) (now : ℕ) (ds : List ℕ) → 0 < now → AllDated (again t now ds)
AllDated-again t now [] h = tt
AllDated-again t now (delta ∷ ds) h = (omega arith, tt)

AllDated-renewal : (mem : Bool) (t : Timer) (now : ℕ) → AllDated (renewal mem t now)
unfolding renewal
AllDated-renewal false t now = tt
AllDated-renewal true t now = elim (Bool-cases (now == 0)) [
  | inl e ↦ rw e tt
  | inr e ↦ rw e (AllDated-again t now (period t.cb) (ground arith))
]

AllDated-renewals :
    (mem : Bool) (time_of : Timer → ℕ) (ts added : List Timer)
    → AllDated added
    → AllDated (renewals mem time_of ts added)
unfolding renewals
AllDated-renewals mem time_of [] added d = d
AllDated-renewals mem time_of (t ∷ ts) added d =
    AllDated-renewals mem time_of ts (renewal mem t (time_of t) ++ added)
      (AllDated-append (renewal mem t (time_of t)) added (AllDated-renewal mem t (time_of t)) d)

-- Of the invariants that a traversal keeps: the dates, and that a connection without timers has
-- none after it. If all timers that go off are given their own time, the tests stay as many.
module _ (env : Env) where
  pub check_pending :
      (when : ℕ) (s : Clock)
      → AllDated s.timers
      → let s' = timerlist_check_timers env when s in
        AllDated s'.timers
        × ((c : ℕ) → count (of_conn c) s.timers ≡ 0 → count (of_conn c) s'.timers ≡ 0)
        × (env.mem ≡ true → (c : ℕ) → count (test_of c) s'.timers ≡ count (test_of c) s.timers)
  check_pending when s d =
      let due : Timer → Bool = λ t. ltb t.when when in
      let swept = check_timers-IsSwept env when s in
      let gone = those due s.timers in
      let stay = those (λ t. not (due t)) s.timers in
      let new = renewals env.mem (λ t. t.when) gone [] in
      (
        subst AllDated (sym swept.left) (
            AllDated-append new stay (AllDated-renewals env.mem (λ t. t.when) gone [] tt)
              (AllDated-those _ s.timers d)),
        λ c none_there.
            let none_gone : count (of_conn c) gone ≡ 0 =
              omega (arith, count_split (of_conn c) due s.timers, none_there) in
            ap (count (of_conn c)) swept.left
            ∙ omega (
              arith,
              count-append (of_conn c) new stay,
              count_split (of_conn c) due s.timers,
              none_there,
              nobody_renewals c env.mem gone [] none_gone (count_nil (of_conn c)),
            ),
        λ enough c.
            let again_set =
              ap (λ m. count (test_of c) (renewals m (λ t. t.when) gone [])) enough
              ∙ count_renewals c gone [] (AllDated-those due s.timers d) in
            ap (count (test_of c)) swept.left
            ∙ omega (
              arith,
              count-append (test_of c) new stay,
              count_split (test_of c) due s.timers,
              again_set,
              count_nil (test_of c),
            ),
      )

  pub del_pending :
      (owner : ℕ) (s : Clock)
      → AllDated s.timers
      → let s' = timerlist_del_all_timers env owner s in
        AllDated s'.timers
        × (count (of_conn owner) s'.timers ≡ 0)
        × ((c : ℕ) → count (of_conn c) s.timers ≡ 0 → count (of_conn c) s'.timers ≡ 0)
        × ((c : ℕ)
            → (owner == c) ≡ false
            → count (test_of c) s'.timers ≡ count (test_of c) s.timers)
  del_pending owner s d =
      let due : Timer → Bool = λ t. t.owner == owner in
      let swept = del_all_timers-IsSwept env owner s in
      let stay = those (λ t. not (due t)) s.timers in
      let left : (timerlist_del_all_timers env owner s).timers ≡ stay =
        swept.left ∙ ap (λ l. l ++ stay) (no_renewals env.mem (those due s.timers) []) in
      (
        subst AllDated (sym left) (AllDated-those (λ t. not (due t)) s.timers d),
        ap (count (of_conn owner)) left ∙ count_others owner s.timers,
        λ c none_there.
            ap (count (of_conn c)) left
            ∙ omega (arith, count_split (of_conn c) due s.timers, none_there),
        λ c other.
            ap (count (test_of c)) left
            ∙ omega
                (arith, count_split (test_of c) due s.timers, count_else c owner s.timers other),
      )
