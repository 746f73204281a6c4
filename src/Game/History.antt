-- ===== src/Game/History.antt =====
-- Sequences of reports to one game.
use bnetd.Prelude.{
  ℕ, ◌≡◌, ◌∙◌, refl, sym, ap, true, false, ◌==◌, arith, Option-cases, Bool-cases, inl, inr,
}
use bnetd.Prelude.Text.{Text}
use bnetd.Game.{Game, GameResult, no_result}
use bnetd.Game.Results.{
  same_result, position, is_nil, undecided, is_final, write_report, check_result, set_result,
  get_result,
}
use bnetd.Game.Verdict.{
  takes_part, IsReported, check_result-IsReported, position-write_report, slot_result-write_report,
  get_result_at, get_result_absent,
}

-- One report to a game, by either function.
pub data Step : Game → Game → Type 0 where
  checks : (g : Game) (a : ℕ) (r : GameResult) → Step g (check_result g a r).1
  sets :
      (g : Game) (a : ℕ) (r : GameResult) (head body : Text) → Step g (set_result g a r head body).1

pub data Reached (g : Game) : Game → Type 0 where
  start : Reached g g
  later : {x y : Game} → Reached g x → Step x y → Reached g y

-- What was decided in the first game is so in the second.
pub record IsKept (g g' : Game) : Type 0 where
  pub results : (b : ℕ) → undecided (get_result g b) ≡ false → get_result g' b ≡ get_result g b
  pub bad : g.bad ≡ true → g'.bad ≡ true

unchanged : (g : Game) → IsKept g g
unchanged g = record { results = λ b e. refl; bad = λ e. e }

over_two_steps : (x y z : Game) → IsKept x y → IsKept y z → IsKept x z
over_two_steps x y z v w = record {
  results = λ b e. w.results b (ap undecided (v.results b e) ∙ e) ∙ v.results b e;
  bad = λ e. w.bad (v.bad e);
}

reported-IsKept :
    (g : Game) (a : ℕ) (r : GameResult) (g' : Game) → IsReported g a r g' → IsKept g g'
reported-IsKept g a r g' t = record {
  results = λ b e.
      let h = t.0 b in
      elim (Bool-cases (a == b)) [
        | inl q ↦
            let same : a ≡ b = ground arith in
            ground (arith, ap (λ x. undecided (get_result g x)) same)
        | inr q ↦ ground arith
      ];
  bad = λ e. ground (arith, t.1);
}

check_result-IsKept : (g : Game) (a : ℕ) (r : GameResult) → IsKept g (check_result g a r).1
unfolding check_result
check_result-IsKept g a r = elim (Bool-cases (is_nil g.slots)) [
  | inl e ↦ rw e (unchanged g)
  | inr e ↦ elim (Bool-cases (same_result r no_result)) [
    | inl f ↦ rw (e, f) (unchanged g)
    | inr f ↦ reported-IsKept g a r (check_result g a r).1 (check_result-IsReported g a r e f).1
  ]
]

-- The texts of reports do not count.
same_record :
    (g : Game) (pos : ℕ) (head body : Text) (b : ℕ)
    → get_result (record g { slots = write_report g.slots pos head body }) b ≡ get_result g b
same_record g pos head body b =
    let g' : Game = record g { slots = write_report g.slots pos head body } in
    let moved = position-write_report g.slots pos head body b in
    elim (Option-cases (position g.slots b)) [
      | inl e ↦ get_result_absent g' b (moved ∙ e) ∙ sym (get_result_absent g b e)
      | inr (q, e) ↦
          get_result_at g' b q (moved ∙ e)
          ∙ slot_result-write_report g.slots pos q head body
          ∙ sym (get_result_at g b q e)
    ]

set_result-IsKept :
    (g : Game) (a : ℕ) (r : GameResult) (head body : Text) → IsKept g (set_result g a r head body).1
unfolding set_result
set_result-IsKept g a r head body = elim (Bool-cases (is_nil g.slots)) [
  | inl e ↦ rw e (unchanged g)
  | inr e ↦ elim (Bool-cases (is_final r)) [
    | inr f ↦ rw (e, f) (unchanged g)
    | inl f ↦ elim (Option-cases (position g.slots a)) [
      | inl p ↦ rw (e, f, p) (unchanged g)
      | inr (pos, p) ↦
          let g' : Game = record g { slots = write_report g.slots pos head body } in
          rw (e, f, p)
            (over_two_steps g g' (check_result g' a r).1
              (record { results = λ b q. same_record g pos head body b; bad = λ q. q })
              (check_result-IsKept g' a r))
    ]
  ]
]

Step-IsKept : (g g' : Game) → Step g g' → IsKept g g'
Step-IsKept _ _ (checks g a r) = check_result-IsKept g a r
Step-IsKept _ _ (sets g a r head body) = set_result-IsKept g a r head body

-- Through any sequence of reports a decided result stays as it is, and a bad game stays bad.
Reached-IsKept : (g g' : Game) → Reached g g' → IsKept g g'
Reached-IsKept g _ start = unchanged g
Reached-IsKept g _ (later {x} {y} before step) =
    over_two_steps g x y (Reached-IsKept g x before) (Step-IsKept x y step)

eq_of_same : (x y : GameResult) → same_result x y ≡ true → x ≡ y
eq_of_same x y e = ground arith

-- A game that a report leaves good has that report on record.
good_after :
    (g g' : Game) (a : ℕ) (r : GameResult)
    → IsReported g a r g'
    → g'.bad ≡ false
    → (takes_part g a ≡ true) × (get_result g' a ≡ r)
good_after g g' a r t good =
    let here = t.0 a in
    let why = t.1 in
    let takes : takes_part g a ≡ true = ground arith in
    (
      takes,
      elim (Bool-cases (undecided (get_result g a))) [
        | inl u ↦ ground arith
        | inr u ↦
            let old : get_result g a ≡ r = eq_of_same (get_result g a) r (ground arith) in
            ground arith
      ],
    )

-- If a decided result was reported for an account and the game is not bad after any further
-- reports, then the account takes part in the game and the result is the one on record.
pub get_result-Reached :
    (g g' : Game) (a : ℕ) (r : GameResult)
    → is_nil g.slots ≡ false
    → undecided r ≡ false
    → Reached (check_result g a r).1 g'
    → g'.bad ≡ false
    → (takes_part g a ≡ true) × (get_result g' a ≡ r)
get_result-Reached g g' a r players decided h good =
    let t = check_result-IsReported g a r players (real r decided) in
    let kept = Reached-IsKept (check_result g a r).1 g' h in
    let bad : (check_result g a r).1.bad ≡ false = ground (arith, kept.bad) in
    let on_record = good_after g (check_result g a r).1 a r t.1 bad in
    (on_record.0, kept.results a (ap undecided on_record.1 ∙ decided) ∙ on_record.1)
  where
    real : (x : GameResult) → undecided x ≡ false → same_result x no_result ≡ false
    real x e = ground arith
