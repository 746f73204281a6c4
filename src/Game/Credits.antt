-- ===== src/Game/Credits.antt =====
-- What a finished game adds to the records of its players, all together.
use bnetd.Prelude.{
  ℕ, zero, suc, ◌+◌, ◌≡◌, refl, Bool, true, false, List, [], ◌∷◌, Option, if◌then◌else◌, arith,
}
use bnetd.Game.{Slot, GameResult, no_result, win, loss, draw, disconnect, observer, playing}
use bnetd.Game.Report.{
  AccountOp, inc_wins, inc_losses, inc_draws, inc_disconnects, LadderId, normal_ops, normal_loop,
  ladder_ops, ladder_loop,
}

-- How many slots have one of the results.
unfoldable pub number : (GameResult → Bool) → List Slot → ℕ
number p [] = 0
number p (s ∷ ss) = if p s.result then suc (number p ss) else number p ss

-- How many of the calls are of a kind.
unfoldable pub ops_of : (AccountOp → Bool) → List AccountOp → ℕ
ops_of p [] = 0
ops_of p (o ∷ os) = if p o then suc (ops_of p os) else ops_of p os

unfoldable pub tally : (AccountOp → Bool) → List (Option ℕ × List AccountOp) → ℕ
tally p [] = 0
tally p ((a, os) ∷ rest) = ops_of p os + tally p rest

abbrev pub is_win : GameResult → Bool
is_win win = true
is_win _ = false

abbrev pub is_loss : GameResult → Bool
is_loss loss = true
is_loss _ = false

abbrev pub is_draw : GameResult → Bool
is_draw draw = true
is_draw _ = false

abbrev pub is_disconnect : GameResult → Bool
is_disconnect disconnect = true
is_disconnect _ = false

-- Neither won, lost, drawn nor disconnected.
abbrev pub is_other : GameResult → Bool
is_other observer = true
is_other playing = true
is_other no_result = true
is_other _ = false

abbrev pub counts_win : AccountOp → Bool
counts_win (inc_wins s) = true
counts_win _ = false

abbrev pub counts_loss : AccountOp → Bool
counts_loss (inc_losses s) = true
counts_loss _ = false

abbrev pub counts_draw : AccountOp → Bool
counts_draw (inc_draws s) = true
counts_draw _ = false

abbrev pub counts_disconnect : AccountOp → Bool
counts_disconnect (inc_disconnects s) = true
counts_disconnect _ = false

abbrev pub at_most_one : ℕ → ℕ
at_most_one zero = 0
at_most_one (suc n) = 1

-- The sums over the real players.
pub record IsCredited (discisloss : Bool) (disconnects : ℕ) (ss : List Slot)
    (changes : List (Option ℕ × List AccountOp)) : Type 0 where
  pub wins : tally counts_win changes ≡ number is_win ss
  pub losses :
      tally counts_loss changes
      ≡ number is_loss ss + (if discisloss then number is_disconnect ss else 0)
  pub draws : tally counts_draw changes ≡ number is_draw ss
  pub disconnected :
      tally counts_disconnect changes ≡ number is_other ss + (if discisloss then 0 else disconnects)

-- In a ladder game every disconnect counts.
pub ladder_loop-IsCredited :
    (id : LadderId) (discisloss : Bool) (ss : List Slot)
    → IsCredited discisloss (number is_disconnect ss) ss (ladder_loop id discisloss ss)
unfolding ladder_loop ladder_ops tally ops_of number
ladder_loop-IsCredited id discisloss [] = record {
  wins = refl;
  losses = ground arith;
  draws = refl;
  disconnected = ground arith;
}
ladder_loop-IsCredited id discisloss (s ∷ ss) =
    let ih = ladder_loop-IsCredited id discisloss ss in
    record {
      wins = ground (arith, ih.wins);
      losses = ground (arith, ih.losses);
      draws = ground (arith, ih.draws);
      disconnected = ground (arith, ih.disconnected);
    }

-- In any other game, unless disconnecting counts as a loss, only the first disconnect counts.
normal_loop-IsCredited_from :
    (discisloss disc_set : Bool) (ss : List Slot)
    → IsCredited discisloss
        (if disc_set then 0 else at_most_one (number is_disconnect ss))
        ss
        (normal_loop discisloss disc_set ss)
unfolding normal_loop normal_ops tally ops_of number
normal_loop-IsCredited_from discisloss disc_set [] = record {
  wins = refl;
  losses = ground arith;
  draws = refl;
  disconnected = ground arith;
}
normal_loop-IsCredited_from discisloss disc_set (s ∷ ss) =
    let ih = normal_loop-IsCredited_from discisloss disc_set ss in
    let done = normal_loop-IsCredited_from discisloss true ss in
    record {
      wins = ground (arith, ih.wins, done.wins);
      losses = ground (arith, ih.losses, done.losses);
      draws = ground (arith, ih.draws, done.draws);
      disconnected = ground (arith, ih.disconnected, done.disconnected);
    }

pub normal_loop-IsCredited :
    (discisloss : Bool) (ss : List Slot)
    → IsCredited discisloss
        (at_most_one (number is_disconnect ss))
        ss
        (normal_loop discisloss false ss)
normal_loop-IsCredited discisloss ss = normal_loop-IsCredited_from discisloss false ss
