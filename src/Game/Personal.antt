-- ===== src/Game/Personal.antt =====
-- What a finished game adds to the record of each of its players.
use bnetd.Prelude.{
  ℕ, ◌≤◌, ◌≡◌, refl, ◌&&◌, ◌||◌, not, Bool, true, false, List, [], ◌∷◌, Option, if◌then◌else◌,
  arith,
}
use bnetd.Game.{Slot, GameResult, no_result, win, loss, draw, disconnect, observer, playing}
use bnetd.Game.Report.{
  AccountOp, init_account, last_result, last_time, Standing, normal, on_ladder, inc_wins,
  inc_losses, inc_draws, inc_disconnects, LadderId, normal_ops, normal_loop, ladder_ops,
  ladder_loop,
}
use bnetd.Game.Credits.{
  ops_of, is_win, is_loss, is_draw, is_disconnect, is_other, counts_win, counts_loss, counts_draw,
  counts_disconnect,
}

-- The record that an operation is for.
abbrev pub record_of : AccountOp → Standing
record_of (init_account id) = on_ladder id
record_of (inc_wins at) = at
record_of (inc_losses at) = at
record_of (inc_draws at) = at
record_of (inc_disconnects at) = at
record_of (last_result at _) = at
record_of (last_time at) = at

abbrev pub AllOf : Standing → List AccountOp → Type 0
AllOf at [] = Unit
AllOf at (o ∷ os) = (record_of o ≡ at) × AllOf at os

-- The results that the operations write as the last one.
unfoldable pub results_of : List AccountOp → List GameResult
results_of [] = []
results_of (last_result at r ∷ os) = r ∷ results_of os
results_of (_ ∷ os) = results_of os

abbrev pub dates : AccountOp → Bool
dates (last_time at) = true
dates _ = false

-- What is written for a player's result.
abbrev outcome : Bool → GameResult → GameResult
outcome d win = win
outcome d loss = loss
outcome d draw = draw
outcome d disconnect = if d then loss else disconnect
outcome d _ = disconnect

-- How often the operations count each result.
abbrev Counts : Bool → GameResult → List AccountOp → Type 0
Counts d r os =
    (ops_of counts_win os ≡ (if is_win r then 1 else 0))
    × (ops_of counts_loss os ≡ (if is_loss r || is_disconnect r && d then 1 else 0))
    × (ops_of counts_draw os ≡ (if is_draw r then 1 else 0))
    × ((if is_other r then 1 else 0) ≤ ops_of counts_disconnect os)
    × (ops_of counts_disconnect os ≤ (if is_other r || is_disconnect r && not d then 1 else 0))
    × (ops_of dates os ≡ 1)

-- What the operations on one account do for a player with a result: they are on one record, count
-- the result there, a disconnect that is no loss once at most, and write the result and the time.
pub record IsPersonal (at : Standing) (discisloss : Bool) (r : GameResult) (os : List AccountOp)
    : Type 0 where
  pub for : AllOf at os
  pub counts : Counts discisloss r os
  pub written : results_of os ≡ outcome discisloss r ∷ []

-- The changes are those of the players' own accounts, one after the other.
abbrev pub AllPersonal : Standing → Bool → List Slot → List (Option ℕ × List AccountOp) → Type 0
AllPersonal at d [] [] = Unit
AllPersonal at d [] (c ∷ ch) = ⊥
AllPersonal at d (s ∷ ss) [] = ⊥
AllPersonal at d (s ∷ ss) ((a, os) ∷ ch) =
    (a ≡ s.player) × IsPersonal at d s.result os × AllPersonal at d ss ch

module _ (id : LadderId) where
  ladder_ops-AllOf : (d : Bool) (r : GameResult) → AllOf (on_ladder id) (ladder_ops id d r)
  unfolding ladder_ops
  ladder_ops-AllOf d no_result = ground arith
  ladder_ops-AllOf d win = ground arith
  ladder_ops-AllOf d loss = ground arith
  ladder_ops-AllOf d draw = ground arith
  ladder_ops-AllOf true disconnect = ground arith
  ladder_ops-AllOf false disconnect = ground arith
  ladder_ops-AllOf d observer = ground arith
  ladder_ops-AllOf d playing = ground arith

  ladder_ops-Counts : (d : Bool) (r : GameResult) → Counts d r (ladder_ops id d r)
  unfolding ladder_ops ops_of
  ladder_ops-Counts d no_result = ground arith
  ladder_ops-Counts d win = ground arith
  ladder_ops-Counts d loss = ground arith
  ladder_ops-Counts d draw = ground arith
  ladder_ops-Counts true disconnect = ground arith
  ladder_ops-Counts false disconnect = ground arith
  ladder_ops-Counts d observer = ground arith
  ladder_ops-Counts d playing = ground arith

  ladder_ops-outcome :
      (d : Bool) (r : GameResult) → results_of (ladder_ops id d r) ≡ outcome d r ∷ []
  unfolding ladder_ops results_of
  ladder_ops-outcome d no_result = refl
  ladder_ops-outcome d win = refl
  ladder_ops-outcome d loss = refl
  ladder_ops-outcome d draw = refl
  ladder_ops-outcome true disconnect = refl
  ladder_ops-outcome false disconnect = refl
  ladder_ops-outcome d observer = refl
  ladder_ops-outcome d playing = refl

normal_ops-AllOf : (d b : Bool) (r : GameResult) → AllOf normal (normal_ops d b r).0
unfolding normal_ops
normal_ops-AllOf d b no_result = ground arith
normal_ops-AllOf d b win = ground arith
normal_ops-AllOf d b loss = ground arith
normal_ops-AllOf d b draw = ground arith
normal_ops-AllOf true b disconnect = ground arith
normal_ops-AllOf false true disconnect = ground arith
normal_ops-AllOf false false disconnect = ground arith
normal_ops-AllOf d b observer = ground arith
normal_ops-AllOf d b playing = ground arith

normal_ops-Counts : (d b : Bool) (r : GameResult) → Counts d r (normal_ops d b r).0
unfolding normal_ops ops_of
normal_ops-Counts d b no_result = ground arith
normal_ops-Counts d b win = ground arith
normal_ops-Counts d b loss = ground arith
normal_ops-Counts d b draw = ground arith
normal_ops-Counts true b disconnect = ground arith
normal_ops-Counts false true disconnect = ground arith
normal_ops-Counts false false disconnect = ground arith
normal_ops-Counts d b observer = ground arith
normal_ops-Counts d b playing = ground arith

normal_ops-outcome :
    (d b : Bool) (r : GameResult) → results_of (normal_ops d b r).0 ≡ outcome d r ∷ []
unfolding normal_ops results_of
normal_ops-outcome d b no_result = refl
normal_ops-outcome d b win = refl
normal_ops-outcome d b loss = refl
normal_ops-outcome d b draw = refl
normal_ops-outcome true b disconnect = refl
normal_ops-outcome false true disconnect = refl
normal_ops-outcome false false disconnect = refl
normal_ops-outcome d b observer = refl
normal_ops-outcome d b playing = refl

pub ladder_loop-AllPersonal :
    (id : LadderId) (d : Bool) (ss : List Slot)
    → AllPersonal (on_ladder id) d ss (ladder_loop id d ss)
unfolding ladder_loop
ladder_loop-AllPersonal id d [] = tt
ladder_loop-AllPersonal id d (s ∷ ss) = (
  refl,
  record {
    for = ladder_ops-AllOf id d s.result;
    counts = ladder_ops-Counts id d s.result;
    written = ladder_ops-outcome id d s.result;
  },
  ladder_loop-AllPersonal id d ss,
)

pub normal_loop-AllPersonal :
    (d disc_set : Bool) (ss : List Slot) → AllPersonal normal d ss (normal_loop d disc_set ss)
unfolding normal_loop
normal_loop-AllPersonal d disc_set [] = tt
normal_loop-AllPersonal d disc_set (s ∷ ss) = (
  refl,
  record {
    for = normal_ops-AllOf d disc_set s.result;
    counts = normal_ops-Counts d disc_set s.result;
    written = normal_ops-outcome d disc_set s.result;
  },
  normal_loop-AllPersonal d (normal_ops d disc_set s.result).1 ss,
)
