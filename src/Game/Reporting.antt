-- ===== src/Game/Reporting.antt =====
-- `game_report` as a whole, from the slots of a finished game to the changes of its accounts.
use bnetd.Prelude.{
  ℕ, zero, suc, ◌-◌, ◌<◌, ◌≡◌, refl, ap, ◌∙◌, Bool, true, false, ◌||◌, List, [], ◌∷◌, ◌++◌, map,
  ◌==◌, if◌then◌else◌, arith, length, take, length-map, replicate, Option,
}
use mathlib.Core.Path.{subst}
use bnetd.Game.{Game, Slot, GameType, GameResult, ladder, ironman}
use bnetd.Game.Results.{is_nil}
use bnetd.Game.Report.{
  AccountOp, Standing, normal, on_ladder, normal_ladder, ironman_ladder, account_changes, front,
  is_diablo, compact, is_zero_count, to_file, report,
}
use bnetd.Game.Compaction.{reals, contents, compact-IsCompacted, nobody}
use bnetd.Game.Credits.{
  number, is_win, is_loss, is_draw, is_disconnect, is_other, at_most_one, IsCredited,
  ladder_loop-IsCredited, normal_loop-IsCredited,
}
use bnetd.Game.Personal.{IsPersonal, AllPersonal, ladder_loop-AllPersonal, normal_loop-AllPersonal}

abbrev pub is_ladder_kind : GameType → Bool
is_ladder_kind ladder = true
is_ladder_kind ironman = true
is_ladder_kind _ = false

-- How many disconnects are counted as such, of those that there are.
abbrev pub counted : GameType → ℕ → ℕ
counted type n = if is_ladder_kind type then n else at_most_one n

account_changes-IsCredited :
    (type : GameType) (discisloss : Bool) (ss : List Slot)
    → IsCredited discisloss
        (counted type (number is_disconnect ss))
        ss
        (account_changes type discisloss ss)
unfolding account_changes
account_changes-IsCredited ladder d ss = ladder_loop-IsCredited normal_ladder d ss
account_changes-IsCredited ironman d ss = ladder_loop-IsCredited ironman_ladder d ss
account_changes-IsCredited _ d ss = normal_loop-IsCredited d ss

-- The record of a player that a game of the type counts in.
abbrev pub standing_of : GameType → Standing
standing_of ladder = on_ladder normal_ladder
standing_of ironman = on_ladder ironman_ladder
standing_of _ = normal

account_changes-AllPersonal :
    (type : GameType) (discisloss : Bool) (ss : List Slot)
    → AllPersonal (standing_of type) discisloss ss (account_changes type discisloss ss)
unfolding account_changes
account_changes-AllPersonal ladder d ss = ladder_loop-AllPersonal normal_ladder d ss
account_changes-AllPersonal ironman d ss = ladder_loop-AllPersonal ironman_ladder d ss
account_changes-AllPersonal _ d ss = normal_loop-AllPersonal d false ss

same_persons :
    (at : Standing) (d : Bool) (xs ys : List Slot) (ch : List (Option ℕ × List AccountOp))
    → map contents xs ≡ map contents ys
    → AllPersonal at d xs ch
    → AllPersonal at d ys ch
same_persons at d [] [] [] e a = tt
same_persons at d [] (y ∷ ys) ch e a = ground arith
same_persons at d (x ∷ xs) [] ch e a = ground arith
same_persons at d [] [] (c ∷ ch) e a = absurd a
same_persons at d (x ∷ xs) (y ∷ ys) [] e a = absurd a
same_persons at d (x ∷ xs) (y ∷ ys) ((who, os) ∷ ch) e a = (
  cc (a.0, e),
  subst (λ r. IsPersonal at d r os) (cc e) a.1,
  same_persons at d xs ys ch (cc e) a.2,
)

number-contents :
    (p : GameResult → Bool) (xs ys : List Slot)
    → map contents xs ≡ map contents ys
    → number p xs ≡ number p ys
unfolding number
number-contents p [] [] e = refl
number-contents p [] (y ∷ ys) e = ground arith
number-contents p (x ∷ xs) [] e = ground arith
number-contents p (x ∷ xs) (y ∷ ys) e = ground (arith, number-contents p xs ys)

contents-front : (k : ℕ) (xs : List Slot) → map contents (front k xs) ≡ take k (map contents xs)
contents-front zero xs = refl
contents-front (suc k) [] = refl
contents-front (suc k) (x ∷ xs) = ap (λ t. contents x ∷ t) (contents-front k xs)

take-append {ℓ} : {A : Type ℓ} (xs ys : List A) → take (length xs) (xs ++ ys) ≡ xs
take-append [] ys = refl
take-append (x ∷ xs) ys = ap (λ t. x ∷ t) (take-append xs ys)

front-compact :
    (ss : List Slot) → map contents (front (compact ss).0 (compact ss).1) ≡ map contents (reals ss)
front-compact ss =
    let c = compact-IsCompacted ss in
    contents-front (compact ss).0 (compact ss).1
    ∙ cc (
      c.players,
      c.count,
      length-map (reals ss) contents,
      take-append (map contents (reals ss)) (replicate (length ss - length (reals ss)) nobody),
    )

same_credits :
    (type : GameType) (d : Bool) (xs ys : List Slot) {ch : List (Option ℕ × List AccountOp)}
    → map contents xs ≡ map contents ys
    → IsCredited d (counted type (number is_disconnect xs)) xs ch
    → IsCredited d (counted type (number is_disconnect ys)) ys ch
same_credits type d xs ys e c = record {
  wins = c.wins ∙ number-contents is_win xs ys e;
  losses =
      ground
        (arith, c.losses, number-contents is_loss xs ys e, number-contents is_disconnect xs ys e);
  draws = c.draws ∙ number-contents is_draw xs ys e;
  disconnected = ground (
    arith,
    c.disconnected,
    number-contents is_other xs ys e,
    number-contents is_disconnect xs ys e,
  );
}

-- A finished game that is reported: it is a game of four-letter tag other than Diablo, has not
-- turned bad, and somebody has a result.
pub record IsReportable (g : Game) : Type 0 where
  pub tag : length g.clienttag ≡ 4
  pub no_diablo : is_diablo g.clienttag ≡ false
  pub good : g.bad ≡ false
  pub somebody : 0 < length (reals g.slots)

four : (n : ℕ) → n ≡ 4 → (n == 4) ≡ true
four n e = ground arith

counts : (n : ℕ) → 0 < n → is_zero_count n ≡ false
counts zero h = absurd (omega arith)
counts (suc n) h = refl

reals-nil : (ss : List Slot) → 0 < length (reals ss) → is_nil ss ≡ false
unfolding reals
reals-nil [] h = absurd (omega arith)
reals-nil (s ∷ ss) h = refl

-- Such a game gets to its report file with all its real players. The wins, losses and draws that
-- are added to accounts are as many as there are players with that result, disconnects among the
-- losses if they count as such. Otherwise the disconnects added are those of the players, all of
-- them on a ladder and one at most in another game. One more is added for each observer and each
-- player that was still playing. Each change is for the account and the result of one player, in
-- the record that the type of game has: the players follow one another as in the slots. It counts
-- that result and writes it there with the time, a disconnect as a loss if those are losses, and
-- what is not decided as a disconnect.
pub report-IsCredited :
    (disc_pref diablo_pref : Bool) (g : Game)
    → IsReportable g
    → (ss : List Slot) × (ch : List (Option ℕ × List AccountOp)) × (report disc_pref diablo_pref g
        ≡ to_file (length (reals g.slots)) ss ch)
      × IsCredited
          (disc_pref || g.countasloss)
          (counted g.type (number is_disconnect (reals g.slots)))
          (reals g.slots)
          ch
      × AllPersonal (standing_of g.type) (disc_pref || g.countasloss) (reals g.slots) ch
unfolding report
report-IsCredited disc_pref diablo_pref g h =
    let c = compact-IsCompacted g.slots in
    let d = disc_pref || g.countasloss in
    let fr = front (compact g.slots).0 (compact g.slots).1 in
    (
      (compact g.slots).1,
      account_changes g.type d fr,
      rw
          (
            four (length g.clienttag) h.tag,
            reals-nil g.slots h.somebody,
            h.no_diablo,
            counts (compact g.slots).0 (rw c.count h.somebody),
            h.good,
          )
          (ap (λ n. to_file n (compact g.slots).1 (account_changes g.type d fr)) c.count),
      same_credits g.type d fr (reals g.slots) (front-compact g.slots)
          (account_changes-IsCredited g.type d fr),
      same_persons (standing_of g.type) d fr (reals g.slots) (account_changes g.type d fr)
          (front-compact g.slots) (account_changes-AllPersonal g.type d fr),
    )
