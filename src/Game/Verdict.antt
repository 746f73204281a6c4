-- ===== src/Game/Verdict.antt =====
-- What reports do to the recorded result of each player.
use bnetd.Prelude.{
  ℕ, zero, suc, ◌≡◌, refl, sym, ap, map, ◌∙◌, Bool, true, false, ◌&&◌, ◌||◌, not, List, [], ◌∷◌,
  Option, none, some, ◌==◌, if◌then◌else◌, arith, Option-cases, inl, inr,
}
use mathlib.Core.Path.{subst}
use bnetd.Prelude.Text.{Text}
use bnetd.Game.{Game, Slot, ok, GameResult, no_result}
use bnetd.Game.Results.{
  same_result, position, is_nil, undecided, judge, slot_result, write_result, check_result,
  write_report, get_result,
}

abbrev pub is_found : Option ℕ → Bool
is_found none = false
is_found (some i) = true

-- The account has a slot in the game.
abbrev pub takes_part : Game → ℕ → Bool
takes_part g a = is_found (position g.slots a)

position-write_result :
    (ss : List Slot) (i : ℕ) (r : GameResult) (a : ℕ)
    → position (write_result ss i r) a ≡ position ss a
unfolding position write_result
position-write_result [] i r a = refl
position-write_result (s ∷ ss) zero r a = refl
position-write_result (s ∷ ss) (suc i) r a = rw (position-write_result ss i r a)

pub position-write_report :
    (ss : List Slot) (i : ℕ) (h b : Text) (a : ℕ)
    → position (write_report ss i h b) a ≡ position ss a
unfolding position write_report
position-write_report [] i h b a = refl
position-write_report (s ∷ ss) zero h b a = refl
position-write_report (s ∷ ss) (suc i) h b a = rw (position-write_report ss i h b a)

pub slot_result-write_report :
    (ss : List Slot) (i j : ℕ) (h b : Text)
    → slot_result (write_report ss i h b) j ≡ slot_result ss j
unfolding slot_result write_report
slot_result-write_report [] i j h b = refl
slot_result-write_report (s ∷ ss) zero zero h b = refl
slot_result-write_report (s ∷ ss) zero (suc j) h b = refl
slot_result-write_report (s ∷ ss) (suc i) zero h b = refl
slot_result-write_report (s ∷ ss) (suc i) (suc j) h b = slot_result-write_report ss i j h b

-- Two accounts at one position are one.
position_unique :
    (ss : List Slot) (a b i : ℕ) → position ss a ≡ some i → position ss b ≡ some i → a ≡ b
unfolding position
position_unique [] a b i p q = ground arith
position_unique (s ∷ ss) a b i p q = elim (Option-cases (position ss a)) [
  | inl e ↦ elim (Option-cases (position ss b)) [ inl f ↦ ground arith | inr (k, f) ↦ ground arith ]
  | inr (j, e) ↦ elim (Option-cases (position ss b)) [
    | inl f ↦ ground arith
    | inr (k, f) ↦ position_unique ss a b j e (ground arith)
  ]
]

slot_result-write_result :
    (ss : List Slot) (a i j : ℕ) (r : GameResult)
    → position ss a ≡ some i
    → slot_result (write_result ss i r) j ≡ (if j == i then r else slot_result ss j)
unfolding position slot_result write_result
slot_result-write_result [] a i j r p = ground arith
slot_result-write_result (s ∷ ss) a zero zero r p = refl
slot_result-write_result (s ∷ ss) a zero (suc j) r p = ground arith
slot_result-write_result (s ∷ ss) a (suc i) zero r p = ground arith
slot_result-write_result (s ∷ ss) a (suc i) (suc j) r p =
    ground (arith, slot_result-write_result ss a i j r)

judge_lem :
    (old new : GameResult)
    → judge old new
      ≡ (if undecided old then new else old, not (undecided old) && not (same_result old new))
unfolding judge
judge_lem old new = ground arith

-- A slot's result is not looked at, nor whether the game is bad.
abbrev pub without_result : Slot → Slot
without_result s = record s { result = no_result }

abbrev pub apart_from_results : Game → Game
apart_from_results g = record g { slots = map without_result g.slots; bad = false }

abbrev pub is_at : Option ℕ → ℕ → Bool
is_at none i = false
is_at (some pos) i = i == pos

map-write_result :
    (ss : List Slot) (i : ℕ) (r : GameResult)
    → map without_result (write_result ss i r) ≡ map without_result ss
unfolding write_result
map-write_result [] i r = refl
map-write_result (s ∷ ss) zero r = refl
map-write_result (s ∷ ss) (suc i) r = ap (λ t. without_result s ∷ t) (map-write_result ss i r)

-- What a report of `r` on the account makes of a game in which the account stands at `old`.
abbrev pub IsReported : Game → ℕ → GameResult → Game → Type 0
IsReported g a r g' =
    ((b : ℕ)
      → get_result g' b
        ≡ (if takes_part g a && (a == b && undecided (get_result g a)) then r else get_result g b))
    × (g'.bad ≡ (
        g.bad
        || (not (takes_part g a)
            || not (undecided (get_result g a)) && not (same_result (get_result g a) r))))
    × ((i : ℕ)
        → slot_result g'.slots i ≡ (
            if is_at (position g.slots a) i && undecided (get_result g a)
            then r
            else slot_result g.slots i))
    × (apart_from_results g' ≡ apart_from_results g)

check_result_absent :
    (g : Game) (a : ℕ) (r : GameResult)
    → position g.slots a ≡ none
    → IsReported g a r (record g { bad = true })
unfolding get_result
check_result_absent g a r p = (λ b. ground (arith, p), ground (arith, p), λ i. rw p refl, refl)

pub get_result_at :
    (g : Game) (b : ℕ) (q : ℕ)
    → position g.slots b ≡ some q
    → get_result g b ≡ slot_result g.slots q
unfolding get_result
get_result_at g b q e = rw (e, get_result)

pub get_result_absent : (g : Game) (b : ℕ) → position g.slots b ≡ none → get_result g b ≡ no_result
unfolding get_result
get_result_absent g b e = rw (e, get_result)

module _ (g : Game) (a : ℕ) (r : GameResult) (pos : ℕ) (p : position g.slots a ≡ some pos) where
  abbrev verdict : GameResult × Bool
  verdict = judge (slot_result g.slots pos) r

  abbrev recorded : Game
  recorded = record g { slots = write_result g.slots pos verdict.0; bad = g.bad || verdict.1 }

  moved : (b : ℕ) → position recorded.slots b ≡ position g.slots b
  moved b = position-write_result g.slots pos verdict.0 b

  recorded_result :
      (b : ℕ)
      → get_result recorded b
        ≡ (if takes_part g a && (a == b && undecided (get_result g a)) then r else get_result g b)
  recorded_result b = elim (Option-cases (position g.slots b)) [
    | inl e ↦ ground (arith, get_result_absent recorded b (moved b ∙ e), get_result_absent g b e)
    | inr (q, e) ↦ ground (
      arith,
      get_result_at recorded b q (moved b ∙ e),
      get_result_at g b q e,
      get_result_at g a pos p,
      slot_result-write_result g.slots a pos q verdict.0 p,
      position_unique g.slots a b pos p,
      judge_lem (slot_result g.slots pos) r,
    )
  ]

  recorded_slot :
      (i : ℕ)
      → slot_result recorded.slots i ≡ (
          if is_at (position g.slots a) i && undecided (get_result g a)
          then r
          else slot_result g.slots i)
  recorded_slot i = ground (
    arith,
    p,
    get_result_at g a pos p,
    slot_result-write_result g.slots a pos i verdict.0 p,
    judge_lem (slot_result g.slots pos) r,
  )

  check_result_present : IsReported g a r recorded
  check_result_present = (
    recorded_result,
    ground (arith, get_result_at g a pos p, judge_lem (slot_result g.slots pos) r),
    recorded_slot,
    ap (λ ss. record g { slots = ss; bad = false }) (map-write_result g.slots pos verdict.0),
  )

-- In a game with players `game_check_result` accepts every result but `game_result_none`. It
-- records the result in the last slot of the account, where that had none or was still playing, and
-- leaves the results in all other slots, and all else that is in the game and its slots, as they
-- were. The game turns bad exactly if the account does not take part in it or a result was decided
-- before and is not the one reported.
pub check_result-IsReported :
    (g : Game) (a : ℕ) (r : GameResult)
    → is_nil g.slots ≡ false
    → same_result r no_result ≡ false
    → let (rc, g') = check_result g a r in (rc ≡ ok) × IsReported g a r g'
unfolding check_result
check_result-IsReported g a r players real = elim (Option-cases (position g.slots a)) [
  | inl e ↦ ends _ (rw (players, real, e, check_result)) (check_result_absent g a r e)
  | inr (pos, e) ↦ ends _ (rw (players, real, e, check_result)) (check_result_present g a r pos e)
]
  where
    ends :
        (g' : Game)
        → check_result g a r ≡ (ok, g')
        → IsReported g a r g'
        → ((check_result g a r).0 ≡ ok) × IsReported g a r (check_result g a r).1
    ends g' run t = subst (λ x. (x.0 ≡ ok) × IsReported g a r x.1) (sym run) (refl, t)
