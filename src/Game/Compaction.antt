-- ===== src/Game/Compaction.antt =====
-- The loops by which `game_report` compacts its arrays in place.
use bnetd.Prelude.{
  ℕ, suc, ◌+◌, ◌-◌, ◌≡◌, refl, sym, ap, ◌∙◌, true, false, List, [], ◌∷◌, ◌++◌, map, Option, none,
  some, if◌then◌else◌, arith, length, get_elem?, length-append, length-map, replicate, Bool-cases,
  inl, inr,
}
use mathlib.Core.Path.{subst}
use mathlib.Core.List.{append_assoc, append-nil, map-append}
use bnetd.Prelude.Text.{Text}
use bnetd.Game.{Slot, GameResult, no_result}
use bnetd.Game.Report.{copy_slot, is_real, copy_to, compact_loop, blank, nuke_from, compact}

-- The real players of a list of slots.
unfoldable pub reals : List Slot → List Slot
reals [] = []
reals (s ∷ ss) = if is_real s then s ∷ reals ss else reals ss

abbrev pub contents : Slot → Option ℕ × GameResult × Option Text × Option Text
contents s = (s.player, s.result, s.report_head, s.report_body)

abbrev pub connection_of : Slot → Option ℕ
connection_of s = s.connection

get_elem?-append :
    (xs : List Slot) (y : Slot) (ys : List Slot) → get_elem? (xs ++ y ∷ ys) (length xs) ≡ some y
get_elem?-append [] y ys = refl
get_elem?-append (x ∷ xs) y ys = get_elem?-append xs y ys

copy_to-append :
    (xs : List Slot) (y : Slot) (ys : List Slot) (s : Slot)
    → copy_to (xs ++ y ∷ ys) (length xs) s ≡ xs ++ copy_slot y s ∷ ys
unfolding copy_to
copy_to-append [] y ys s = refl
copy_to-append (x ∷ xs) y ys s = ap (λ t. x ∷ t) (copy_to-append xs y ys s)

-- `r` is a realcount and slots: those up to the realcount hold `front`, and no connection has
-- moved.
record IsMoved (front all : List Slot) (r : ℕ × List Slot) : Type 0 where
  kept : List Slot
  rest : List Slot
  shape : r ≡ (length kept, kept ++ rest)
  moved : map contents kept ≡ map contents front
  still : map connection_of (kept ++ rest) ≡ map connection_of all

IsMoved-cast :
    {front front' all all' : List Slot} {r r' : ℕ × List Slot}
    → map contents front ≡ map contents front'
    → map connection_of all ≡ map connection_of all'
    → r' ≡ r
    → IsMoved front all r
    → IsMoved front' all' r'
IsMoved-cast p q e t = record {
  kept = t.kept;
  rest = t.rest;
  shape = e ∙ t.shape;
  moved = t.moved ∙ p;
  still = t.still ∙ q;
}

module _ (pre gap : List Slot) (s : Slot) (ss : List Slot) where
  abbrev whole : List Slot
  whole = pre ++ (gap ++ s ∷ ss)

  seen : get_elem? whole (length (pre ++ gap)) ≡ some s
  seen = rw (append_assoc pre gap (s ∷ ss)) at (get_elem?-append (pre ++ gap) s ss)

  step_other :
      (left realcount : ℕ)
      → is_real s ≡ false
      → compact_loop (suc left) (length (pre ++ gap)) realcount whole
        ≡ compact_loop left (length (pre ++ gap) + 1) realcount whole
  unfolding compact_loop
  step_other left realcount e = rw (seen, compact_loop, e)

  step_real :
      (left realcount : ℕ)
      → is_real s ≡ true
      → compact_loop (suc left) (length (pre ++ gap)) realcount whole
        ≡ compact_loop left (length (pre ++ gap) + 1) (realcount + 1) (copy_to whole realcount s)
  unfolding compact_loop
  step_real left realcount e = rw (seen, compact_loop, e)

  further : length (pre ++ (gap ++ s ∷ [])) ≡ length (pre ++ gap) + 1
  further =
      omega (
        arith,
        length-append pre (gap ++ s ∷ []),
        length-append gap (s ∷ []),
        length-append pre gap,
      )

  regrouped : pre ++ ((gap ++ s ∷ []) ++ ss) ≡ whole
  regrouped = ap (λ t. pre ++ t) (append_assoc gap (s ∷ []) ss)

-- A real player is copied over the first slot `y` of the gap.
module _ (pre : List Slot) (y : Slot) (gap : List Slot) (s : Slot) (ss : List Slot) where
  abbrev copied : List Slot
  copied = pre ++ copy_slot y s ∷ []

  written : copy_to (pre ++ (y ∷ gap ++ s ∷ ss)) (length pre) s ≡ copied ++ ((gap ++ s ∷ []) ++ ss)
  written = copy_to-append pre y (gap ++ s ∷ ss) s ∙ simp (append_assoc)

  farther : length (copied ++ (gap ++ s ∷ [])) ≡ length (pre ++ (y ∷ gap)) + 1
  farther = omega (
    arith,
    length-append copied (gap ++ s ∷ []),
    length-append pre (copy_slot y s ∷ []),
    length-append gap (s ∷ []),
    length-append pre (y ∷ gap),
  )

  longer : length (pre ++ copy_slot y s ∷ []) ≡ length pre + 1
  longer = omega (arith, length-append pre (copy_slot y s ∷ []))

  still_there :
      map connection_of (copied ++ ((gap ++ s ∷ []) ++ ss))
      ≡ map connection_of (pre ++ (y ∷ gap ++ s ∷ ss))
  unfolding copy_slot
  still_there = simp (map-append, append_assoc)

  same_contents : map contents (copied ++ reals ss) ≡ map contents (pre ++ s ∷ reals ss)
  unfolding copy_slot
  same_contents = simp (map-append, append_assoc)

longer_here : (pre : List Slot) (s : Slot) → length (pre ++ s ∷ []) ≡ length pre + 1
longer_here pre s = omega (arith, length-append pre (s ∷ []))

-- A real player with no gap before it is copied over itself.
written_here :
    (pre : List Slot) (s : Slot) (ss : List Slot)
    → copy_to (pre ++ s ∷ ss) (length pre) s ≡ (pre ++ s ∷ []) ++ ss
unfolding copy_slot
written_here pre s ss = copy_to-append pre s ss s ∙ sym (append_assoc pre (s ∷ []) ss)

farther_here :
    (pre : List Slot) (s : Slot) → length ((pre ++ s ∷ []) ++ []) ≡ length (pre ++ []) + 1
farther_here pre s =
    omega
      (arith, length-append (pre ++ s ∷ []) [], length-append pre [], length-append pre (s ∷ []))

-- The loop, with the first slots done, then a gap of slots that are not needed, then those to come.
compact_loop-IsMoved :
    (next pre gap : List Slot)
    → IsMoved
        (pre ++ reals next)
        (pre ++ (gap ++ next))
        (compact_loop (length next) (length (pre ++ gap)) (length pre) (pre ++ (gap ++ next)))
unfolding reals
compact_loop-IsMoved [] pre gap = record {
  kept = pre;
  rest = gap;
  shape = unfold compact_loop in rw (append-nil gap);
  moved = rw (append-nil pre);
  still = rw (append-nil gap);
}
compact_loop-IsMoved (s ∷ ss) pre gap = elim (Bool-cases (is_real s)) [
  | inr e ↦
      IsMoved-cast (rw e) (ap (map connection_of) (regrouped pre gap s ss))
        (step_other pre gap s ss (length ss) (length pre) e
          ∙ cc (further pre gap s ss, regrouped pre gap s ss))
        (compact_loop-IsMoved ss pre (gap ++ s ∷ []))
  | inl e ↦ real gap (λ t. compact_loop-IsMoved ss t) e
]
  where
    real :
        (g : List Slot)
        → ((p q : List Slot)
            → IsMoved
                (p ++ reals ss)
                (p ++ (q ++ ss))
                (compact_loop (length ss) (length (p ++ q)) (length p) (p ++ (q ++ ss))))
        → is_real s ≡ true
        → IsMoved
            (pre ++ (if is_real s then s ∷ reals ss else reals ss))
            (pre ++ (g ++ s ∷ ss))
            (compact_loop (suc (length ss)) (length (pre ++ g)) (length pre) (pre ++ (g ++ s ∷ ss)))
    real [] ih e =
        IsMoved-cast (ap (map contents) (append_assoc pre (s ∷ []) (reals ss)) ∙ rw e)
          (ap (map connection_of) (append_assoc pre (s ∷ []) ss))
          (step_real pre [] s ss (length ss) (length pre) e
            ∙ cc (written_here pre s ss, farther_here pre s, longer_here pre s))
          (ih (pre ++ s ∷ []) [])
    real (y ∷ g) ih e =
        IsMoved-cast (same_contents pre y g s ss ∙ rw e) (still_there pre y g s ss)
          (step_real pre (y ∷ g) s ss (length ss) (length pre) e
            ∙ cc (written pre y g s ss, farther pre y g s ss, longer pre y g s ss))
          (ih (copied pre y g s ss) (g ++ s ∷ []))

nuke_from-append :
    (kept rest : List Slot) → nuke_from (length kept) (kept ++ rest) ≡ kept ++ map blank rest
unfolding nuke_from
nuke_from-append [] [] = refl
nuke_from-append [] (s ∷ ss) = ap (λ t. blank s ∷ t) (nuke_from-append [] ss)
nuke_from-append (k ∷ ks) rest = ap (λ t. k ∷ t) (nuke_from-append ks rest)

abbrev pub nobody : Option ℕ × GameResult × Option Text × Option Text
nobody = (none, no_result, none, none)

contents-blank : (ss : List Slot) → map contents (map blank ss) ≡ replicate (length ss) nobody
unfolding blank
contents-blank [] = refl
contents-blank (s ∷ ss) = ap (λ t. nobody ∷ t) (contents-blank ss)

connection-blank : (ss : List Slot) → map connection_of (map blank ss) ≡ map connection_of ss
unfolding blank
connection-blank [] = refl
connection-blank (s ∷ ss) = ap (λ t. s.connection ∷ t) (connection-blank ss)

-- What compacting makes of the slots.
pub record IsCompacted (ss : List Slot) (r : ℕ × List Slot) : Type 0 where
  pub count : r.0 ≡ length (reals ss)
  pub players :
      map contents r.1 ≡ map contents (reals ss) ++ replicate (length ss - length (reals ss)) nobody
  pub connections : map connection_of r.1 ≡ map connection_of ss

-- The loops of `game_report` that work in place count the real players, move them to the front in
-- their order, clear every slot behind them, and move no connection.
pub compact-IsCompacted : (ss : List Slot) → IsCompacted ss (compact ss)
compact-IsCompacted ss = subst (IsCompacted ss) (sym run) (record {
  count = same_length;
  players =
      map-append contents t.kept (map blank t.rest)
      ∙ cc (t.moved, contents-blank t.rest, rest_length);
  connections =
      map-append connection_of t.kept (map blank t.rest)
      ∙ ap (λ x. map connection_of t.kept ++ x) (connection-blank t.rest)
      ∙ sym (map-append connection_of t.kept t.rest)
      ∙ t.still;
})
  where
    t : IsMoved (reals ss) ss (compact_loop (length ss) 0 0 ss)
    t = compact_loop-IsMoved ss [] []

    run : compact ss ≡ (length t.kept, t.kept ++ map blank t.rest)
    run = unfold compact in rw (t.shape, nuke_from-append t.kept t.rest)

    same_length : length t.kept ≡ length (reals ss)
    same_length =
        omega (arith, ap length t.moved, length-map t.kept contents, length-map (reals ss) contents)

    rest_length : length t.rest ≡ length ss - length (reals ss)
    rest_length = omega (
      arith,
      same_length,
      length-append t.kept t.rest,
      ap length t.still,
      length-map (t.kept ++ t.rest) connection_of,
      length-map ss connection_of,
    )
