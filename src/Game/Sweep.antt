-- ===== src/Game/Sweep.antt =====
-- `gamelist_check_voidgame`: what its traversal, which marks elements as it goes, leaves.
use bnetd.Prelude.{
  ℕ, ◌+◌, ◌≤◌, ◌<◌, ◌≡◌, refl, sym, ap, ◌∙◌, Bool, false, ◌||◌, List, [], ◌∷◌, ◌++◌, Option, none,
  some, map, ◌==◌, length, length-append, arith, Bool-cases, inl, inr, ◌⊎◌, if◌then◌else◌,
}
use mathlib.Core.List.{append_assoc}
use bnetd.Game.{Game}
use bnetd.Game.Games.{
  GameList, destroy, is_void, element, visit, check_loop, games_of, check_voidgame,
}
use bnetd.Game.Registry.{IsRegistry, AllUnique, numbered}

-- The games before and after, in their order. A game is destroyed that has a realm, has nobody in
-- it and was not accessed for more than 300 seconds; any other is kept.
pub data Swept (now : ℕ) : List Game → List Game → Type 0 where
  nothing : Swept now [] []
  destroyed :
      {g : Game} {gs hs : List Game}
      → 1 ≤ g.realm
      → g.ref ≡ 0
      → g.lastaccess_time + 300 < now
      → Swept now gs hs
      → Swept now (g ∷ gs) hs
  kept :
      {g : Game} {gs hs : List Game}
      → (g.realm ≡ 0) ⊎ (1 ≤ g.ref) ⊎ (now ≤ g.lastaccess_time + 300)
      → Swept now gs hs
      → Swept now (g ∷ gs) (g ∷ hs)

-- What becomes of the element of a game.
unfoldable verdict : ℕ → Game → Option Game
verdict now g = if is_void now g then none else some g

unfoldable holds : List (Option Game) → ℕ → Bool
holds [] id = false
holds (none ∷ cs) id = holds cs id
holds (some g ∷ cs) id = g.id == id || holds cs id

-- No element before has the id of one of the games.
abbrev Apart : List (Option Game) → List Game → Type 0
Apart pre [] = Unit
Apart pre (g ∷ gs) = (holds pre g.id ≡ false) × Apart pre gs

destroy-append :
    (pre cs : List (Option Game)) (g : Game)
    → holds pre g.id ≡ false
    → destroy g.id (pre ++ some g ∷ cs) ≡ pre ++ none ∷ cs
unfolding destroy holds
destroy-append [] cs g h = ground arith
destroy-append (none ∷ xs) cs g h = ap (λ t. none ∷ t) (destroy-append xs cs g h)
destroy-append (some x ∷ xs) cs g h = ground (arith, destroy-append xs cs g)

element-append :
    (pre cs : List (Option Game)) (c : Option Game) → element (length pre) (pre ++ c ∷ cs) ≡ c
unfolding element
element-append [] cs c = refl
element-append (x ∷ xs) cs c = element-append xs cs c

-- A round puts the verdict in the place of the game.
visit_here :
    (now : ℕ) (pre cs : List (Option Game)) (g : Game)
    → holds pre g.id ≡ false
    → visit now (element (length pre) (pre ++ some g ∷ cs)) (pre ++ some g ∷ cs)
      ≡ pre ++ verdict now g ∷ cs
unfolding visit verdict
visit_here now pre cs g h = rw (element-append pre cs (some g)) (elim (Bool-cases (is_void now g)) [
  | inl e ↦ rw e (destroy-append pre cs g h)
  | inr e ↦ rw e refl
])

holds-append :
    (pre : List (Option Game)) (now : ℕ) (g : Game) (i : ℕ)
    → holds pre i ≡ false
    → (g.id == i) ≡ false
    → holds (pre ++ verdict now g ∷ []) i ≡ false
unfolding holds verdict
holds-append [] now g i h n = ground arith
holds-append (none ∷ xs) now g i h n = holds-append xs now g i h n
holds-append (some x ∷ xs) now g i h n = ground (arith, holds-append xs now g i)

Apart-append :
    (pre : List (Option Game)) (now : ℕ) (g : Game) (gs : List Game)
    → Apart pre gs
    → numbered gs g.id ≡ false
    → Apart (pre ++ verdict now g ∷ []) gs
unfolding numbered
Apart-append pre now g [] h n = tt
Apart-append pre now g (x ∷ xs) h n =
    (holds-append pre now g x.id h.0 (ground arith), Apart-append pre now g xs h.1 (ground arith))

check_loop-verdict :
    (now : ℕ) (rest : List Game) (pre : List (Option Game))
    → Apart pre rest
    → AllUnique rest
    → check_loop now (length rest) (length pre) (pre ++ map some rest)
      ≡ pre ++ map (verdict now) rest
unfolding check_loop
check_loop-verdict now [] pre a u = refl
check_loop-verdict now (g ∷ gs) pre a u =
    let on = pre ++ verdict now g ∷ [] in
    let behind = append_assoc pre (verdict now g ∷ []) (map some gs) in
    ap (check_loop now (length gs) (length pre + 1)) (visit_here now pre (map some gs) g a.0)
    ∙ ap (λ i. check_loop now (length gs) i (pre ++ verdict now g ∷ map some gs))
        (sym (length-append pre (verdict now g ∷ [])))
    ∙ ap (check_loop now (length gs) (length on)) (sym behind)
    ∙ check_loop-verdict now gs on (Apart-append pre now g gs a.1 u.1) u.2
    ∙ append_assoc pre (verdict now g ∷ []) (map (verdict now) gs)

verdict-Swept : (now : ℕ) (gs : List Game) → Swept now gs (games_of (map (verdict now) gs))
unfolding games_of verdict is_void
verdict-Swept now [] = nothing
verdict-Swept now (g ∷ gs) = elim (Bool-cases (is_void now g)) [
  | inl e ↦ rw e (destroyed (ground arith) (ground arith) (ground arith) (verdict-Swept now gs))
  | inr e ↦ rw e (kept (ground arith) (verdict-Swept now gs))
]

nothing_before : (gs : List Game) → Apart [] gs
unfolding holds
nothing_before [] = tt
nothing_before (g ∷ gs) = (refl, nothing_before gs)

-- In a list where games differ in id, `gamelist_check_voidgame` takes out exactly the games of a
-- realm that nobody is in and that were not accessed for more than five minutes, and keeps the
-- others in their order.
pub check_voidgame-Swept :
    (now : ℕ) (l : GameList) → IsRegistry l → Swept now l.games (check_voidgame now l).games
unfolding check_voidgame
check_voidgame-Swept now l v =
    rw (check_loop-verdict now l.games [] (nothing_before l.games) v.unique)
      (verdict-Swept now l.games)
