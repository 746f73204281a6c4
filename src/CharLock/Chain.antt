-- ===== src/CharLock/Chain.antt =====
-- Chains of locks that are added to and erased from.
use bnetd.Prelude.{
  ℕ, ◌≡◌, refl, ap, true, false, ◌&&◌, ◌||◌, not, List, [], ◌∷◌, ◌++◌, ◌==◌, arith, Bool-cases, inl,
  inr, if◌then◌else◌,
}
use bnetd.Channel.{update}
use bnetd.Channel.Invariant.{contains, AllDistinct}
use bnetd.CharLock.{erase}

pub contains-append :
    (a b : ℕ) (xs : List ℕ) → contains a (xs ++ b ∷ []) ≡ (contains a xs || b == a)
contains-append a b [] = ground arith
contains-append a b (x ∷ xs) = ground (arith, contains-append a b xs)

pub AllDistinct-append :
    (b : ℕ) (xs : List ℕ) → contains b xs ≡ false → AllDistinct xs → AllDistinct (xs ++ b ∷ [])
AllDistinct-append b [] h d = (refl, tt)
AllDistinct-append b (x ∷ xs) h d =
    (ground (arith, contains-append x b xs, d.0), AllDistinct-append b xs (ground arith) d.1)

pub erase-head : (a : ℕ) (xs : List ℕ) → erase a (a ∷ xs) ≡ xs
unfolding erase
erase-head a xs = ground arith

pub contains-erase :
    (a b : ℕ) (xs : List ℕ)
    → AllDistinct xs
    → contains b (erase a xs) ≡ (contains b xs && not (b == a))
unfolding erase
contains-erase a b [] d = refl
contains-erase a b (x ∷ xs) d = elim (Bool-cases (x == a)) [
  | inl e ↦ rw e (let same : x ≡ a = ground arith in ground (arith, d.0))
  | inr e ↦ rw e (ground (arith, contains-erase a b xs d.1))
]

pub AllDistinct-erase : (a : ℕ) (xs : List ℕ) → AllDistinct xs → AllDistinct (erase a xs)
unfolding erase
AllDistinct-erase a [] d = tt
AllDistinct-erase a (x ∷ xs) d = elim (Bool-cases (x == a)) [
  | inl e ↦ rw e d.1
  | inr e ↦ rw e (ground (arith, contains-erase a x xs d.1, d.0), AllDistinct-erase a xs d.1)
]

-- A table of chains of which one is replaced.
pub contains-update :
    (f : ℕ → List ℕ) (i k p : ℕ) (xs : List ℕ)
    → contains p (update f i xs k) ≡ (if i == k then contains p xs else contains p (f k))
contains-update f i k p xs = ground arith

pub AllDistinct-update :
    (f : ℕ → List ℕ) (i k : ℕ) (xs : List ℕ)
    → AllDistinct xs
    → AllDistinct (f k)
    → AllDistinct (update f i xs k)
AllDistinct-update f i k xs d e = elim (Bool-cases (i == k)) [ inl h ↦ rw h d | inr h ↦ rw h e ]

pub contains_own : (p q : ℕ) (xs : List ℕ) → (p == q) ≡ true → contains p xs ≡ contains q xs
contains_own p q xs h = let own : p ≡ q = ground arith in ap (λ x. contains x xs) own
