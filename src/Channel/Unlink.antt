-- ===== src/Channel/Unlink.antt =====
-- Taking a connection out of the list of members.
use bnetd.Prelude.{
  sym, ◌⊎◌, ℕ, suc, ◌≡◌, refl, false, ◌&&◌, not, List, [], ◌∷◌, none, some, ◌==◌, arith, length,
  Option-cases, inl, inr,
}
use mathlib.Core.Path.{subst}
use bnetd.Channel.Members.{unlink}
use bnetd.Channel.Invariant.{contains, AllDistinct}

pub unlink-none : (c : ℕ) (ms : List ℕ) → unlink c ms ≡ none → contains c ms ≡ false
unfolding unlink
unlink-none c [] h = refl
unlink-none c (m ∷ ms) h = ground (arith, unlink-none c ms)

pub none-unlink : (c : ℕ) (ms : List ℕ) → contains c ms ≡ false → unlink c ms ≡ none
unfolding unlink
none-unlink c [] h = refl
none-unlink c (m ∷ ms) h = ground (arith, none-unlink c ms)

pub length-unlink : (c : ℕ) (ms r : List ℕ) → unlink c ms ≡ some r → length ms ≡ suc (length r)
unfolding unlink
length-unlink c [] r h = ground arith
length-unlink c (m ∷ ms) r h = elim (Option-cases (unlink c ms)) [
  | inl e ↦ ground arith
  | inr (q, e) ↦ ground (arith, length-unlink c ms q)
]

pub contains-unlink :
    (c : ℕ) (ms r : List ℕ)
    → AllDistinct ms
    → unlink c ms ≡ some r
    → (q : ℕ) → contains q r ≡ (contains q ms && not (q == c))
unfolding unlink
contains-unlink c [] r d h q = ground arith
contains-unlink c (m ∷ ms) r d h q = elim (Option-cases (unlink c ms)) [
  | inl e ↦ ground (arith, unlink-none c ms e)
  | inr (k, e) ↦ ground (arith, contains-unlink c ms k d.1 e q)
]

pub AllDistinct-unlink :
    (c : ℕ) (ms r : List ℕ) → AllDistinct ms → unlink c ms ≡ some r → AllDistinct r
unfolding unlink
AllDistinct-unlink c [] r d h = ground arith
AllDistinct-unlink c (m ∷ ms) r d h = elim (Option-cases (unlink c ms)) [
  | inl e ↦ ground arith
  | inr (k, e) ↦
      let split : (r ≡ ms) ⊎ ((r ≡ m ∷ k) × ((m == c) ≡ false)) = ground arith in
      elim split [
        | inl p ↦ subst AllDistinct (sym p) d.1
        | inr p ↦
            subst AllDistinct (sym p.0)
              (ground (arith, contains-unlink c ms k d.1 e m), AllDistinct-unlink c ms k d.1 e)
      ]
]
