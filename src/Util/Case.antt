-- ===== src/Util/Case.antt =====
-- `strcasecmp` of src/compat/strcasecmp.c, in the C locale.
use bnetd.Prelude.{
  ◌==◌, ℕ, zero, suc, ◌+◌, ◌≡◌, refl, ◌↔◌, Bool, true, false, ◌&&◌, ◌||◌, [], ◌∷◌, map, arith, ltb,
  leb, if◌then◌else◌, ap,
}
use bnetd.Prelude.Int.{ℤ, pos, negsuc}
use bnetd.Prelude.Text.{Text}

-- `tolower` on what `isupper` accepts, anything else unchanged.
unfoldable pub fold_case : ℕ → ℕ
fold_case c = if leb b'A' c && leb c b'Z' then c + 32 else c

-- `a<b` of two characters as signed 8-bit numbers, by which those from 128 on are negative.
abbrev pub is_before : ℕ → ℕ → Bool
is_before a b = if leb 128 a then leb 128 b && ltb a b || ltb b 128 else ltb b 128 && ltb a b

-- A longer first string gives -1, a longer second one +1.
unfoldable pub strcasecmp : Text → Text → ℤ
strcasecmp [] [] = pos 0
strcasecmp (x ∷ xs) [] = negsuc 0
strcasecmp [] (y ∷ ys) = pos 1
strcasecmp (x ∷ xs) (y ∷ ys) =
    let rest = strcasecmp xs ys in
    if is_before (fold_case x) (fold_case y)
    then negsuc 0
    else if is_before (fold_case y) (fold_case x)
    then pos 1
    else rest

abbrev pub is_zero : ℤ → Bool
is_zero (pos n) = elim n [ zero ↦ true | suc m ↦ false ]
is_zero (negsuc n) = false

-- The test `strcasecmp(a,b)==0` of the callers.
unfoldable pub same_name : Text → Text → Bool
same_name a b = is_zero (strcasecmp a b)

-- The test `strcmp(a,b)==0`.
unfoldable pub same_bytes : Text → Text → Bool
same_bytes [] [] = true
same_bytes [] (y ∷ ys) = false
same_bytes (x ∷ xs) [] = false
same_bytes (x ∷ xs) (y ∷ ys) = x == y && same_bytes xs ys

pub strcasecmp-fold : (a b : Text) → strcasecmp a b ≡ pos 0 → map fold_case a ≡ map fold_case b
unfolding strcasecmp
strcasecmp-fold [] [] h = refl
strcasecmp-fold (x ∷ xs) [] h = ground arith
strcasecmp-fold [] (y ∷ ys) h = ground arith
strcasecmp-fold (x ∷ xs) (y ∷ ys) h = ground (arith, strcasecmp-fold xs ys)

pub fold-strcasecmp : (a b : Text) → map fold_case a ≡ map fold_case b → strcasecmp a b ≡ pos 0
unfolding strcasecmp
fold-strcasecmp [] [] h = refl
fold-strcasecmp (x ∷ xs) [] h = ground arith
fold-strcasecmp [] (y ∷ ys) h = ground arith
fold-strcasecmp (x ∷ xs) (y ∷ ys) h = ground (arith, fold-strcasecmp xs ys)

-- `strcasecmp` returns 0 exactly for two strings that are equal once their capitals are folded.
pub strcasecmp_iff : (a b : Text) → (strcasecmp a b ≡ pos 0) ↔ (map fold_case a ≡ map fold_case b)
strcasecmp_iff a b = (strcasecmp-fold a b, fold-strcasecmp a b)

is_zero-eq : (z : ℤ) → is_zero z ≡ true → z ≡ pos 0
is_zero-eq (pos n) h = ground arith
is_zero-eq (negsuc n) h = ground arith

pub same_name-fold : (a b : Text) → same_name a b ≡ true → map fold_case a ≡ map fold_case b
unfolding same_name
same_name-fold a b h = strcasecmp-fold a b (is_zero-eq (strcasecmp a b) h)

pub fold-same_name : (a b : Text) → map fold_case a ≡ map fold_case b → same_name a b ≡ true
unfolding same_name
fold-same_name a b h = ap is_zero (fold-strcasecmp a b h)

pub same_name_refl : (a : Text) → same_name a a ≡ true
same_name_refl a = fold-same_name a a refl

pub same_name_symm : (a b : Text) → same_name a b ≡ same_name b a
same_name_symm a b =
    ground (arith, same_name-fold a b, same_name-fold b a, fold-same_name a b, fold-same_name b a)

pub same_name_trans :
    (a b c : Text) → same_name a b ≡ true → same_name b c ≡ true → same_name a c ≡ true
same_name_trans a b c p q =
    fold-same_name a c (ground (arith, same_name-fold a b p, same_name-fold b c q))
