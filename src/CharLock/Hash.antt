-- ===== src/CharLock/Hash.antt =====
-- The hash of a name does not depend on its case.
use bnetd.Prelude.{ℕ, ◌+◌, ◌≡◌, refl, ap, ◌∙◌, sym, true, [], ◌∷◌, map, arith, u32}
use bnetd.Prelude.Text.{Text}
use bnetd.Util.Case.{fold_case, same_name, same_name-fold}
use bnetd.CharLock.{rotl, xor, hash_char, hash_loop, string_hash}

hash_char-fold_case : (c : ℕ) → hash_char c ≡ fold_case c
unfolding hash_char fold_case
hash_char-fold_case c = ground arith

hash_loop_fold :
    (s s' : Text) (pos hash : ℕ)
    → map fold_case s ≡ map fold_case s'
    → hash_loop s pos hash ≡ hash_loop s' pos hash
unfolding hash_loop
hash_loop_fold [] [] pos hash h = refl
hash_loop_fold [] (d ∷ s') pos hash h = ground arith
hash_loop_fold (c ∷ s) [] pos hash h = ground arith
hash_loop_fold (c ∷ s) (d ∷ s') pos hash h =
    let same : fold_case c ≡ fold_case d = ground arith in
    let rest : map fold_case s ≡ map fold_case s' = ground arith in
    ap (λ x. hash_loop s (u32 (pos + 7)) (xor 32 hash (rotl x pos)))
      (hash_char-fold_case c ∙ same ∙ sym (hash_char-fold_case d))
    ∙ hash_loop_fold s s' (u32 (pos + 7)) (xor 32 hash (rotl (hash_char d) pos)) rest

pub string_hash-same_name : (a b : Text) → same_name a b ≡ true → string_hash a ≡ string_hash b
unfolding string_hash
string_hash-same_name a b h = hash_loop_fold a b 0 0 (same_name-fold a b h)
