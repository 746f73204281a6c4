-- ===== src/Account/Record/Keys.antt =====
-- When two keys of a record are the same.
use bnetd.Prelude.{ℕ, ◌≡◌, refl, sym, ap, ◌∙◌, Bool, true, ◌&&◌, [], ◌∷◌, ◌++◌, ◌==◌, length, arith}
use bnetd.Prelude.Text.{Text, codes}
use bnetd.Util.Case.{fold_case, strcasecmp, same_name, same_name_refl}
use bnetd.Util.Print.{decimal, digits}
use bnetd.Game.Report.{normal_ladder, ironman_ladder, Standing, normal, on_ladder}
use bnetd.Account.{same_start, new_key}
use bnetd.Account.Record.{number_in_key, Counter, counter_word, record_key, is_tag}

same_name-cons :
    (x y : ℕ) (xs ys : Text)
    → same_name (x ∷ xs) (y ∷ ys) ≡ fold_case x == fold_case y && same_name xs ys
unfolding same_name strcasecmp
same_name-cons x y xs ys = ground arith

same_name-prefix : (p xs ys : Text) → same_name (p ++ xs) (p ++ ys) ≡ same_name xs ys
same_name-prefix [] xs ys = refl
same_name-prefix (c ∷ p) xs ys =
    same_name-cons c c (p ++ xs) (p ++ ys) ∙ ground (arith, same_name-prefix p xs ys)

same_name-append :
    (t t' xs ys : Text)
    → length t ≡ length t'
    → same_name (t ++ xs) (t' ++ ys) ≡ same_name t t' && same_name xs ys
same_name-append [] [] xs ys h = ap (λ b. b && same_name xs ys) (sym (same_name_refl []))
same_name-append [] (y ∷ t') xs ys h = absurd (omega (arith, h))
same_name-append (x ∷ t) [] xs ys h = absurd (omega (arith, h))
same_name-append (x ∷ t) (y ∷ t') xs ys h = ground (
  arith,
  same_name-cons x y (t ++ xs) (t' ++ ys),
  same_name-cons x y t t',
  same_name-append t t' xs ys (omega (arith, h)),
)

abbrev pub same_standing : Standing → Standing → Bool
same_standing at at' = number_in_key at == number_in_key at'

-- What stands behind the client tag.
abbrev key_end : Standing → Text → Text
key_end at word = b'\\' ∷ (decimal (number_in_key at) ++ b'\\' ∷ word)

same_name-key_end :
    (at at' : Standing) (word word' : Text)
    → same_name (key_end at word) (key_end at' word') ≡ same_standing at at' && same_name word word'
unfolding decimal digits same_name strcasecmp fold_case
same_name-key_end normal normal word word' = refl
same_name-key_end normal (on_ladder normal_ladder) word word' = refl
same_name-key_end normal (on_ladder ironman_ladder) word word' = refl
same_name-key_end (on_ladder normal_ladder) normal word word' = refl
same_name-key_end (on_ladder normal_ladder) (on_ladder normal_ladder) word word' = refl
same_name-key_end (on_ladder normal_ladder) (on_ladder ironman_ladder) word word' = refl
same_name-key_end (on_ladder ironman_ladder) normal word word' = refl
same_name-key_end (on_ladder ironman_ladder) (on_ladder normal_ladder) word word' = refl
same_name-key_end (on_ladder ironman_ladder) (on_ladder ironman_ladder) word word' = refl

pub same_name-record_key :
    (t t' : Text) (at at' : Standing) (word word' : Text)
    → is_tag t ≡ true
    → is_tag t' ≡ true
    → same_name (record_key t at word) (record_key t' at' word')
      ≡ same_name t t' && (same_standing at at' && same_name word word')
unfolding record_key
same_name-record_key t t' at at' word word' h h' =
    same_name-prefix (codes "Record\\") (t ++ key_end at word) (t' ++ key_end at' word')
    ∙ same_name-append t t' (key_end at word) (key_end at' word') (ground (arith, h, h'))
    ∙ ap (λ b. same_name t t' && b) (same_name-key_end at at' word word')

pub new_key-record_key :
    (t : Text) (at : Standing) (word : Text) → new_key (record_key t at word) ≡ record_key t at word
unfolding new_key record_key same_start fold_case
new_key-record_key t at word = refl

abbrev pub same_counter : Counter → Counter → Bool
same_counter c c' = same_name (counter_word c) (counter_word c')
