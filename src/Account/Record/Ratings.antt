-- ===== src/Account/Record/Ratings.antt =====
-- The ladder's rating and rank of an account.
use bnetd.Prelude.{
  ℕ, ◌+◌, ◌-◌, ◌%◌, ◌^◌, ◌≤◌, ◌<◌, ◌≡◌, refl, ap, ◌∙◌, true, false, List, ltb, if◌then◌else◌, some,
  inl, inr, Bool-cases, arith,
}
use Prim.Native.Nat.{max}
use bnetd.Prelude.Int.{ℤ, pos, negsuc}
use bnetd.Prelude.Text.{Text, codes}
use bnetd.Util.Case.{fold_case, same_name, strcasecmp, same_name_refl}
use bnetd.Util.Print.{decimal}
use bnetd.Channel.{ok}
use bnetd.Game.Report.{LadderId, normal_ladder, ironman_ladder, Standing, on_ladder}
use bnetd.Account.{Attribute, Account, Disk}
use bnetd.Account.Numbers.{number_at, value_at, number_of-lt, with_attr}
use bnetd.Account.Record.{
  record_key, is_tag, new_rating, account_adjust_ladder_rating, account_set_ladder_rank, Counter,
  wins, losses, draws, disconnects,
}
use bnetd.Account.Record.Keys.{same_standing}
use bnetd.Account.Record.Counting.{
  IsReady, IsOther, count, count-other, number-with_attr, set_number_loaded, get_number_loaded,
  IsReady-with_attr, read_account,
}

-- A number of a ladder in an account.
abbrev pub ladder_number : List Attribute → Account → Text → LadderId → Text → ℕ
ladder_number defaults a t id word = number_at defaults a (record_key t (on_ladder id) word)

-- The account after a number of the ladder is stored.
abbrev stored : Account → Text → LadderId → Text → ℕ → Account
stored a t id word n = with_attr a (record_key t (on_ladder id) word) (some (decimal n))

same_standing_refl : (id : LadderId) → same_standing (on_ladder id) (on_ladder id) ≡ true
same_standing_refl normal_ladder = refl
same_standing_refl ironman_ladder = refl

-- What is read under a word after a number is stored under one.
ladder_number-stored :
    (defaults : List Attribute) (a : Account) (t : Text) (id : LadderId) (word : Text) (n : ℕ)
    (word' : Text)
    → IsReady a
    → n < 2 ^ 32
    → is_tag t ≡ true
    → ladder_number defaults (stored a t id word n) t id word'
      ≡ (if same_name word word' then n else ladder_number defaults a t id word')
ladder_number-stored defaults a t id word n word' r h k =
    number-with_attr defaults a t (on_ladder id) word n t (on_ladder id) word' r h k k
    ∙ rw (same_name_refl t, same_standing_refl id) refl

rank_words :
    (same_name (codes "rank") (codes "high_rank") ≡ false)
    × (same_name (codes "high rank") (codes "high_rank") ≡ false)
    × (same_name (codes "high rank") (codes "rank") ≡ false)
unfolding same_name strcasecmp fold_case
rank_words = (refl, refl, refl)

abbrev ranked : Account → Text → LadderId → ℕ → Account
ranked a t id rank =
    stored (read_account (stored a t id (codes "rank") rank)) t id (codes "high rank") rank

set_ladder_rank_loaded :
    (disk : Disk) (defaults : List Attribute) (a : Account) (t : Text) (id : LadderId) (rank : ℕ)
    → IsReady a
    → rank < 2 ^ 32
    → is_tag t ≡ true
    → ladder_number defaults a t id (codes "high_rank") ≡ 0
    → account_set_ladder_rank true disk defaults a t id rank ≡ some (ok, ranked a t id rank)
unfolding account_set_ladder_rank
set_ladder_rank_loaded disk defaults a t id rank r h k z =
    let a₁ = stored a t id (codes "rank") rank in
    let other = ladder_number defaults a t id (codes "high_rank") in
    let unset =
      ladder_number-stored defaults a t id (codes "rank") rank (codes "high_rank") r h k
      ∙ ap (λ b. if b then rank else other) rank_words.0
      ∙ z in
    rw
      (
        k,
        set_number_loaded disk defaults a t (on_ladder id) (codes "rank") rank r.0 k,
        get_number_loaded disk defaults a₁ t (on_ladder id) (codes "high_rank") r.0 k,
        unset,
        set_number_loaded disk defaults (read_account a₁) t (on_ladder id) (codes "high rank") rank
            r.0 k,
      )
      refl

-- An account whose attributes are loaded, no key twice up to case, and a client tag of four
-- characters, with memory, where nothing stands under the key that account_get_ladder_high_rank
-- reads: account_set_ladder_rank succeeds, stores the rank, and stores it as the high rank too,
-- whatever that was before; nothing stands under the key that is read afterwards either.
pub set_ladder_rank-high :
    (disk : Disk) (defaults : List Attribute) (a : Account) (t : Text) (id : LadderId) (rank : ℕ)
    → IsReady a
    → rank < 2 ^ 32
    → is_tag t ≡ true
    → ladder_number defaults a t id (codes "high_rank") ≡ 0
    → (b : Account) × (account_set_ladder_rank true disk defaults a t id rank ≡ some (ok, b))
      × IsReady b
      × (ladder_number defaults b t id (codes "rank") ≡ rank)
      × (ladder_number defaults b t id (codes "high rank") ≡ rank)
      × (ladder_number defaults b t id (codes "high_rank") ≡ 0)
set_ladder_rank-high disk defaults a t id rank r h k z =
    let a₁ = stored a t id (codes "rank") rank in
    let r₁ =
      IsReady-with_attr a (record_key t (on_ladder id) (codes "rank")) (some (decimal rank)) r in
    let first =
      λ (word : Text). ladder_number-stored defaults a t id (codes "rank") rank word r h k in
    let second = λ (word : Text).
      ladder_number-stored defaults (read_account a₁) t id (codes "high rank") rank word r₁ h k in
    (
      ranked a t id rank,
      set_ladder_rank_loaded disk defaults a t id rank r h k z,
      IsReady-with_attr (read_account a₁) (record_key t (on_ladder id) (codes "high rank"))
          (some (decimal rank)) r₁,
      second (codes "rank")
          ∙ rw (rank_words.2, first (codes "rank"), same_name_refl (codes "rank")) refl,
      second (codes "high rank") ∙ rw (same_name_refl (codes "high rank")) refl,
      second (codes "high_rank") ∙ rw (rank_words.1, first (codes "high_rank"), rank_words.0) z,
    )

new_rating-lt :
    (oldrating : ℕ) (delta : ℤ) → oldrating < 2 ^ 32 → new_rating oldrating delta < 2 ^ 32
unfolding new_rating
new_rating-lt oldrating (pos delta) h = omega arith
new_rating-lt oldrating (negsuc d) h = ground (arith, h)

-- The rating `delta` away, in 32 bits upwards and down to 1 downwards.
abbrev pub moved : ℕ → ℤ → ℕ
moved oldrating (pos delta) = (oldrating + delta) % 2 ^ 32
moved oldrating (negsuc d) = max 1 (oldrating - (d + 1))

new_rating-moved : (oldrating : ℕ) (delta : ℤ) → new_rating oldrating delta ≡ moved oldrating delta
unfolding new_rating
new_rating-moved oldrating (pos delta) = refl
new_rating-moved oldrating (negsuc d) = ground arith

-- The account once the rating is stored, and once the high rating is.
abbrev rated : Account → Text → LadderId → ℕ → Account
rated a t id rating = read_account (stored (read_account a) t id (codes "rating") rating)

abbrev raised : Account → Text → LadderId → ℕ → ℕ → Account
raised a t id high rating =
    if ltb high rating
    then stored (rated a t id rating) t id (codes "high rating") rating
    else rated a t id rating

rating_words :
    (same_name (codes "rating") (codes "high rating") ≡ false)
    × (same_name (codes "high rating") (codes "rating") ≡ false)
unfolding same_name strcasecmp fold_case
rating_words = (refl, refl)

high_rating-rated :
    (defaults : List Attribute) (a : Account) (t : Text) (id : LadderId) (rating : ℕ)
    → IsReady a
    → rating < 2 ^ 32
    → is_tag t ≡ true
    → ladder_number defaults (rated a t id rating) t id (codes "high rating")
      ≡ ladder_number defaults a t id (codes "high rating")
high_rating-rated defaults a t id rating r h k =
    ladder_number-stored defaults (read_account a) t id (codes "rating") rating
      (codes "high rating") r h k
    ∙ ap (λ b. if b then rating else ladder_number defaults a t id (codes "high rating"))
        rating_words.0

adjust_rating_loaded :
    (disk : Disk) (defaults : List Attribute) (a : Account) (t : Text) (id : LadderId) (delta : ℤ)
    → IsReady a
    → is_tag t ≡ true
    → account_adjust_ladder_rating true disk defaults a t id delta
      ≡ some (
        ok,
        raised a t id
            (ladder_number defaults a t id (codes "high rating"))
            (new_rating (ladder_number defaults a t id (codes "rating")) delta),
      )
unfolding account_adjust_ladder_rating
adjust_rating_loaded disk defaults a t id delta r k =
    let old = ladder_number defaults a t id (codes "rating") in
    let rating = new_rating old delta in
    let h =
      new_rating-lt old delta
        (number_of-lt (value_at defaults a (record_key t (on_ladder id) (codes "rating")))) in
    let high = ladder_number defaults a t id (codes "high rating") in
    let first =
      set_number_loaded disk defaults (read_account a) t (on_ladder id) (codes "rating") rating r.0
        k in
    let read =
      get_number_loaded disk defaults (stored (read_account a) t id (codes "rating") rating) t
        (on_ladder id) (codes "high rating") r.0 k in
    let second =
      set_number_loaded disk defaults (rated a t id rating) t (on_ladder id) (codes "high rating")
        rating r.0 k in
    rw
      (
        k,
        get_number_loaded disk defaults a t (on_ladder id) (codes "rating") r.0 k,
        first,
        read,
        high_rating-rated defaults a t id rating r h k,
      )
      (elim (Bool-cases (ltb high rating)) [ inl e ↦ rw (e, second) refl | inr e ↦ rw e refl ])

-- The ladder's numbers before and after the rating is adjusted.
pub record IsAdjusted (defaults : List Attribute) (a : Account) (t : Text) (id : LadderId)
    (delta : ℤ) (b : Account) : Type 0 where
  pub ready : IsReady b
  pub rating :
      ladder_number defaults b t id (codes "rating")
      ≡ moved (ladder_number defaults a t id (codes "rating")) delta
  pub counts :
      (t' : Text) (at : Standing) (c : Counter)
      → is_tag t' ≡ true
      → count defaults b t' at c ≡ count defaults a t' at c
  pub below :
      ladder_number defaults b t id (codes "rating")
      ≤ ladder_number defaults b t id (codes "high rating")
  pub kept :
      ladder_number defaults a t id (codes "high rating")
      ≤ ladder_number defaults b t id (codes "high rating")

rating_IsOther : IsOther (codes "rating")
unfolding same_name strcasecmp fold_case
rating_IsOther wins = refl
rating_IsOther losses = refl
rating_IsOther draws = refl
rating_IsOther disconnects = refl

high_rating_IsOther : IsOther (codes "high rating")
unfolding same_name strcasecmp fold_case
high_rating_IsOther wins = refl
high_rating_IsOther losses = refl
high_rating_IsOther draws = refl
high_rating_IsOther disconnects = refl

raised-IsAdjusted :
    (defaults : List Attribute) (a : Account) (t : Text) (id : LadderId) (delta : ℤ)
    → IsReady a
    → is_tag t ≡ true
    → IsAdjusted defaults a t id delta (
        raised a t id
          (ladder_number defaults a t id (codes "high rating"))
          (new_rating (ladder_number defaults a t id (codes "rating")) delta))
raised-IsAdjusted defaults a t id delta r k =
    let old = ladder_number defaults a t id (codes "rating") in
    let rating = new_rating old delta in
    let h =
      new_rating-lt old delta
        (number_of-lt (value_at defaults a (record_key t (on_ladder id) (codes "rating")))) in
    let high = ladder_number defaults a t id (codes "high rating") in
    let a₁ = rated a t id rating in
    let r₁ =
      IsReady-with_attr (read_account a) (record_key t (on_ladder id) (codes "rating"))
        (some (decimal rating)) r in
    let high₁ = high_rating-rated defaults a t id rating r h k in
    let rating₁ =
      ladder_number-stored defaults (read_account a) t id (codes "rating") rating (codes "rating") r
        h k
      ∙ ap (λ b. if b then rating else old) (same_name_refl (codes "rating")) in
    let rating₂ =
      ladder_number-stored defaults a₁ t id (codes "high rating") rating (codes "rating") r₁ h k
      ∙ ap (λ b. if b then rating else ladder_number defaults a₁ t id (codes "rating"))
          rating_words.1
      ∙ rating₁ in
    let high₂ =
      ladder_number-stored defaults a₁ t id (codes "high rating") rating (codes "high rating") r₁ h
        k
      ∙ ap (λ b. if b then rating else ladder_number defaults a₁ t id (codes "high rating"))
          (same_name_refl (codes "high rating")) in
    let at = on_ladder id in
    let counts₁ = λ (t' : Text) (at' : Standing) (c : Counter) (k' : is_tag t' ≡ true).
      count-other defaults (read_account a) t at (codes "rating") (decimal rating) t' at' c r k k'
        rating_IsOther in
    let counts₂ = λ (t' : Text) (at' : Standing) (c : Counter) (k' : is_tag t' ≡ true).
      count-other defaults a₁ t at (codes "high rating") (decimal rating) t' at' c r₁ k k'
        high_rating_IsOther
      ∙ counts₁ t' at' c k' in
    elim (Bool-cases (ltb high rating)) [
      | inl e ↦ rw e (record {
        counts = counts₂;
        ready =
            IsReady-with_attr a₁ (record_key t (on_ladder id) (codes "high rating"))
              (some (decimal rating)) r₁;
        rating = rating₂ ∙ new_rating-moved old delta;
        below = ground (arith, rating₂, high₂);
        kept = ground (arith, high₂, e);
      })
      | inr e ↦ rw e (record {
        ready = r₁;
        counts = counts₁;
        rating = rating₁ ∙ new_rating-moved old delta;
        below = ground (arith, rating₁, high₁, e);
        kept = ground (arith, high₁);
      })
    ]

-- An account whose attributes are loaded, no key twice up to case, and a client tag of four
-- characters, with memory: account_adjust_ladder_rating succeeds, stores the old rating plus
-- `delta`, by 32-bit arithmetic upwards and not below 1 downwards, leaves the high rating at least
-- at the rating and at least where it was, and changes no counter.
pub adjust_ladder_rating-IsAdjusted :
    (disk : Disk) (defaults : List Attribute) (a : Account) (t : Text) (id : LadderId) (delta : ℤ)
    → IsReady a
    → is_tag t ≡ true
    → (b : Account) × (account_adjust_ladder_rating true disk defaults a t id delta ≡ some (ok, b))
      × IsAdjusted defaults a t id delta b
adjust_ladder_rating-IsAdjusted disk defaults a t id delta r k = (
  raised a t id (ladder_number defaults a t id (codes "high rating"))
      (new_rating (ladder_number defaults a t id (codes "rating")) delta),
  adjust_rating_loaded disk defaults a t id delta r k,
  raised-IsAdjusted defaults a t id delta r k,
)
