-- ===== src/Account/Record/Games/Played.antt =====
-- The counters of an account after the operations of a game.
use bnetd.Prelude.{
  ℕ, ◌+◌, ◌^◌, ◌<◌, ◌≡◌, refl, ap, ◌∙◌, Bool, true, false, List, [], ◌∷◌, ◌==◌, ltb, u32,
  if◌then◌else◌, ◌>>=◌, Option, none, some, inl, inr, Bool-cases, arith,
}
use bnetd.Prelude.Int.{ℤ}
use bnetd.Prelude.Text.{Text, codes}
use bnetd.Util.Case.{fold_case, same_name, strcasecmp}
use bnetd.Game.Report.{
  LadderId, Standing, on_ladder, AccountOp, init_account, inc_wins, inc_losses, inc_draws,
  inc_disconnects, last_result, last_time,
}
use bnetd.Account.{Attribute, Account, Disk, new_key, find_attr}
use bnetd.Account.File.{lookup}
use bnetd.Account.Attributes.{find_attr-same_name}
use bnetd.Account.Numbers.{
  number_at, with_attr, number_of, number_of-lt, value_at, set_strattr-loaded,
}
use bnetd.Account.Record.{
  Counter, wins, losses, draws, disconnects, counter_word, record_key, is_tag, account_get_counter,
  account_inc_counter, set_last,
}
use bnetd.Account.Record.Keys.{same_name-record_key, new_key-record_key}
use bnetd.Account.Record.Counting.{
  IsReady, IsOther, is_counter, count-other, get_number_loaded, count, inc_counter-count,
  IsReady-with_attr, read_account,
}
use bnetd.Account.Record.Ratings.{adjust_ladder_rating-IsAdjusted}
use bnetd.Account.Record.Games.{
  game_result_get_str, after, ladder_init_account, init_rated, init_unrated, apply_op, apply_ops,
}

-- The counter that an operation is for.
abbrev pub counter_of : AccountOp → Option (Standing × Counter)
counter_of (init_account id) = none
counter_of (inc_wins at) = some (at, wins)
counter_of (inc_losses at) = some (at, losses)
counter_of (inc_draws at) = some (at, draws)
counter_of (inc_disconnects at) = some (at, disconnects)
counter_of (last_result at _) = none
counter_of (last_time at) = none

abbrev pub hits : Text → Option (Standing × Counter) → Text → Standing → Counter → Bool
hits t none t' at' c' = false
hits t (some (at, c)) t' at' c' = is_counter t at c t' at' c'

-- How often operations on a player count for a counter.
abbrev pub times : Text → List AccountOp → Text → Standing → Counter → ℕ
times t [] t' at' c' = 0
times t (op ∷ ops) t' at' c' =
    (if hits t (counter_of op) t' at' c' then 1 else 0) + times t ops t' at' c'

-- The accounts with every counter as it was, but those that are counted.
pub record IsCounted (defaults : List Attribute) (n : Text → Standing → Counter → ℕ) (a b : Account)
    : Type 0 where
  pub ready : IsReady b
  pub counts :
      (t' : Text) (at' : Standing) (c' : Counter)
      → is_tag t' ≡ true
      → count defaults b t' at' c' ≡ u32 (count defaults a t' at' c' + n t' at' c')

-- A result that is there, and is such an account.
abbrev pub IsCountedSome :
    List Attribute → (Text → Standing → Counter → ℕ) → Account → Option Account → Type 0
IsCountedSome defaults n a none = ⊥
IsCountedSome defaults n a (some b) = IsCounted defaults n a b

lookup-same_name :
    (defaults attrs : List Attribute) (a b : Text)
    → same_name (new_key a) (new_key b) ≡ true
    → lookup defaults attrs a ≡ lookup defaults attrs b
unfolding lookup
lookup-same_name defaults attrs a b h =
    ap (λ o. elim o [ none ↦ find_attr (new_key a) defaults | some val ↦ some val ])
      (find_attr-same_name (new_key a) (new_key b) attrs h)
    ∙ ap (λ d. elim (find_attr (new_key b) attrs) [ none ↦ d | some val ↦ some val ])
        (find_attr-same_name (new_key a) (new_key b) defaults h)

-- Two spellings of a counter are one.
count-is_counter :
    (defaults : List Attribute) (a : Account) (t : Text) (at : Standing) (c : Counter) (t' : Text)
    (at' : Standing) (c' : Counter)
    → is_tag t ≡ true
    → is_tag t' ≡ true
    → is_counter t at c t' at' c' ≡ true
    → count defaults a t at c ≡ count defaults a t' at' c'
count-is_counter defaults a t at c t' at' c' k k' h =
    let key = record_key t at (counter_word c) in
    let key' = record_key t' at' (counter_word c') in
    let same = same_name-record_key t t' at at' (counter_word c) (counter_word c') k k' ∙ h in
    let new : same_name (new_key key) (new_key key') ≡ true =
      rw (new_key-record_key t at (counter_word c), new_key-record_key t' at' (counter_word c'))
        same in
    ap number_of (lookup-same_name defaults a.attrs key key' new)

count-lt :
    (defaults : List Attribute) (a : Account) (t : Text) (at : Standing) (c : Counter)
    → count defaults a t at c < 2 ^ 32
count-lt defaults a t at c = number_of-lt (value_at defaults a (record_key t at (counter_word c)))

one_more :
    (b : Bool) (x y : ℕ)
    → y < 2 ^ 32
    → (b ≡ true → x ≡ y)
    → (if b then u32 (x + 1) else y) ≡ u32 (y + (if b then 1 else 0))
one_more true x y h same = ap (λ z. u32 (z + 1)) (same refl)
one_more false x y h same = omega (arith, h)

count-same :
    (defaults : List Attribute) (a : Account) (t : Text) (at : Standing) (c : Counter)
    → count defaults a t at c ≡ u32 (count defaults a t at c + 0)
count-same defaults a t at c = omega (arith, count-lt defaults a t at c)

-- An account whose counters are those of another.
same_counts :
    (defaults : List Attribute) (a b : Account)
    → IsReady b
    → ((t' : Text) (at' : Standing) (c' : Counter)
        → is_tag t' ≡ true
        → count defaults b t' at' c' ≡ count defaults a t' at' c')
    → IsCounted defaults (λ _ _ _. 0) a b
same_counts defaults a b r same = record {
  ready = r;
  counts = λ t' at' c' k'. same t' at' c' k' ∙ count-same defaults a t' at' c';
}

last_game_IsOther : IsOther (codes "last game")
unfolding same_name strcasecmp fold_case
last_game_IsOther wins = refl
last_game_IsOther losses = refl
last_game_IsOther draws = refl
last_game_IsOther disconnects = refl

last_result_IsOther : IsOther (codes "last game result")
unfolding same_name strcasecmp fold_case
last_result_IsOther wins = refl
last_result_IsOther losses = refl
last_result_IsOther draws = refl
last_result_IsOther disconnects = refl

module _ (disk : Disk) (defaults : List Attribute) where
  inc_IsCounted :
      (a : Account) (t : Text) (at : Standing) (c : Counter)
      → IsReady a
      → is_tag t ≡ true
      → IsCountedSome defaults
          (λ t' at' c'. if is_counter t at c t' at' c' then 1 else 0)
          a
          (after (account_inc_counter true disk defaults a t at c))
  inc_IsCounted a t at c r k =
      let (b, e, ready, counts) = inc_counter-count disk defaults a t at c r k in
      rw e (record {
        ready = ready;
        counts = λ t' at' c' k'.
            counts t' at' c' k'
            ∙ one_more (is_counter t at c t' at' c') (count defaults a t at c)
                (count defaults a t' at' c') (count-lt defaults a t' at' c')
                (count-is_counter defaults a t at c t' at' c' k k');
      })

  last_IsCounted :
      (a : Account) (t : Text) (at : Standing) (word val : Text)
      → IsReady a
      → is_tag t ≡ true
      → IsOther word
      → IsCountedSome defaults (λ _ _ _. 0) a (after (set_last true disk defaults a t at word val))
  unfolding set_last
  last_IsCounted a t at word val r k other =
      let key = record_key t at word in
      rw (k, set_strattr-loaded disk a key (some val) r.0)
        (same_counts defaults a (with_attr a key (some val)) (IsReady-with_attr a key (some val) r)
          (λ t' at' c' k'. count-other defaults a t at word val t' at' c' r k k' other))

  -- Reading sets only `accessed`.
  reread :
      (a : Account) (o : Option Account)
      → IsCountedSome defaults (λ _ _ _. 0) (read_account a) o
      → IsCountedSome defaults (λ _ _ _. 0) a o
  reread a none v = v
  reread a (some b) v = record { ready = v.ready; counts = v.counts }

  joined :
      (a b : Account) (n m : Text → Standing → Counter → ℕ) (o : Option Account)
      → IsCounted defaults n a b
      → IsCountedSome defaults m b o
      → IsCountedSome defaults (λ t' at' c'. n t' at' c' + m t' at' c') a o
  joined a b n m none v w = w
  joined a b n m (some d) v w = record {
    ready = w.ready;
    counts = λ t' at' c' k'. w.counts t' at' c' k' ∙ ground (arith, v.counts t' at' c' k');
  }

  chained :
      (a : Account) (n m : Text → Standing → Counter → ℕ) (o : Option Account)
      (next : Account → Option Account)
      → IsCountedSome defaults n a o
      → ((b : Account) → IsReady b → IsCountedSome defaults m b (next b))
      → IsCountedSome defaults (λ t' at' c'. n t' at' c' + m t' at' c') a (o >>= next)
  chained a n m none next v more = v
  chained a n m (some b) next v more = joined a b n m (next b) v (more b v.ready)

  module _ (init_rating : ℤ) (now : Text) where
    unrated_IsCounted :
        (a : Account) (t : Text) (id : LadderId)
        → IsReady a
        → is_tag t ≡ true
        → IsCountedSome defaults
            (λ _ _ _. 0)
            a
            (init_unrated true disk defaults init_rating now a t id)
    unfolding init_unrated account_get_counter
    unrated_IsCounted a t id r k =
        let b = read_account a in
        let (adjusted, e, v) =
          adjust_ladder_rating-IsAdjusted disk defaults b t id init_rating r k in
        let w = count defaults a t (on_ladder id) wins in
        let l = count defaults a t (on_ladder id) losses in
        rw
          (
            get_number_loaded disk defaults a t (on_ladder id) (codes "wins") r.0 k,
            get_number_loaded disk defaults b t (on_ladder id) (codes "losses") r.0 k,
          )
          (elim (Bool-cases (ltb 0 (u32 (w + l)))) [
            | inl more ↦ rw more (same_counts defaults a b r (λ t' at' c' k'. refl))
            | inr none_yet ↦ rw (none_yet, e) (same_counts defaults a adjusted v.ready v.counts)
          ])

    rated_IsCounted :
        (a : Account) (t : Text) (id : LadderId) (rating : ℕ)
        → IsReady a
        → is_tag t ≡ true
        → IsCountedSome defaults
            (λ _ _ _. 0)
            a
            (init_rated true disk defaults init_rating now t id (rating, a))
    unfolding init_rated
    rated_IsCounted a t id rating r k = elim (Bool-cases (rating == 0)) [
      | inl e ↦ rw e (unrated_IsCounted a t id r k)
      | inr e ↦ rw e (same_counts defaults a a r (λ t' at' c' k'. refl))
    ]

    init_IsCounted :
        (a : Account) (t : Text) (id : LadderId)
        → IsReady a
        → is_tag t ≡ true
        → IsCountedSome defaults
            (λ _ _ _. 0)
            a
            (ladder_init_account true disk defaults init_rating now a t id)
    unfolding ladder_init_account
    init_IsCounted a t id r k =
        rw (k, get_number_loaded disk defaults a t (on_ladder id) (codes "rating") r.0 k)
          (reread a
            (init_rated true disk defaults init_rating now t id
              (number_at defaults a (record_key t (on_ladder id) (codes "rating")), read_account a))
            (rated_IsCounted (read_account a) t id
              (number_at defaults a (record_key t (on_ladder id) (codes "rating"))) r k))

    apply_op-IsCounted :
        (a : Account) (t : Text) (op : AccountOp)
        → IsReady a
        → is_tag t ≡ true
        → IsCountedSome defaults
            (λ t' at' c'. if hits t (counter_of op) t' at' c' then 1 else 0)
            a
            (apply_op true disk defaults init_rating now a t op)
    unfolding apply_op
    apply_op-IsCounted a t (init_account id) r k = init_IsCounted a t id r k
    apply_op-IsCounted a t (inc_wins at) r k = inc_IsCounted a t at wins r k
    apply_op-IsCounted a t (inc_losses at) r k = inc_IsCounted a t at losses r k
    apply_op-IsCounted a t (inc_draws at) r k = inc_IsCounted a t at draws r k
    apply_op-IsCounted a t (inc_disconnects at) r k = inc_IsCounted a t at disconnects r k
    apply_op-IsCounted a t (last_result at res) r k =
        last_IsCounted a t at (codes "last game result") (game_result_get_str res) r k
          last_result_IsOther
    apply_op-IsCounted a t (last_time at) r k =
        last_IsCounted a t at (codes "last game") now r k last_game_IsOther

    -- An account whose attributes are loaded, no key twice up to case, and a client tag of four
    -- characters, with memory: the operations that a game's report has for a player all come to an
    -- end on the account, keep it so, and raise each counter, of this tag or any other, by the
    -- number of operations that are for it, modulo 2^32.
    pub apply_ops-times :
        (a : Account) (t : Text) (ops : List AccountOp)
        → IsReady a
        → is_tag t ≡ true
        → IsCountedSome defaults
            (times t ops)
            a
            (apply_ops true disk defaults init_rating now a t ops)
    unfolding apply_ops
    apply_ops-times a t [] r k = same_counts defaults a a r (λ t' at' c' k'. refl)
    apply_ops-times a t (op ∷ ops) r k =
        chained a _ (times t ops) (apply_op true disk defaults init_rating now a t op)
          (λ b. apply_ops true disk defaults init_rating now b t ops)
          (apply_op-IsCounted a t op r k) (λ b v. apply_ops-times b t ops v k)
