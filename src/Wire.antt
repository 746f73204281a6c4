-- ===== src/Wire.antt =====
-- src/common/bn_type.c: numbers and tags as the bytes of packets. A byte is a number below 2 ^ 8.
-- The terms that the source joins by `|` have no bit in common, so `|` is a sum here. NULL
-- arguments are left out. `none` stands for -1, and in `at` for a read behind the end of a string.
pub mod Order
pub mod Tags
pub mod Bias
mod Tests
use bnetd.Prelude.{
  ℕ, zero, suc, ◌+◌, ◌-◌, ◌*◌, ◌/◌, ◌%◌, ◌^◌, ◌≡◌, Bool, true, false, List, [], ◌∷◌, ◌++◌, Option,
  none, some, ◌==◌, ltb, u8, if◌then◌else◌, get_elem?, ◌>>=◌,
}
use bnetd.Prelude.Int.{ℤ, pos, negsuc, ◌+ℤ◌, ltb_ℤ}
use bnetd.Prelude.Text.{Text}

-- `bn_short`, `bn_int` and `bn_long`
pub record BnShort : Type 0 where
  pub b0 : ℕ
  pub b1 : ℕ

pub record BnInt : Type 0 where
  pub b0 : ℕ
  pub b1 : ℕ
  pub b2 : ℕ
  pub b3 : ℕ

pub record BnLong : Type 0 where
  pub b0 : ℕ
  pub b1 : ℕ
  pub b2 : ℕ
  pub b3 : ℕ
  pub b4 : ℕ
  pub b5 : ℕ
  pub b6 : ℕ
  pub b7 : ℕ

unfoldable pub bn_short_get : BnShort → ℕ
bn_short_get src = src.b0 + src.b1 * 2 ^ 8

unfoldable pub bn_short_nget : BnShort → ℕ
bn_short_nget src = src.b1 + src.b0 * 2 ^ 8

unfoldable pub bn_int_get : BnInt → ℕ
bn_int_get src = src.b0 + src.b1 * 2 ^ 8 + src.b2 * 2 ^ 16 + src.b3 * 2 ^ 24

unfoldable pub bn_int_nget : BnInt → ℕ
bn_int_nget src = src.b3 + src.b2 * 2 ^ 8 + src.b1 * 2 ^ 16 + src.b0 * 2 ^ 24

unfoldable pub bn_long_get_a : BnLong → ℕ
bn_long_get_a src = src.b4 + src.b5 * 2 ^ 8 + src.b6 * 2 ^ 16 + src.b7 * 2 ^ 24

unfoldable pub bn_long_get_b : BnLong → ℕ
bn_long_get_b src = src.b0 + src.b1 * 2 ^ 8 + src.b2 * 2 ^ 16 + src.b3 * 2 ^ 24

unfoldable pub bn_short_set : ℕ → BnShort
bn_short_set src = record { b0 = u8 src; b1 = u8 (src / 2 ^ 8) }

unfoldable pub bn_short_nset : ℕ → BnShort
bn_short_nset src = record { b0 = u8 (src / 2 ^ 8); b1 = u8 src }

unfoldable pub bn_int_set : ℕ → BnInt
bn_int_set src = record {
  b0 = u8 src;
  b1 = u8 (src / 2 ^ 8);
  b2 = u8 (src / 2 ^ 16);
  b3 = u8 (src / 2 ^ 24);
}

unfoldable pub bn_int_nset : ℕ → BnInt
bn_int_nset src = record {
  b0 = u8 (src / 2 ^ 24);
  b1 = u8 (src / 2 ^ 16);
  b2 = u8 (src / 2 ^ 8);
  b3 = u8 src;
}

unfoldable pub bn_long_set_a_b : ℕ → ℕ → BnLong
bn_long_set_a_b srca srcb = record {
  b0 = u8 srcb;
  b1 = u8 (srcb / 2 ^ 8);
  b2 = u8 (srcb / 2 ^ 16);
  b3 = u8 (srcb / 2 ^ 24);
  b4 = u8 srca;
  b5 = u8 (srca / 2 ^ 8);
  b6 = u8 (srca / 2 ^ 16);
  b7 = u8 (srca / 2 ^ 24);
}

unfoldable pub bn_long_nset_a_b : ℕ → ℕ → BnLong
bn_long_nset_a_b srca srcb = record {
  b0 = u8 (srca / 2 ^ 24);
  b1 = u8 (srca / 2 ^ 16);
  b2 = u8 (srca / 2 ^ 8);
  b3 = u8 srca;
  b4 = u8 (srcb / 2 ^ 24);
  b5 = u8 (srcb / 2 ^ 16);
  b6 = u8 (srcb / 2 ^ 8);
  b7 = u8 srcb;
}

-- `tag[i]` of a string, whose last byte is NUL.
unfoldable pub at : Text → ℕ → Option ℕ
at tag i = get_elem? (tag ++ 0 ∷ []) i

-- The loop of the `tag_get` functions: at most `n` bytes.
unfoldable pub copy : ℕ → Text → Text
copy zero src = []
copy (suc n) [] = []
copy (suc n) (b ∷ bs) = b ∷ copy n bs

-- What is in `dst` before the NUL.
abbrev pub tag_get : Text → ℕ → Option Text
tag_get src len = if ltb len 1 then none else some (copy (len - 1) src)

unfoldable pub bn_short_tag_get : BnShort → ℕ → Option Text
bn_short_tag_get src len = tag_get (src.b1 ∷ src.b0 ∷ []) len

unfoldable pub bn_int_tag_get : BnInt → ℕ → Option Text
bn_int_tag_get src len = tag_get (src.b3 ∷ src.b2 ∷ src.b1 ∷ src.b0 ∷ []) len

unfoldable pub bn_long_tag_get : BnLong → ℕ → Option Text
bn_long_tag_get src len =
    tag_get (src.b7 ∷ src.b6 ∷ src.b5 ∷ src.b4 ∷ src.b3 ∷ src.b2 ∷ src.b1 ∷ src.b0 ∷ []) len

unfoldable pub bn_short_tag_set : Text → Option BnShort
bn_short_tag_set tag = do b0 ← at tag 3; b1 ← at tag 2; some (record { b0 = b0; b1 = b1 })

unfoldable pub bn_int_tag_set : Text → Option BnInt
bn_int_tag_set tag = do
  b0 ← at tag 3
  b1 ← at tag 2
  b2 ← at tag 1
  b3 ← at tag 0
  some (record { b0 = b0; b1 = b1; b2 = b2; b3 = b3 })

unfoldable pub bn_long_tag_set : Text → Option BnLong
bn_long_tag_set tag = do
  b0 ← at tag 7
  b1 ← at tag 6
  b2 ← at tag 5
  b3 ← at tag 4
  b4 ← at tag 3
  b5 ← at tag 2
  b6 ← at tag 1
  b7 ← at tag 0
  some (record { b0 = b0; b1 = b1; b2 = b2; b3 = b3; b4 = b4; b5 = b5; b6 = b6; b7 = b7 })

-- `true` for 0 and `false` for -1
unfoldable pub bn_short_tag_eq : BnShort → Text → Option Bool
bn_short_tag_eq src tag = do
  temp ← bn_short_tag_set tag
  some (bn_short_get src == bn_short_get temp)

unfoldable pub bn_int_tag_eq : BnInt → Text → Option Bool
bn_int_tag_eq src tag = do temp ← bn_int_tag_set tag; some (bn_int_get src == bn_int_get temp)

unfoldable pub bn_long_tag_eq : BnLong → Text → Option Bool
bn_long_tag_eq src tag = do
  temp ← bn_long_tag_set tag
  some (
      if bn_long_get_a src == bn_long_get_a temp
      then bn_long_get_b src == bn_long_get_b temp
      else false)

-- A conversion to `int` of a number that `int` does not hold wraps around; a sum that overflows is
-- undefined, which is `none`.
abbrev pub to_int : ℕ → ℤ
to_int n = if ltb n (2 ^ 31) then pos n else negsuc (2 ^ 32 - n - 1)

abbrev pub fits_int : ℤ → Bool
fits_int (pos n) = ltb n (2 ^ 31)
fits_int (negsuc n) = ltb n (2 ^ 31)

unfoldable pub uint32_to_int : ℕ → Option ℤ
uint32_to_int num =
    if ltb num (2 ^ 30)
    then some (to_int num)
    else (let sum = to_int (num - 2 ^ 30) +ℤ negsuc 2147483647 in
        if fits_int sum then some sum else none)
