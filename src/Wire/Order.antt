-- ===== src/Wire/Order.antt =====
-- The orders of bytes in which numbers are stored and read.
use bnetd.Prelude.{ℕ, ◌^◌, ◌<◌, ◌≡◌, arith}
use bnetd.Wire.{
  BnShort, BnInt, BnLong, bn_short_get, bn_short_nget, bn_int_get, bn_int_nget, bn_long_get_a,
  bn_long_get_b, bn_short_set, bn_short_nset, bn_int_set, bn_int_nset, bn_long_set_a_b,
}

-- The entries are bytes.
pub record IsShort (s : BnShort) : Type 0 where
  pub b0 : s.b0 < 256
  pub b1 : s.b1 < 256

pub record IsInt (s : BnInt) : Type 0 where
  pub b0 : s.b0 < 256
  pub b1 : s.b1 < 256
  pub b2 : s.b2 < 256
  pub b3 : s.b3 < 256

pub record IsLong (s : BnLong) : Type 0 where
  pub b0 : s.b0 < 256
  pub b1 : s.b1 < 256
  pub b2 : s.b2 < 256
  pub b3 : s.b3 < 256
  pub b4 : s.b4 < 256
  pub b5 : s.b5 < 256
  pub b6 : s.b6 < 256
  pub b7 : s.b7 < 256

-- `n` is read back in the order in which it was stored, and no other bytes stand for it.
pub record IsShortCode (n : ℕ) : Type 0 where
  pub little : bn_short_get (bn_short_set n) ≡ n
  pub big : bn_short_nget (bn_short_nset n) ≡ n
  pub little_unique : (s : BnShort) → IsShort s → bn_short_get s ≡ n → s ≡ bn_short_set n
  pub big_unique : (s : BnShort) → IsShort s → bn_short_nget s ≡ n → s ≡ bn_short_nset n

pub record IsIntCode (n : ℕ) : Type 0 where
  pub little : bn_int_get (bn_int_set n) ≡ n
  pub big : bn_int_nget (bn_int_nset n) ≡ n
  pub little_unique : (s : BnInt) → IsInt s → bn_int_get s ≡ n → s ≡ bn_int_set n
  pub big_unique : (s : BnInt) → IsInt s → bn_int_nget s ≡ n → s ≡ bn_int_nset n

pub record IsLongCode (a b : ℕ) : Type 0 where
  pub high : bn_long_get_a (bn_long_set_a_b a b) ≡ a
  pub low : bn_long_get_b (bn_long_set_a_b a b) ≡ b
  pub unique :
      (s : BnLong) → IsLong s → bn_long_get_a s ≡ a → bn_long_get_b s ≡ b → s ≡ bn_long_set_a_b a b

-- A number of 16 bits is read back from a `bn_short` in the order in which it was stored, in either
-- order, and the two bytes that are stored are the only ones that stand for it.
bn_short-IsShortCode : (n : ℕ) → n < 2 ^ 16 → IsShortCode n
unfolding bn_short_get bn_short_set bn_short_nget bn_short_nset
bn_short-IsShortCode n h = record {
  little = omega arith;
  big = omega arith;
  little_unique = λ s b e. ground (arith, b.b0, b.b1);
  big_unique = λ s b e. ground (arith, b.b0, b.b1);
}

-- A number of 32 bits is read back from a `bn_int` in the order in which it was stored, in either
-- order, and the four bytes that are stored are the only ones that stand for it.
bn_int-IsIntCode : (n : ℕ) → n < 2 ^ 32 → IsIntCode n
unfolding bn_int_get bn_int_set bn_int_nget bn_int_nset
bn_int-IsIntCode n h = record {
  little = omega arith;
  big = omega arith;
  little_unique = λ s b e. ground (arith, b.b0, b.b1, b.b2, b.b3);
  big_unique = λ s b e. ground (arith, b.b0, b.b1, b.b2, b.b3);
}

-- The two halves of 32 bits that `bn_long_set_a_b` stores are read back, the first by
-- `bn_long_get_a` and the second by `bn_long_get_b`, and no other eight bytes have these halves.
bn_long-IsLongCode : (a b : ℕ) → a < 2 ^ 32 → b < 2 ^ 32 → IsLongCode a b
unfolding bn_long_get_a bn_long_get_b bn_long_set_a_b
bn_long-IsLongCode a b h k = record {
  high = omega arith;
  low = omega arith;
  unique = λ s v p q. ground (arith, v.b0, v.b1, v.b2, v.b3, v.b4, v.b5, v.b6, v.b7);
}

-- A number of 16 bits in a `bn_short`, and one of 32 bits in a `bn_int`, is read back in the order
-- in which it was stored, in either order, and the bytes that are stored are the only ones that
-- stand for it; the two halves of 32 bits that `bn_long_set_a_b` stores are read back by
-- `bn_long_get_a` and `bn_long_get_b`, and no other eight bytes have these halves.
pub fields-AreCodes :
    (m n a b : ℕ)
    → m < 2 ^ 16
    → n < 2 ^ 32
    → a < 2 ^ 32
    → b < 2 ^ 32
    → IsShortCode m × IsIntCode n × IsLongCode a b
fields-AreCodes m n a b h k p q =
    (bn_short-IsShortCode m h, bn_int-IsIntCode n k, bn_long-IsLongCode a b p q)
