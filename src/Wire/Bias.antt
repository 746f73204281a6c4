-- ===== src/Wire/Bias.antt =====
-- Time zone biases, the only numbers that `uint32_to_int` is used for.
use bnetd.Prelude.{ℕ, ◌-◌, ◌*◌, ◌^◌, ◌≤◌, ◌<◌, ◌≡◌, ◌↔◌, arith, none, some, ltb, if◌then◌else◌}
use bnetd.Prelude.Int.{ℤ, pos, negsuc, ◌+ℤ◌}
use bnetd.Wire.{uint32_to_int}

-- The signed number that 32 bits stand for.
unfoldable pub twos_complement : ℕ → ℤ
twos_complement n = if ltb n (2 ^ 31) then pos n else negsuc (2 ^ 32 - 1 - n)

-- Of 32 bits `uint32_to_int` gives the signed number that they stand for exactly if they are below
-- 2 ^ 30. It gives another number below 3 * 2 ^ 30, and from there on its sum overflows.
pub uint32_to_int_iff :
    (n : ℕ)
    → n < 2 ^ 32
    → ((uint32_to_int n ≡ some (twos_complement n)) ↔ (n < 2 ^ 30))
      × ((uint32_to_int n ≡ none) ↔ (3 * 2 ^ 30 ≤ n))
unfolding uint32_to_int twos_complement ◌+ℤ◌
uint32_to_int_iff n h = ground arith
