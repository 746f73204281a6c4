-- ===== src/Wire/Tests.antt =====
-- The theorems on the bytes of packets at some numbers and tags.
use bnetd.Prelude.{◌*◌, ◌^◌, ◌≤◌, ◌<◌, ◌≡◌, ◌↔◌, refl, arith, none, some, ◌>>=◌}
use bnetd.Prelude.Text.{codes}
use bnetd.Wire.{BnInt, bn_int_set, bn_int_nset, bn_short_tag_set, bn_short_tag_get, uint32_to_int}
use bnetd.Wire.Order.{IsShortCode, IsIntCode, IsLongCode, fields-AreCodes}
use bnetd.Wire.Tags.{tag4, IsTagCode, bn_int-IsTagCode, second_half, bn_short_tag_set-second_half}
use bnetd.Wire.Bias.{twos_complement, uint32_to_int_iff}

fields-AreCodes_example : IsShortCode 6112 × IsIntCode 305419896 × IsLongCode 305419896 4294967295
fields-AreCodes_example =
    fields-AreCodes 6112 305419896 305419896 4294967295 (omega arith) (omega arith) (omega arith)
      (omega arith)

-- "STAR" with its last letter at the lowest address
abbrev star : BnInt
star = record { b0 = b'R'; b1 = b'A'; b2 = b'T'; b3 = b'S' }

bn_int-IsTagCode_example : IsTagCode star (tag4 b'S' b'T' b'A' b'R')
bn_int-IsTagCode_example =
    bn_int-IsTagCode star b'S' b'T' b'A' b'R'
      (record { b0 = omega arith; b1 = omega arith; b2 = omega arith; b3 = omega arith })
      (record { b0 = omega arith; b1 = omega arith; b2 = omega arith; b3 = omega arith })

half_of_star :
    (do s ← bn_short_tag_set (codes "STAR"); bn_short_tag_get s 3) ≡ second_half (codes "STAR")
half_of_star = bn_short_tag_set-second_half (codes "STAR")

-- -60 minutes
uint32_to_int_iff_example :
    ((uint32_to_int 4294967236 ≡ some (twos_complement 4294967236)) ↔ (4294967236 < 2 ^ 30))
    × ((uint32_to_int 4294967236 ≡ none) ↔ (3 * 2 ^ 30 ≤ 4294967236))
uint32_to_int_iff_example = uint32_to_int_iff 4294967236 (omega arith)

orders_differ : bn_int_set 258 ≡ record { b0 = 2; b1 = 1; b2 = 0; b3 = 0 }
unfolding bn_int_set
orders_differ = refl

network_order : bn_int_nset 258 ≡ record { b0 = 0; b1 = 0; b2 = 1; b3 = 2 }
unfolding bn_int_nset
network_order = refl
