-- ===== src/Util/Number.antt =====
-- `str_to_uint` and `str_to_ushort` of src/common/util.c on a string without its NUL. `int` has 32
-- bits and `short` 16. `none` stands for -1.
use bnetd.Prelude.{
  ℕ, ◌+◌, ◌-◌, ◌*◌, ◌/◌, ◌&&◌, ◌||◌, [], ◌∷◌, Option, none, some, ◌==◌, ltb, leb, u16, u32,
  if◌then◌else◌, ◌>>=◌,
}
use bnetd.Prelude.Text.{Text}

unfoldable pub skip_blanks : Text → Text
skip_blanks [] = []
skip_blanks (c ∷ s) = let rest = skip_blanks s in if c == b' ' || c == 9 then rest else c ∷ s

unfoldable pub skip_plus : Text → Text
skip_plus [] = []
skip_plus (c ∷ s) = if c == b'+' then s else c ∷ s

-- What the `switch` adds.
unfoldable pub digit : ℕ → Option ℕ
digit c = if leb b'0' c && leb c b'9' then some (c - b'0') else none

-- One round of the loop in each function.
unfoldable pub uint_step : ℕ → ℕ → Option ℕ
uint_step pval c =
    let val = u32 (pval * 10) in
    if val / 10 == pval
    then (do d ← digit c; if ltb (u32 (val + d)) val then none else some (u32 (val + d)))
    else none

unfoldable pub ushort_step : ℕ → ℕ → Option ℕ
ushort_step pval c =
    let val = u16 (pval * 10) in
    if val / 10 == pval
    then (do d ← digit c; if ltb (u16 (val + d)) val then none else some (u16 (val + d)))
    else none

unfoldable pub uint_loop : ℕ → Text → Option ℕ
uint_loop val [] = some val
uint_loop val (c ∷ s) = do next ← uint_step val c; uint_loop next s

unfoldable pub ushort_loop : ℕ → Text → Option ℕ
ushort_loop val [] = some val
ushort_loop val (c ∷ s) = do next ← ushort_step val c; ushort_loop next s

unfoldable pub str_to_uint : Text → Option ℕ
str_to_uint str = uint_loop 0 (skip_plus (skip_blanks str))

unfoldable pub str_to_ushort : Text → Option ℕ
str_to_ushort str = ushort_loop 0 (skip_plus (skip_blanks str))
