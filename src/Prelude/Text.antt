-- ===== src/Prelude/Text.antt =====
-- C strings as lists of byte values, the terminating NUL left out.
use Prim.Native.Char.{code}
use Prim.Native.String.{String}
use bnetd.Prelude.{ℕ, List, [], ◌∷◌}

abbrev pub Text : Type 0
Text = List ℕ

-- The bytes of an ASCII literal.
abbrev pub codes : String → Text
codes String.[] = []
codes (String.◌∷◌ c s) = code c ∷ codes s
