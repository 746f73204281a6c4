-- ===== src/Account/File/Ending.antt =====
-- The loop over the lines of a file comes to the file's end.
use bnetd.Prelude.{
  ℕ, zero, suc, ◌≤◌, ◌<◌, ◌≡◌, refl, sym, ap, ◌∙◌, Bool, List, [], ◌∷◌, ◌++◌, Option, none, some,
  inl, inr, Option-cases, if◌then◌else◌, length, arith,
}
use bnetd.Prelude.Text.{Text}
use bnetd.Account.{Attribute}
use bnetd.Account.File.Line.{file_get_line-nil}
use bnetd.Account.File.{
  until_nul, file_get_line, line_loop, rest_of, at_end, drop_last, load_line, load_loop, load_file,
}

-- What the loop is left with after a call that finds the end, an overrun, or a line.
pub data IsRun (mem : Bool) : Text → List Attribute → Option (List Attribute) → Type 0 where
  ended :
      (fp : Text) (attrs : List Attribute)
      → file_get_line fp ≡ none
      → IsRun mem fp attrs (some attrs)
  overrun :
      (fp : Text) (attrs : List Attribute) (buff rest : Text)
      → file_get_line fp ≡ some (buff, rest)
      → load_line mem buff attrs ≡ none
      → IsRun mem fp attrs none
  next :
      (fp : Text) (attrs : List Attribute) (buff rest : Text) (attrs' : List Attribute)
      (out : Option (List Attribute))
      → file_get_line fp ≡ some (buff, rest)
      → load_line mem buff attrs ≡ some attrs'
      → IsRun mem rest attrs' out
      → IsRun mem fp attrs out

-- What is left is no longer than the file, and shorter where a byte was read.
rest_of-line_loop :
    (prev : ℕ) (line fp : Text) → length (rest_of (line_loop prev line fp).1) ≤ length fp
unfolding line_loop
rest_of-line_loop prev line [] = omega arith
rest_of-line_loop prev line (c ∷ fp) = ground (
  arith,
  rest_of-line_loop prev line fp,
  rest_of-line_loop 0 (drop_last line) fp,
  rest_of-line_loop c (line ++ c ∷ []) fp,
)

rest_of-some :
    (prev : ℕ) (line : Text) (c : ℕ) (fp : Text)
    → length (rest_of (line_loop prev line (c ∷ fp)).1) ≤ length fp
unfolding line_loop
rest_of-some prev line c fp = ground (
  arith,
  rest_of-line_loop prev line fp,
  rest_of-line_loop 0 (drop_last line) fp,
  rest_of-line_loop c (line ++ c ∷ []) fp,
)

abbrev picked : Text × Option Text → Option (Text × Text)
picked r = if at_end r then none else some (until_nul r.0, rest_of r.1)

rest_of-picked :
    (r : Text × Option Text) (buff rest : Text) → picked r ≡ some (buff, rest) → rest_of r.1 ≡ rest
rest_of-picked r buff rest h = ground (arith, h)

-- Every line takes a byte at least.
pub length-file_get_line :
    (fp buff rest : Text) → file_get_line fp ≡ some (buff, rest) → length rest < length fp
unfolding file_get_line
length-file_get_line [] buff rest h = ground (arith, sym file_get_line-nil ∙ h)
length-file_get_line (c ∷ fp) buff rest h = omega (
  arith,
  rest_of-some 0 [] c fp,
  ap length (rest_of-picked (line_loop 0 [] (c ∷ fp)) buff rest h),
)

-- With more fuel than the file has bytes, the loop comes to the file's end or to an overrun.
load_loop-IsRun :
    (mem : Bool) (fuel : ℕ) (fp : Text) (attrs : List Attribute)
    → length fp < fuel
    → IsRun mem fp attrs (load_loop mem fuel fp attrs)
unfolding load_loop
load_loop-IsRun mem zero fp attrs h = elim h [ ]
load_loop-IsRun mem (suc fuel) fp attrs h = elim (Option-cases (file_get_line fp)) [
  | inl e ↦ rw (load_loop, e) (ended fp attrs e)
  | inr ((buff, rest), e) ↦ elim (Option-cases (load_line mem buff attrs)) [
    | inl f ↦ rw (load_loop, e, f) (overrun fp attrs buff rest e f)
    | inr (attrs', f) ↦
        let shorter = length-file_get_line fp buff rest e in
        rw (load_loop, e, f)
          (next fp attrs buff rest attrs' _ e f
            (load_loop-IsRun mem fuel rest attrs' (omega (arith, shorter, h))))
  ]
]

-- A run comes to what any fuel beyond the number of bytes gives.
load_loop-fuel :
    (mem : Bool) (fp : Text) (attrs : List Attribute) (out : Option (List Attribute))
    → IsRun mem fp attrs out
    → (fuel : ℕ) → length fp < fuel
    → load_loop mem fuel fp attrs ≡ out
unfolding load_loop
load_loop-fuel mem fp attrs out r zero h = elim h [ ]
load_loop-fuel mem _ _ _ (ended fp attrs e) (suc fuel) h = rw (load_loop, e) refl
load_loop-fuel mem _ _ _ (overrun fp attrs buff rest e f) (suc fuel) h = rw (load_loop, e, f) refl
load_loop-fuel mem _ _ _ (next fp attrs buff rest attrs' out e f r) (suc fuel) h =
    let shorter = length-file_get_line fp buff rest e in
    rw (load_loop, e, f) (load_loop-fuel mem rest attrs' out r fuel (omega (arith, shorter, h)))

-- Whatever the file holds, the loop of `account_load_attrs` ends: it comes to the end of the file
-- or to a line that overruns a buffer; and any fuel beyond the number of the file's bytes gives the
-- same outcome.
pub load_file-IsRun :
    (mem : Bool) (fuel : ℕ) (fp : Text) (attrs : List Attribute)
    → length fp < fuel
    → IsRun mem fp attrs (load_file mem fp attrs)
      × (load_loop mem fuel fp attrs ≡ load_file mem fp attrs)
unfolding load_file
load_file-IsRun mem fuel fp attrs h =
    let run = load_loop-IsRun mem (suc (length fp)) fp attrs (omega arith) in
    (run, load_loop-fuel mem fp attrs _ run fuel h)
