-- ===== src/Account/File/Line.antt =====
-- Reading a line that was written.
use bnetd.Prelude.{ℕ, ◌≡◌, refl, ap, false, [], ◌∷◌, ◌++◌, none, some, arith}
use mathlib.Core.List.{append_assoc}
use bnetd.Prelude.Text.{Text}
use bnetd.Util.Unescape.{IsPrintable, IsPrintable-append}
use bnetd.Account.File.{quote, until_nul, is_empty, line_loop, file_get_line}

until_nul-IsPrintable : (s : Text) → IsPrintable s → until_nul s ≡ s
unfolding until_nul
until_nul-IsPrintable [] v = refl
until_nul-IsPrintable (c ∷ s) v = ground (arith, until_nul-IsPrintable s v.2, v.0)

is_empty-append : (line : Text) (c : ℕ) → is_empty (line ++ c ∷ []) ≡ false
is_empty-append [] c = refl
is_empty-append (d ∷ line) c = refl

-- Printable characters up to a quote, and the end of the line.
line_loop-quote :
    (prev : ℕ) (line s fp : Text)
    → IsPrintable s
    → line_loop prev line (s ++ quote ∷ 10 ∷ fp) ≡ (line ++ (s ++ quote ∷ []), some fp)
unfolding line_loop
line_loop-quote prev line [] fp v = rw (is_empty-append line quote) refl
line_loop-quote prev line (c ∷ s) fp v =
    let next = line_loop-quote c (line ++ c ∷ []) s fp v.2 in
    let text = append_assoc line (c ∷ []) (s ++ quote ∷ []) in ground (arith, next, text, v.0)

pub file_get_line-quote :
    (s fp : Text)
    → IsPrintable s
    → file_get_line (s ++ quote ∷ 10 ∷ fp) ≡ some (s ++ quote ∷ [], fp)
unfolding file_get_line
file_get_line-quote s fp v =
    let whole = IsPrintable-append s (quote ∷ []) v (omega arith, omega arith, tt) in
    rw (line_loop-quote 0 [] s fp v)
      (ap (λ l. some (l, fp)) (until_nul-IsPrintable (s ++ quote ∷ []) whole))

pub file_get_line-nil : file_get_line [] ≡ none
unfolding file_get_line line_loop
file_get_line-nil = refl
