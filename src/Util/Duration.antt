-- ===== src/Util/Duration.antt =====
-- seconds_to_timestr of src/common/util.c.
use bnetd.Prelude.{ℕ, ◌-◌, ◌*◌, ◌/◌, ◌++◌, [], ◌==◌, ltb, if◌then◌else◌}
use bnetd.Prelude.Text.{Text, codes}
use bnetd.Util.Print.{decimal}

-- `%d unit%s`
unfoldable pub counted : ℕ → Text → Text
counted n name = decimal n ++ (codes " " ++ (name ++ (if n == 1 then [] else codes "s")))

unfoldable pub seconds_to_timestr : ℕ → Text
seconds_to_timestr totsecs =
    let days = totsecs / 86400 in
    let hours = totsecs / 3600 - days * 24 in
    let minutes = totsecs / 60 - days * 24 * 60 - hours * 60 in
    let seconds = totsecs - days * 24 * 60 * 60 - hours * 60 * 60 - minutes * 60 in
    let short =
      counted minutes (codes "minute") ++ (codes " " ++ counted seconds (codes "second")) in
    let middle = counted hours (codes "hour") ++ (codes " " ++ short) in
    if ltb 0 days
    then counted days (codes "day") ++ (codes " " ++ middle)
    else if ltb 0 hours
    then middle
    else if ltb 0 minutes
    then short
    else counted seconds (codes "second") ++ codes "."
