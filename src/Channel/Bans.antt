-- ===== src/Channel/Bans.antt =====
-- The ban list: `channel_ban_user`, `channel_unban_user` and `channel_check_banning`.
use bnetd.Prelude.{
  ℕ, Bool, true, false, ◌&&◌, ◌||◌, not, List, [], ◌∷◌, ◌++◌, Option, none, some, if◌then◌else◌,
}
use bnetd.Prelude.Text.{Text, codes}
use bnetd.Util.Case.{same_name}
use bnetd.Channel.{Channel, Users, Rc, ok, fail}

-- CHANNEL_NAME_BANNED and CHANNEL_NAME_KICKED
abbrev pub the_void : Text
the_void = codes "THE VOID"

-- The loop of `channel_ban_user`: some entry is the name, up to case.
unfoldable pub listed : List Text → Text → Bool
listed [] user = false
listed (b ∷ bs) user = same_name b user || listed bs user

-- `strdup` and `list_append_data` succeed if `mem` holds.
unfoldable pub ban_user : Bool → Channel → Text → Rc × Channel
ban_user mem ch user =
    if same_name ch.name the_void
    then (fail, ch)
    else if listed ch.banlist user
    then (ok, ch)
    else if mem
    then (ok, record ch { banlist = ch.banlist ++ user ∷ [] })
    else (fail, ch)

-- The loop of `channel_unban_user`: `none` if no entry is the name, and else the list without
-- the first one that is.
unfoldable pub unban_loop : List Text → Text → Option (List Text)
unban_loop [] user = none
unban_loop (b ∷ bs) user =
    let rest = unban_loop bs user in
    if same_name b user then some bs else elim rest [ none ↦ none | some r ↦ some (b ∷ r) ]

unfoldable pub unban_user : Channel → Text → Rc × Channel
unban_user ch user = elim (unban_loop ch.banlist user) [
  | none ↦ (fail, ch)
  | some r ↦ (ok, record ch { banlist = r })
]

-- The loop of `channel_check_banning`.
unfoldable pub some_match : Users → List Text → ℕ → Bool
some_match users [] c = false
some_match users (b ∷ bs) c = users.conn_match c b || some_match users bs c

unfoldable pub check_banning : Users → Channel → ℕ → Bool
check_banning users ch c =
    if not ch.allowbots && users.is_bot c then true else some_match users ch.banlist c
