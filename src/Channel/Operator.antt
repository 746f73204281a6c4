-- ===== src/Channel/Operator.antt =====
-- `channel_choose_operator` and `channel_set_next_operator`.
use bnetd.Prelude.{
  ℕ, Bool, true, false, ◌&&◌, ◌||◌, not, List, [], ◌∷◌, Option, none, some, if◌then◌else◌,
}
use bnetd.Prelude.Text.{codes}
use bnetd.Channel.{Channel, World, Users, Rc, ok, fail, info, is_conn, same_conn, set_gavel, send}

-- `conn_get_channel(c)==channel`
abbrev pub stands_in : World → ℕ → Channel → Bool
stands_in w c ch = is_conn (w.home c) ch.id

module _ (users : Users) where
  -- One round of the loop over the members: the new value of `newop`.
  unfoldable pub consider : Channel → Option ℕ → ℕ → Option ℕ → Option ℕ
  consider ch tryop m newop =
      if is_conn ch.opr m
      then newop
      else if not (users.has_account m)
      then newop
      else if not (same_conn tryop none || is_conn tryop m)
      then newop
      else if users.auth_operator m ch.name
      then some m
      else if not ch.allowopers
      then newop
      else if users.auth_operator_any m
      then some m
      else newop

  unfoldable pub choose_loop : Channel → Option ℕ → List ℕ → Option ℕ → Option ℕ
  choose_loop ch tryop [] newop = newop
  choose_loop ch tryop (m ∷ ms) newop = choose_loop ch tryop ms (consider ch tryop m newop)

-- `if (oldop)` of the flag update.
unfoldable pub retire : Option ℕ → World → World
retire none w = w
retire (some o) w = set_gavel o false w

-- `if (channel->opr)` of the flag update.
unfoldable pub appoint : Option ℕ → World → World
appoint none w = w
appoint (some o) w =
    send
      (record {
        to = o;
        kind = info;
        from = o;
        text = codes "You are now the operator for this channel.";
      })
      (set_gavel o true w)

-- From "the requested connection was not chosen" to the end; `ch.opr` is the choice.
unfoldable pub settle : Option ℕ → Option ℕ → Channel → World → Rc × Channel × World
settle oldop tryop ch w =
    if not (same_conn tryop none) && not (same_conn ch.opr tryop)
    then (fail, ch, w)
    else let ch' = if same_conn oldop ch.opr then record ch { opr = none } else ch in
      (ok, ch', appoint ch'.opr (retire oldop w))

unfoldable pub choose_operator : Users → Channel → Option ℕ → World → Rc × Channel × World
choose_operator users ch tryop w = elim ch.next_opr [
  | some n ↦
      if not (stands_in w n ch)
      then (fail, ch, w)
      else settle ch.opr tryop (record ch { opr = some n; next_opr = none }) w
  | none ↦
      settle ch.opr tryop (record ch { opr = choose_loop users ch tryop ch.memberlist ch.opr }) w
]

unfoldable pub set_next_operator : Channel → Option ℕ → Rc × Channel
set_next_operator ch conn =
    if not (same_conn conn none) && same_conn ch.opr conn
    then (fail, ch)
    else (ok, record ch { next_opr = conn })
