-- ===== src/Channel/Members.antt =====
-- `channel_add_connection`, `channel_del_connection` and `channel_get_length`.
use bnetd.Prelude.{
  ℕ, suc, ◌+◌, ◌-◌, ◌^◌, u32, Bool, true, false, ◌&&◌, not, List, [], ◌∷◌, Option, none, some, ◌==◌,
  if◌then◌else◌,
}
use bnetd.Channel.{
  Channel, World, Users, Rc, ok, fail, is_conn, send, adduser, join, part, channel, info,
}
use bnetd.Channel.Operator.{choose_operator, set_next_operator}
use bnetd.Channel.Message.{message_send}
use bnetd.Channel.Bans.{check_banning}

-- The loop of `channel_get_length`.
unfoldable pub count_members : List ℕ → ℕ
count_members [] = 0
count_members (m ∷ ms) = suc (count_members ms)

unfoldable pub get_length : Channel → ℕ
get_length ch = count_members ch.memberlist

-- One round of the loop that introduces `c` and the member `user` to one another.
unfoldable pub greet : ℕ → ℕ → World → World
greet c user w =
    let w' = send (record { to = c; kind = adduser; from = user; text = [] }) w in
    if user == c then w' else send (record { to = user; kind = join; from = c; text = [] }) w'

unfoldable pub greet_loop : ℕ → List ℕ → World → World
greet_loop c [] w = w
greet_loop c (u ∷ us) w = greet_loop c us (greet c u w)

unfoldable pub log_notice : Users → Channel → ℕ → World → World
log_notice users ch c w =
    if ch.log then send (record { to = c; kind = info; from = c; text = users.log_notice }) w else w

-- `if (!channel->opr)`, with `channel->opr` as the first argument. What
-- `channel_choose_operator` returns is not looked at.
unfoldable pub elect : Users → Option ℕ → Channel → ℕ → World → Channel × World
elect users (some o) ch c w = (ch, w)
elect users none ch c w = let (rc, ch', w') = choose_operator users ch (some c) w in (ch', w')

-- `malloc` succeeds if `mem` holds.
unfoldable pub add_connection : Users → Bool → Channel → ℕ → World → Rc × Channel × World
add_connection users mem ch c w =
    if check_banning users ch c
    then (fail, ch, w)
    else if not mem
    then (fail, ch, w)
    else let ch₁ = record ch {
      memberlist = c ∷ ch.memberlist;
      currmembers = u32 (ch.currmembers + 1);
    } in
      let w₁ = send (record { to = c; kind = channel; from = c; text = ch.name }) w in
      let w₂ = log_notice users ch c (greet_loop c ch₁.memberlist w₁) in
      let (ch₂, w₃) = elect users ch₁.opr ch₁ c w₂ in (ok, ch₂, w₃)

-- The first member that is `c` is taken out; `none` if there is none.
unfoldable pub unlink : ℕ → List ℕ → Option (List ℕ)
unlink c [] = none
unlink c (m ∷ ms) =
    let rest = unlink c ms in
    if m == c then some ms else elim rest [ none ↦ none | some r ↦ some (m ∷ r) ]

-- How `channel_del_connection` ends: it reads through the NULL `memberlist` of an empty channel,
-- or it returns, and `gone` tells whether it has destroyed the channel.
pub data Parted : Type 0 where
  crash : Parted
  returned : (rc : Rc) (ch : Channel) (gone : Bool) (w : World) → Parted

-- `if (channel->next_opr==connection)`
unfoldable pub drop_next : ℕ → Channel → Channel
drop_next c ch = if is_conn ch.next_opr c then (set_next_operator ch none).1 else ch

-- `if (channel->opr==connection)`
unfoldable pub drop_opr : Users → ℕ → Channel → World → Channel × World
drop_opr users c ch w =
    if is_conn ch.opr c
    then (let (rc, ch', w') = choose_operator users ch none w in (ch', w'))
    else (ch, w)

abbrev pub is_empty : List ℕ → Bool
is_empty [] = true
is_empty (m ∷ ms) = false

unfoldable pub del_connection : Users → Channel → ℕ → World → Parted
del_connection users ch c w =
    let w₁ = message_send users part c [] ch w in
    if is_empty ch.memberlist then crash else elim (unlink c ch.memberlist) [
      | none ↦ returned fail ch false w₁
      | some ms ↦
          let (ch₂, w₂) =
            drop_opr users c
              (drop_next c
                (record ch { memberlist = ms; currmembers = u32 (ch.currmembers + 2 ^ 32 - 1) }))
              w₁ in
          returned ok ch₂ (is_empty ch₂.memberlist && not ch₂.permanent) w₂
    ]
