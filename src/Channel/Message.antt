-- ===== src/Channel/Message.antt =====
-- `channel_message_send` and `channel_update_flags`.
use bnetd.Prelude.{ℕ, Bool, true, false, ◌&&◌, ◌||◌, not, List, [], ◌∷◌, ◌==◌, if◌then◌else◌}
use bnetd.Prelude.Text.{Text, codes}
use bnetd.Channel.{
  Channel, World, Users, MessageType, talk, join, whisper, emote, broadcast, info, userflags, send,
}

-- `type==message_type_talk || type==message_type_join`
abbrev pub skips_self : MessageType → Bool
skips_self talk = true
skips_self join = true
skips_self _ = false

-- talk, whisper, emote and broadcast: what a squelched player is not heard with
abbrev pub can_be_squelched : MessageType → Bool
can_be_squelched talk = true
can_be_squelched whisper = true
can_be_squelched emote = true
can_be_squelched broadcast = true
can_be_squelched _ = false

-- `type==message_type_talk || type==message_type_emote`
abbrev pub wants_audience : MessageType → Bool
wants_audience talk = true
wants_audience emote = true
wants_audience _ = false

module _ (users : Users) (type : MessageType) (me : ℕ) (text : Text) where
  -- The two `continue`s.
  unfoldable pub passed_over : ℕ → Bool
  passed_over c = c == me && skips_self type || can_be_squelched type && users.ignoring c me

  unfoldable pub send_one : ℕ → Bool × World → Bool × World
  send_one c (heard, w) = if passed_over c then (heard, w) else (
    heard || users.delivers type me c && not (c == me),
    send (record { to = c; kind = type; from = me; text = text }) w,
  )

  unfoldable pub send_loop : List ℕ → Bool × World → Bool × World
  send_loop [] s = s
  send_loop (c ∷ cs) s = send_loop cs (send_one c s)

  unfoldable pub message_send : Channel → World → World
  message_send ch w =
      let (heard, w') = send_loop ch.memberlist (false, w) in
      if not heard && wants_audience type
      then send (record { to = me; kind = info; from = me; text = codes "No one hears you." }) w'
      else w'

-- The loop over the members in `channel_update_flags`.
unfoldable pub flags_loop : ℕ → List ℕ → World → World
flags_loop me [] w = w
flags_loop me (c ∷ cs) w =
    flags_loop me cs (send (record { to = c; kind = userflags; from = me; text = [] }) w)

unfoldable pub update_flags : Channel → ℕ → World → World
update_flags ch me w = flags_loop me ch.memberlist w
