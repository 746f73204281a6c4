-- ===== src/Channel/Quiet.antt =====
-- Sending messages, and the channels and flags of connections.
use bnetd.Prelude.{ℕ, ◌≡◌, refl, Bool, false, List, [], ◌∷◌, arith, ◌∙◌}
use bnetd.Prelude.Text.{Text}
use bnetd.Channel.{Channel, World, Users, MessageType, send}
use bnetd.Channel.Message.{send_one, send_loop, message_send}
use bnetd.Channel.Members.{greet, greet_loop, log_notice}

-- Two states that differ at most in the messages sent.
abbrev pub SameConns : World → World → Type 0
SameConns v w = (v.gavel ≡ w.gavel) × (v.home ≡ w.home)

module _ (users : Users) (type : MessageType) (me : ℕ) (text : Text) where
  send_one_quiet : (c : ℕ) (s : Bool × World) → SameConns (send_one users type me text c s).1 s.1
  unfolding send_one send
  send_one_quiet c s = ground arith

  send_loop_quiet :
      (cs : List ℕ) (s : Bool × World) → SameConns (send_loop users type me text cs s).1 s.1
  unfolding send_loop
  send_loop_quiet [] s = (refl, refl)
  send_loop_quiet (c ∷ cs) s =
      let rest = send_loop_quiet cs (send_one users type me text c s) in
      let one = send_one_quiet c s in (rest.0 ∙ one.0, rest.1 ∙ one.1)

  pub message_send_quiet :
      (ch : Channel) (w : World) → SameConns (message_send users type me text ch w) w
  unfolding message_send send
  message_send_quiet ch w = ground (arith, send_loop_quiet ch.memberlist (false, w))

pub greet_loop_quiet : (c : ℕ) (us : List ℕ) (w : World) → SameConns (greet_loop c us w) w
unfolding greet_loop greet send
greet_loop_quiet c [] w = (refl, refl)
greet_loop_quiet c (u ∷ us) w = ground (arith, greet_loop_quiet c us (greet c u w))

pub log_notice_quiet :
    (users : Users) (ch : Channel) (c : ℕ) (w : World) → SameConns (log_notice users ch c w) w
unfolding log_notice send
log_notice_quiet users ch c w = ground arith
