-- ===== src/Channel/Audience.antt =====
-- Who gets a channel message, and who is told that nobody heard it.
use bnetd.Prelude.{
  ℕ, ◌≡◌, Bool, true, false, ◌&&◌, ◌||◌, not, List, [], ◌∷◌, ◌++◌, ◌==◌, if◌then◌else◌, arith, ◌∙◌,
  ap, sym, Bool-cases, inl, inr,
}
use mathlib.Core.Path.{ap₂}
use mathlib.Core.List.{append_assoc, append-nil}
use bnetd.Prelude.Text.{Text, codes}
use bnetd.Channel.{Channel, World, Users, Sent, MessageType, info, send}
use bnetd.Channel.Message.{
  passed_over, send_one, send_loop, message_send, skips_self, can_be_squelched, wants_audience,
}

not_or : (a b : Bool) → (not a && not b) ≡ not (a || b)
not_or a b = ground arith

false_of_not : (a : Bool) → not a ≡ true → a ≡ false
false_of_not a h = ground arith

true_of_not : (a : Bool) → not a ≡ false → a ≡ true
true_of_not a h = ground arith

or_false : (a : Bool) → (a || false) ≡ a
or_false a = ground arith

or_assoc : (a b c : Bool) → ((a || b) || c) ≡ (a || (b || c))
or_assoc a b c = ground arith

module _ (users : Users) (type : MessageType) (me : ℕ) (text : Text) where
  -- Hears the message: a member other than the sender of talk, who has not squelched the sender.
  abbrev pub hears : ℕ → Bool
  hears c = not (c == me && skips_self type) && not (can_be_squelched type && users.ignoring c me)

  -- The deliveries to those of a list who hear the message.
  pub deliveries : List ℕ → List Sent
  deliveries [] = []
  deliveries (c ∷ cs) =
      if hears c
      then record { to = c; kind = type; from = me; text = text } ∷ deliveries cs
      else deliveries cs

  -- Somebody other than the sender has got it.
  pub heard_by : List ℕ → Bool
  heard_by [] = false
  heard_by (c ∷ cs) = hears c && (users.delivers type me c && not (c == me)) || heard_by cs

  hears-passed_over : (c : ℕ) → hears c ≡ not (passed_over users type me text c)
  unfolding passed_over
  hears-passed_over c =
      not_or (c == me && skips_self type) (can_be_squelched type && users.ignoring c me)

  send_one_heard :
      (c : ℕ) (heard : Bool) (w : World)
      → hears c ≡ true
      → send_one users type me text c (heard, w) ≡ (
        heard || users.delivers type me c && not (c == me),
        send (record { to = c; kind = type; from = me; text = text }) w,
      )
  unfolding send_one
  send_one_heard c heard w h =
      rw (false_of_not (passed_over users type me text c) (sym (hears-passed_over c) ∙ h))

  send_one_passed :
      (c : ℕ) (heard : Bool) (w : World)
      → hears c ≡ false
      → send_one users type me text c (heard, w) ≡ (heard, w)
  unfolding send_one
  send_one_passed c heard w h =
      rw (true_of_not (passed_over users type me text c) (sym (hears-passed_over c) ∙ h))

  send_loop-deliveries :
      (cs : List ℕ) (heard : Bool) (w : World)
      → send_loop users type me text cs (heard, w)
        ≡ (heard || heard_by cs, record w { out = w.out ++ deliveries cs })
  unfolding send_loop heard_by deliveries send
  send_loop-deliveries [] heard w = rw (append-nil, or_false)
  send_loop-deliveries (c ∷ cs) heard w = elim (Bool-cases (hears c)) [
    | inl h ↦
        rw (send_one_heard c heard w h, h)
          (send_loop-deliveries cs _ _
            ∙ ap₂ (λ b (o : List Sent). (b, record w { out = o }))
                (or_assoc heard (users.delivers type me c && not (c == me)) (heard_by cs))
                (append_assoc w.out (record { to = c; kind = type; from = me; text = text } ∷ [])
                  (deliveries cs)))
    | inr h ↦ rw (send_one_passed c heard w h, h) (send_loop-deliveries cs heard w)
  ]

  -- "No one hears you.", to the sender
  abbrev pub unheard : Sent
  unheard = record { to = me; kind = info; from = me; text = codes "No one hears you." }

  -- `channel_message_send` sends the message to exactly the members that hear it, in the order of
  -- the list, and nothing else, but that the sender of talk or an emote is told so if nobody else
  -- got it.
  pub message_send-deliveries :
      (ch : Channel) (w : World)
      → message_send users type me text ch w ≡ record w {
        out =
            w.out
            ++ (deliveries ch.memberlist
                ++ (if not (heard_by ch.memberlist) && wants_audience type
                    then unheard ∷ []
                    else []));
      }
  unfolding message_send send
  message_send-deliveries ch w =
      elim (Bool-cases (not (heard_by ch.memberlist) && wants_audience type)) [
        | inl e ↦
            rw (send_loop-deliveries ch.memberlist false w, e)
              (ap (λ (o : List Sent). record w { out = o })
                (append_assoc w.out (deliveries ch.memberlist) (unheard ∷ [])))
        | inr e ↦ rw (send_loop-deliveries ch.memberlist false w, e, append-nil)
      ]
