-- ===== src/Channel/Succession.antt =====
-- What `channel_choose_operator` does when nobody in particular is asked for, as on `/resign`
-- and when the operator leaves.
use bnetd.Prelude.{ℕ, ◌≡◌, refl, true, false, Option, none, some, arith, Option-cases, inl, inr}
use bnetd.Channel.{Channel, World, Users, Rc, ok, is_conn, same_conn, set_gavel, send}
use bnetd.Channel.Operator.{settle, choose_operator, retire, appoint, stands_in}
use bnetd.Channel.Choice.{oldest_eligible, or_else, choose_loop-oldest}
use bnetd.Channel.Invariant.{IsOrderly, IsValid, contains, oldest_eligible-contains}

-- The designated member, or else the oldest eligible one other than the operator.
abbrev pub successor : Users → Channel → Option ℕ
successor users ch = or_else ch.next_opr (oldest_eligible users ch ch.memberlist)

same_conn-some : (o : Option ℕ) (n : ℕ) → same_conn o (some n) ≡ is_conn o n
same_conn-some none n = refl
same_conn-some (some c) n = refl

same_conn_refl : (o : Option ℕ) → same_conn o o ≡ true
same_conn_refl none = refl
same_conn_refl (some c) = ground arith

settle_new :
    (o : Option ℕ) (n : ℕ) (ch : Channel) (w : World)
    → is_conn o n ≡ false
    → ch.opr ≡ some n
    → settle o none ch w ≡ (ok, ch, appoint (some n) (retire o w))
unfolding settle
settle_new o n ch w h e = rw (e, same_conn-some o n, h)

settle_nobody :
    (ch : Channel) (w : World)
    → settle ch.opr none ch w ≡ (ok, record ch { opr = none }, retire ch.opr w)
unfolding settle appoint
settle_nobody ch w = rw (same_conn_refl ch.opr)

module _ (users : Users) {ch : Channel} {w : World} (v : IsOrderly ch w) where
  -- The channel and the connections afterwards.
  abbrev pub after : Rc × Channel × World
  after = (
    ok,
    record ch { opr = successor users ch; next_opr = none },
    appoint (successor users ch) (retire ch.opr w),
  )

  stands : (n : ℕ) → ch.next_opr ≡ some n → stands_in w n ch ≡ true
  stands n e = ground (arith, v.homes n, v.next_member n e)

  choose_designated : (n : ℕ) → ch.next_opr ≡ some n → choose_operator users ch none w ≡ after
  unfolding choose_operator
  choose_designated n e =
      rw (e, stands n e)
        (settle_new ch.opr n (record ch { opr = some n; next_opr = none }) w (v.next_not_opr n e)
          refl)

  choose_oldest : ch.next_opr ≡ none → choose_operator users ch none w ≡ after
  unfolding choose_operator appoint
  choose_oldest e = elim (Option-cases (oldest_eligible users ch ch.memberlist)) [
    | inl h ↦ ground (arith, choose_loop-oldest users ch ch.memberlist ch.opr, settle_nobody ch w)
    | inr (n, h) ↦ ground (
      arith,
      choose_loop-oldest users ch ch.memberlist ch.opr,
      settle_new ch.opr n (record ch { opr = some n }) w
          (oldest_eligible-contains users ch ch.memberlist h).1 refl,
    )
  ]

  pub choose_operator-successor : choose_operator users ch none w ≡ after
  choose_operator-successor = elim (Option-cases ch.next_opr) [
    | inl e ↦ choose_oldest e
    | inr (n, e) ↦ choose_designated n e
  ]

  successor-contains :
      (n : ℕ)
      → successor users ch ≡ some n
      → (contains n ch.memberlist ≡ true) × (is_conn ch.opr n ≡ false)
  successor-contains n e = elim (Option-cases ch.next_opr) [
    | inl h ↦ oldest_eligible-contains users ch ch.memberlist (ground arith)
    | inr (k, h) ↦ ground (arith, v.next_member k, v.next_not_opr k)
  ]

  after_gavel :
      (m : ℕ) → contains m ch.memberlist ≡ true → after.2.gavel m ≡ is_conn (successor users ch) m
  unfolding appoint retire set_gavel send
  after_gavel m h = ground (arith, v.gavels m)

  pub after-IsValid : IsValid after.1 after.2
  unfolding appoint retire set_gavel send
  after-IsValid = record {
    orderly = record {
      counted = v.counted;
      distinct = v.distinct;
      next_member = λ n e. ground arith;
      next_not_opr = λ n e. ground arith;
      gavels = after_gavel;
      homes = λ m h. ground (arith, v.homes m);
    };
    opr_member = λ o e. (successor-contains o e).0;
  }
