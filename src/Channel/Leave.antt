-- ===== src/Channel/Leave.antt =====
-- What `channel_del_connection` does to a channel and its members.
use bnetd.Prelude.{
  sym, ap, ◌∙◌, ℕ, ◌+◌, ◌-◌, ◌^◌, ◌≡◌, refl, Bool, true, false, ◌&&◌, not, List, [], ◌∷◌, Option,
  none, some, ◌==◌, if◌then◌else◌, arith, u32, Option-cases, Bool-cases, inl, inr,
}
use bnetd.Channel.{Channel, World, Users, ok, fail, is_conn, part}
use bnetd.Channel.Operator.{set_next_operator}
use bnetd.Channel.Message.{message_send}
use bnetd.Channel.Members.{unlink, drop_next, drop_opr, del_connection, returned, crash, is_empty}
use mathlib.Core.Path.{subst}
use bnetd.Channel.Invariant.{IsOrderly, IsValid, IsValid-quiet, contains, AllDistinct}
use bnetd.Channel.Quiet.{message_send_quiet}
use bnetd.Channel.Choice.{oldest_eligible, or_else}
use bnetd.Channel.Succession.{successor, choose_operator-successor, after-IsValid}
use bnetd.Channel.Unlink.{
  unlink-none, none-unlink, length-unlink, contains-unlink, AllDistinct-unlink,
}

not_empty : (c : ℕ) (ms : List ℕ) → contains c ms ≡ true → is_empty ms ≡ false
not_empty c [] h = ground arith
not_empty c (m ∷ ms) h = refl

-- If anyone but `c` is the operator, it is a member.
abbrev OprAmong : ℕ → Channel → Type 0
OprAmong c ch = (o : ℕ) → ch.opr ≡ some o → (o == c) ≡ false → contains o ch.memberlist ≡ true

module _ (users : Users) (c : ℕ) where
  drop_opr-IsValid :
      (ch : Channel) (w : World)
      → IsOrderly ch w
      → OprAmong c ch
      → let r = drop_opr users c ch w in IsValid r.0 r.1
  unfolding drop_opr
  drop_opr-IsValid ch w v op = elim (Bool-cases (is_conn ch.opr c)) [
    | inl e ↦ rw (e, choose_operator-successor users v) (after-IsValid users v)
    | inr e ↦ rw e (record { orderly = v; opr_member = λ o q. op o q (ground arith) })
  ]

  drop_opr_members :
      (ch : Channel) (w : World)
      → IsOrderly ch w
      → ((drop_opr users c ch w).0.memberlist ≡ ch.memberlist)
        × ((drop_opr users c ch w).0.permanent ≡ ch.permanent)
  unfolding drop_opr
  drop_opr_members ch w v = elim (Bool-cases (is_conn ch.opr c)) [
    | inl e ↦ rw (e, choose_operator-successor users v) (refl, refl)
    | inr e ↦ rw e (refl, refl)
  ]

  -- The roles afterwards.
  drop_opr_roles :
      (ch : Channel) (w : World)
      → IsOrderly ch w
      → ((drop_opr users c ch w).0.opr ≡ (if is_conn ch.opr c then successor users ch else ch.opr))
        × ((drop_opr users c ch w).0.next_opr ≡ (if is_conn ch.opr c then none else ch.next_opr))
  unfolding drop_opr
  drop_opr_roles ch w v = elim (Bool-cases (is_conn ch.opr c)) [
    | inl e ↦ rw (e, choose_operator-successor users v) (refl, refl)
    | inr e ↦ rw e (refl, refl)
  ]

  module _ {ch : Channel} {w : World} (v : IsValid ch w) (ms : List ℕ)
      (taken : unlink c ch.memberlist ≡ some ms) where
    abbrev shorter : Channel
    shorter =
        drop_next c (record ch { memberlist = ms; currmembers = u32 (ch.currmembers + 2 ^ 32 - 1) })

    kept : (q : ℕ) → contains q ms ≡ (contains q ch.memberlist && not (q == c))
    kept = contains-unlink c ch.memberlist ms v.orderly.distinct taken

    shorter_list : shorter.memberlist ≡ ms
    unfolding drop_next set_next_operator
    shorter_list = ground arith

    shorter-IsOrderly : IsOrderly shorter w
    unfolding drop_next set_next_operator
    shorter-IsOrderly = record {
      counted = ground (arith, length-unlink c ch.memberlist ms taken, v.orderly.counted);
      distinct =
          subst AllDistinct (sym shorter_list)
            (AllDistinct-unlink c ch.memberlist ms v.orderly.distinct taken);
      next_member = λ n e. ground (arith, kept n, v.orderly.next_member n);
      next_not_opr = λ n e. ground (arith, v.orderly.next_not_opr n);
      gavels = λ m h. ground (arith, kept m, v.orderly.gavels m);
      homes = λ m h. ground (arith, kept m, v.orderly.homes m);
    }

    shorter-OprAmong : OprAmong c shorter
    unfolding drop_next set_next_operator
    shorter-OprAmong o e ne = ground (arith, kept o, v.opr_member o)

    shorter_permanent : shorter.permanent ≡ ch.permanent
    unfolding drop_next set_next_operator
    shorter_permanent = ground arith

-- Who is designated once `c` has left.
abbrev pub next_without : ℕ → Channel → Option ℕ
next_without c ch = if is_conn ch.next_opr c then none else ch.next_opr

-- Who takes over from an operator that leaves the members `ms` behind: the designated member, or
-- else the oldest eligible one, or else nobody.
abbrev pub heir : Users → Channel → List ℕ → Option ℕ
heir users ch ms = or_else ch.next_opr (oldest_eligible users ch ms)

-- Who may be chosen does not depend on the list and the count of members.
oldest_eligible-record :
    (users : Users) (ch : Channel) (ms all : List ℕ) (n : ℕ)
    → oldest_eligible users (record ch { memberlist = all; currmembers = n }) ms
      ≡ oldest_eligible users ch ms
unfolding oldest_eligible
oldest_eligible-record users ch [] all n = refl
oldest_eligible-record users ch (m ∷ ms) all n = rw (oldest_eligible-record users ch ms all n) refl

not_designated :
    (ch : Channel) (c : ℕ) (w : World)
    → IsOrderly ch w
    → is_conn ch.opr c ≡ true
    → is_conn ch.next_opr c ≡ false
not_designated ch c w v h = elim (Option-cases ch.next_opr) [
  | inl e ↦ rw e refl
  | inr (n, e) ↦ ground (arith, e, h, v.next_not_opr n e)
]

module _ (users : Users) (c : ℕ) {ch : Channel} {w : World} (v : IsValid ch w) (ms : List ℕ)
    (taken : unlink c ch.memberlist ≡ some ms) where
  abbrev left_behind : Channel
  left_behind = shorter users c v ms taken

  left_roles : (left_behind.opr ≡ ch.opr) × (left_behind.next_opr ≡ next_without c ch)
  unfolding drop_next set_next_operator
  left_roles = elim (Bool-cases (is_conn ch.next_opr c)) [
    | inl e ↦ rw e (refl, refl)
    | inr e ↦ rw e (refl, refl)
  ]

  left_heir : is_conn ch.opr c ≡ true → successor users left_behind ≡ heir users ch ms
  unfolding drop_next set_next_operator
  left_heir h = rw (not_designated ch c w v.orderly h) (
      ap (or_else ch.next_opr)
        (oldest_eligible-record users ch ms ms (u32 (ch.currmembers + 2 ^ 32 - 1))))

  left_operator :
      (if is_conn left_behind.opr c then successor users left_behind else left_behind.opr)
      ≡ (if is_conn ch.opr c then heir users ch ms else ch.opr)
  left_operator =
      ap (λ o. if is_conn o c then successor users left_behind else o) left_roles.0
      ∙ elim (Bool-cases (is_conn ch.opr c)) [ inl h ↦ rw h (left_heir h) | inr h ↦ rw h refl ]

  left_designated :
      (if is_conn left_behind.opr c then none else left_behind.next_opr)
      ≡ (if is_conn ch.opr c then none else next_without c ch)
  left_designated =
      ap (λ o. if is_conn o c then none else left_behind.next_opr) left_roles.0
      ∙ ap (λ n. if is_conn ch.opr c then none else n) left_roles.1

-- `ch'` and `w'` are what a member's departure leaves of a channel.
pub record IsDeparture (users : Users) (ch : Channel) (c : ℕ) (ch' : Channel) (gone : Bool)
    (w' : World) : Type 0 where
  pub valid : IsValid ch' w'
  pub members : (q : ℕ) → contains q ch'.memberlist ≡ (contains q ch.memberlist && not (q == c))
  pub operator : ch'.opr ≡ (if is_conn ch.opr c then heir users ch ch'.memberlist else ch.opr)
  pub follower : ch'.next_opr ≡ (if is_conn ch.opr c then none else next_without c ch)
  pub destroyed : gone ≡ (is_empty ch'.memberlist && not ch.permanent)

-- A member leaves a valid channel: `channel_del_connection` returns 0; exactly this member is off
-- the list, and the channel is valid. If it was the operator, the designated member is the
-- operator, or else the oldest eligible member that is left, or else nobody, and nobody is
-- designated any more; otherwise the operator stays, and so does the designated member unless it is
-- the one that leaves. The channel is destroyed exactly if nobody is left and it is not permanent.
pub del_connection-IsDeparture :
    (users : Users) {ch : Channel} (c : ℕ) {w : World}
    → IsValid ch w
    → contains c ch.memberlist ≡ true
    → (ch' : Channel) × (gone : Bool) × (w' : World) × (del_connection users ch c w
        ≡ returned ok ch' gone w')
      × IsDeparture users ch c ch' gone w'
unfolding del_connection
del_connection-IsDeparture users {ch} c {w} v h =
    let v₁ =
      IsValid-quiet (message_send users part c [] ch w) w (message_send_quiet users part c [] ch w)
        v in
    elim (Option-cases (unlink c ch.memberlist)) [
      | inl e ↦ ground (arith, unlink-none c ch.memberlist e)
      | inr (ms, e) ↦
          let short = shorter-IsOrderly users c v₁ ms e in
          let r = drop_opr users c (shorter users c v₁ ms e) (message_send users part c [] ch w) in
          let left = drop_opr_members users c _ _ short in
          let roles = drop_opr_roles users c _ _ short in
          let all = left.0 ∙ shorter_list users c v₁ ms e in
          (
            r.0,
            is_empty r.0.memberlist && not r.0.permanent,
            r.1,
            rw (not_empty c ch.memberlist h, e) refl,
            record {
              valid = drop_opr-IsValid users c _ _ short (shorter-OprAmong users c v₁ ms e);
              members = λ q. rw (left.0, shorter_list users c v₁ ms e) (kept users c v₁ ms e q);
              operator =
                  roles.0
                  ∙ left_operator users c v₁ ms e
                  ∙ ap (λ l. if is_conn ch.opr c then heir users ch l else ch.opr) (sym all);
              follower = roles.1 ∙ left_designated users c v₁ ms e;
              destroyed = rw (left.1, shorter_permanent users c v₁ ms e) refl;
            },
          )
    ]

-- Of a connection that is not a member, it returns -1 and keeps the channel as it is, but has sent
-- the members a message that the connection parts. It must not be called on an empty channel.
pub del_connection_stranger :
    (users : Users) (ch : Channel) (c : ℕ) (w : World)
    → contains c ch.memberlist ≡ false
    → del_connection users ch c w ≡ (
        if is_empty ch.memberlist
        then crash
        else returned fail ch false (message_send users part c [] ch w))
unfolding del_connection
del_connection_stranger users ch c w h = rw (none-unlink c ch.memberlist h) (ground arith)
