-- ===== src/Channel/Join.antt =====
-- What `channel_add_connection` does to a channel and its members.
use bnetd.Prelude.{
  ℕ, ◌+◌, ◌≡◌, refl, ap, ◌∙◌, true, false, List, [], ◌∷◌, Option, none, some, if◌then◌else◌, arith,
  u32, Option-cases, Bool-cases, inl, inr,
}
use bnetd.Channel.{Channel, World, Users, ok, fail, channel, send, set_gavel}
use bnetd.Channel.Operator.{consider, choose_loop, choose_operator, settle, appoint, retire}
use bnetd.Channel.Members.{elect, add_connection, greet_loop, log_notice}
use bnetd.Channel.Bans.{check_banning}
use bnetd.Channel.Choice.{eligible}
use bnetd.Channel.Invariant.{IsValid, IsValid-quiet, contains}
use bnetd.Channel.Quiet.{SameConns, greet_loop_quiet, log_notice_quiet}

module _ (users : Users) (c : ℕ) where
  choose_loop-absent :
      (ch : Channel) (ms : List ℕ) (d : Option ℕ)
      → contains c ms ≡ false
      → choose_loop users ch (some c) ms d ≡ d
  unfolding choose_loop consider
  choose_loop-absent ch [] d h = refl
  choose_loop-absent ch (m ∷ ms) d h = ground (arith, choose_loop-absent ch ms d)

  choose_loop-newest :
      (ch : Channel) (ms : List ℕ)
      → ch.opr ≡ none
      → contains c ms ≡ false
      → choose_loop users ch (some c) (c ∷ ms) none ≡ (if eligible users ch c then some c else none)
  unfolding choose_loop consider
  choose_loop-newest ch ms e h =
      ground (arith, choose_loop-absent ch ms none h, choose_loop-absent ch ms (some c) h)

  -- A newcomer to a channel without operator becomes the operator if it may.
  choose_newcomer :
      (ch : Channel) (ms : List ℕ) (w : World)
      → ch.opr ≡ none
      → ch.next_opr ≡ none
      → ch.memberlist ≡ c ∷ ms
      → contains c ms ≡ false
      → choose_operator users ch (some c) w ≡ (
          if eligible users ch c
          then (ok, record ch { opr = some c }, appoint (some c) w)
          else (fail, ch, w))
  unfolding choose_operator settle retire
  choose_newcomer ch ms w eo en em h = ground (arith, choose_loop-newest ch ms eo h)

-- A channel and its members before `c` joins: `c` is not there yet, but its `conn->channel` is
-- set already, and it has no gavel. Nobody is designated while there is no operator.
pub record IsReady (ch : Channel) (c : ℕ) (w : World) : Type 0 where
  pub valid : IsValid ch w
  pub absent : contains c ch.memberlist ≡ false
  pub home : w.home c ≡ some ch.id
  pub no_gavel : w.gavel c ≡ false
  pub undesignated : ch.opr ≡ none → ch.next_opr ≡ none

-- The channel with `c` in front of the other members.
abbrev pub joined : Channel → ℕ → Channel
joined ch c = record ch { memberlist = c ∷ ch.memberlist; currmembers = u32 (ch.currmembers + 1) }

joined-IsValid : {ch : Channel} {c : ℕ} {w : World} → IsReady ch c w → IsValid (joined ch c) w
joined-IsValid {ch} {c} r = record {
  orderly = record {
    counted = ground (arith, r.valid.orderly.counted);
    distinct = (r.absent, r.valid.orderly.distinct);
    next_member = λ n e. ground (arith, r.valid.orderly.next_member n);
    next_not_opr = λ n e. r.valid.orderly.next_not_opr n e;
    gavels = λ m h. ground (arith, r.valid.orderly.gavels m, r.no_gavel, r.valid.opr_member m);
    homes = λ m h. ground (arith, r.valid.orderly.homes m, r.home);
  };
  opr_member = λ o e. ground (arith, r.valid.opr_member o);
}

-- What `c`'s joining leaves of a channel and its members, as far as the roles go.
pub record IsArrival (users : Users) (ch : Channel) (c : ℕ) (ch' : Channel) (w' : World)
    : Type 0 where
  pub valid : IsValid ch' w'
  pub members : ch'.memberlist ≡ c ∷ ch.memberlist
  pub operator : ch'.opr ≡ elim ch.opr [
    | some o ↦ some o
    | none ↦ if eligible users (joined ch c) c then some c else none
  ]

appoint-IsValid :
    (ch : Channel) (c : ℕ) (w : World)
    → ch.opr ≡ none
    → ch.next_opr ≡ none
    → contains c ch.memberlist ≡ true
    → IsValid ch w
    → IsValid (record ch { opr = some c }) (appoint (some c) w)
unfolding appoint set_gavel send
appoint-IsValid ch c w eo en h v = record {
  orderly = record {
    counted = v.orderly.counted;
    distinct = v.orderly.distinct;
    next_member = v.orderly.next_member;
    next_not_opr = λ n e. ground arith;
    gavels = λ m i. ground (arith, v.orderly.gavels m);
    homes = λ m i. v.orderly.homes m i;
  };
  opr_member = λ o e. ground arith;
}

-- The state after the messages to and about the newcomer.
abbrev pub introduced : Users → Channel → ℕ → World → World
introduced users ch c w = log_notice users ch c (
    greet_loop c (c ∷ ch.memberlist)
      (send (record { to = c; kind = channel; from = c; text = ch.name }) w))

pub introduced_quiet :
    (users : Users) (ch : Channel) (c : ℕ) (w : World) → SameConns (introduced users ch c w) w
unfolding send
introduced_quiet users ch c w =
    let n = log_notice_quiet users ch c (
      greet_loop c (c ∷ ch.memberlist)
        (send (record { to = c; kind = channel; from = c; text = ch.name }) w)) in
    let g =
      greet_loop_quiet c (c ∷ ch.memberlist)
        (send (record { to = c; kind = channel; from = c; text = ch.name }) w) in
    (n.0 ∙ g.0, n.1 ∙ g.1)

elect-IsArrival :
    (users : Users) (ch : Channel) (c : ℕ) (w : World)
    → (ch.opr ≡ none → ch.next_opr ≡ none)
    → contains c ch.memberlist ≡ false
    → IsValid (joined ch c) w
    → (ch' : Channel) × (w' : World) × (elect users ch.opr (joined ch c) c w ≡ (ch', w'))
      × IsArrival users ch c ch' w'
unfolding elect
elect-IsArrival users ch c w next absent v = elim (Option-cases ch.opr) [
  | inr (o, e) ↦ (
    joined ch c,
    w,
    ap (λ d. elect users d (joined ch c) c w) e,
    record { valid = v; members = refl; operator = rw e },
  )
  | inl e ↦
      let choice = choose_newcomer users c (joined ch c) ch.memberlist w e (next e) refl absent in
      let run = ap (λ d. elect users d (joined ch c) c w) e in
      elim (Bool-cases (eligible users (joined ch c) c)) [
        | inl may ↦ (
          record (joined ch c) { opr = some c },
          appoint (some c) w,
          run ∙ ap (λ p. (p.1, p.2)) (rw may at choice),
          record {
            valid = appoint-IsValid (joined ch c) c w e (next e) (ground arith) v;
            members = refl;
            operator = rw (e, may);
          },
        )
        | inr not_may ↦ (
          joined ch c,
          w,
          run ∙ ap (λ p. (p.1, p.2)) (rw not_may at choice),
          record { valid = v; members = refl; operator = rw (e, not_may) },
        )
      ]
]

-- A connection that is not banned, is no member yet, has no gavel and whose channel is set to this
-- one already joins a valid channel in which nobody is designated while there is no operator. It is
-- then the newest member, and the channel is valid; an operator stays, and if there was none the
-- newcomer becomes it exactly if its account may be an operator here.
pub add_connection-IsArrival :
    (users : Users) {ch : Channel} {c : ℕ} {w : World}
    → IsReady ch c w
    → check_banning users ch c ≡ false
    → (ch' : Channel) × (w' : World) × (add_connection users true ch c w ≡ (ok, ch', w'))
      × IsArrival users ch c ch' w'
unfolding add_connection
add_connection-IsArrival users {ch} {c} {w} r free =
    let w₁ = introduced users ch c w in
    let v = IsValid-quiet w₁ w (introduced_quiet users ch c w) (joined-IsValid r) in
    let (ch', w', run, a) = elect-IsArrival users ch c w₁ r.undesignated r.absent v in
    (ch', w', rw (free, run), a)
