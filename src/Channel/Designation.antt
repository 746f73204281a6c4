-- ===== src/Channel/Designation.antt =====
-- A member that is designated while the channel has no operator, as an administrator can do with
-- `/designate`.
use bnetd.Prelude.{ℕ, ◌≡◌, refl, ap, ◌∙◌, true, false, none, some, ◌==◌, arith}
use bnetd.Channel.{Channel, World, Users, ok, fail}
use bnetd.Channel.Operator.{settle, choose_operator, set_next_operator}
use bnetd.Channel.Members.{elect, add_connection}
use bnetd.Channel.Bans.{check_banning}
use bnetd.Channel.Invariant.{IsValid, contains}
use bnetd.Channel.Join.{joined, introduced, introduced_quiet}

choose_operator_stranded :
    (users : Users) (ch : Channel) (n c : ℕ) (w : World)
    → ch.opr ≡ none
    → ch.next_opr ≡ some n
    → w.home n ≡ some ch.id
    → (n == c) ≡ false
    → choose_operator users ch (some c) w ≡ (fail, record ch { opr = some n; next_opr = none }, w)
unfolding choose_operator settle
choose_operator_stranded users ch n c w eo en home ne = ground arith

elect_stranded :
    (users : Users) (ch : Channel) (c : ℕ) (w : World)
    → ch.opr ≡ none
    → let r = choose_operator users ch (some c) w in elect users ch.opr ch c w ≡ (r.1, r.2)
unfolding elect
elect_stranded users ch c w e = ap (λ d. elect users d ch c w) e

-- A member `n` of a valid channel without operator is designated: that succeeds. When some other
-- connection then joins, `n` is the operator without having been given the gavel, so that the
-- channel is no longer valid.
pub add_connection_stranded :
    (users : Users) {ch : Channel} {w : World} (n c : ℕ)
    → IsValid ch w
    → ch.opr ≡ none
    → contains n ch.memberlist ≡ true
    → contains c ch.memberlist ≡ false
    → check_banning users ch c ≡ false
    → let d = record ch { next_opr = some n } in
      (ch' : Channel) × (w' : World) × (set_next_operator ch (some n) ≡ (ok, d))
      × (add_connection users true d c w ≡ (ok, ch', w'))
      × (ch'.opr ≡ some n)
      × (w'.gavel n ≡ false)
      × ¬ IsValid ch' w'
unfolding set_next_operator add_connection check_banning
add_connection_stranded users {ch} {w} n c v eo inside outside free =
    let d = record ch { next_opr = some n } in
    let w₁ = introduced users d c w in
    let quiet = introduced_quiet users d c w in
    let run =
      choose_operator_stranded users (joined d c) n c w₁ eo refl
        (rw quiet.1 (v.orderly.homes n inside)) (ground arith) in
    let no_gavel : w₁.gavel n ≡ false = rw quiet.0 (ground (arith, v.orderly.gavels n)) in
    let ch' = record (joined d c) { opr = some n; next_opr = none } in
    (
      ch',
      w₁,
      ground arith,
      rw free (
          ap (λ p. (ok, p.0, p.1))
            (elect_stranded users (joined d c) c w₁ eo ∙ ap (λ p. (p.1, p.2)) run)),
      refl,
      no_gavel,
      λ h. ground (arith, h.orderly.gavels n),
    )
