-- ===== src/Lobby/Roles.antt =====
-- What the operations on one channel do to its members, its roles and the homes of connections,
-- whoever has the gavel.
use bnetd.Prelude.{
  ℕ, ◌≡◌, ◌⊎◌, inl, inr, refl, true, false, List, [], ◌∷◌, Option, none, some, arith, Bool-cases,
  Option-cases,
}
use bnetd.Channel.{Channel, World, Users, is_conn, set_gavel, send}
use bnetd.Channel.Operator.{
  stands_in, consider, choose_loop, retire, appoint, settle, choose_operator,
}
use bnetd.Channel.Invariant.{contains}

-- The operator and the designated operator are among some connections.
pub record AreAmong (ms : List ℕ) (ch : Channel) : Type 0 where
  pub opr_in : (o : ℕ) → ch.opr ≡ some o → contains o ms ≡ true
  pub next_in : (n : ℕ) → ch.next_opr ≡ some n → contains n ms ≡ true

-- The same channel, up to its roles and its ban list.
abbrev pub SameRoom : Channel → Channel → Type 0
SameRoom ch ch' =
    (ch'.id ≡ ch.id)
    × (ch'.memberlist ≡ ch.memberlist)
    × (ch'.currmembers ≡ ch.currmembers)
    × (ch'.permanent ≡ ch.permanent)

pub choose_loop-contains :
    (users : Users) (ch : Channel) (t : Option ℕ) (ms : List ℕ) (d : Option ℕ) (x : ℕ)
    → choose_loop users ch t ms d ≡ some x
    → (contains x ms ≡ true) ⊎ (d ≡ some x)
unfolding choose_loop consider
choose_loop-contains users ch t [] d x h = inr h
choose_loop-contains users ch t (m ∷ ms) d x h =
    ground (arith, choose_loop-contains users ch t ms (consider users ch t m d) x)

settle_room :
    (old t : Option ℕ) (ch : Channel) (w : World)
    → SameRoom ch (settle old t ch w).1 × ((settle old t ch w).2.home ≡ w.home)
unfolding settle appoint retire set_gavel send
settle_room old t ch w = ground arith

settle_next :
    (old t : Option ℕ) (ch : Channel) (w : World) → (settle old t ch w).1.next_opr ≡ ch.next_opr
unfolding settle
settle_next old t ch w = ground arith

-- What `settle` makes of the choice: it stays or there is none.
settle_opr :
    (old t : Option ℕ) (ch : Channel) (w : World) (o : ℕ)
    → (settle old t ch w).1.opr ≡ some o
    → ch.opr ≡ some o
unfolding settle
settle_opr old t ch w o h = ground arith

-- With nobody asked for, the old operator is out.
settle_out :
    (old : Option ℕ) (ch : Channel) (w : World) (o : ℕ)
    → (settle old none ch w).1.opr ≡ some o
    → is_conn old o ≡ false
unfolding settle
settle_out old ch w o h = ground arith

module _ (users : Users) (ch : Channel) (t : Option ℕ) (w : World) where
  pub choose_operator_room :
      SameRoom ch (choose_operator users ch t w).1
      × ((choose_operator users ch t w).2.home ≡ w.home)
  unfolding choose_operator
  choose_operator_room = elim (Option-cases ch.next_opr) [
    | inl e ↦
        rw (e, choose_operator)
          (settle_room ch.opr t (record ch { opr = choose_loop users ch t ch.memberlist ch.opr }) w)
    | inr (n, e) ↦ elim (Bool-cases (stands_in w n ch)) [
      | inl s ↦
          rw (e, s, choose_operator)
            (settle_room ch.opr t (record ch { opr = some n; next_opr = none }) w)
      | inr s ↦ rw (e, s, choose_operator) ((refl, refl, refl, refl), refl)
    ]
  ]

  -- Members are chosen, or the operator that there was.
  pub choose_operator-AreAmong :
      AreAmong ch.memberlist ch → AreAmong ch.memberlist (choose_operator users ch t w).1
  unfolding choose_operator
  choose_operator-AreAmong v = elim (Option-cases ch.next_opr) [
    | inl e ↦
        let ch' = record ch { opr = choose_loop users ch t ch.memberlist ch.opr } in
        rw (e, choose_operator)
          (record {
            opr_in = λ o q.
                let chosen =
                  choose_loop-contains users ch t ch.memberlist ch.opr o
                    (settle_opr ch.opr t ch' w o q) in
                ground (arith, v.opr_in o);
            next_in = λ n q. ground (arith, settle_next ch.opr t ch' w);
          })
    | inr (n, e) ↦ elim (Bool-cases (stands_in w n ch)) [
      | inl s ↦
          let ch' : Channel = record ch { opr = some n; next_opr = none } in
          rw (e, s, choose_operator)
            (record {
              opr_in = λ o q. ground (arith, settle_opr ch.opr t ch' w o q, v.next_in n e);
              next_in = λ m q. ground (arith, settle_next ch.opr t ch' w);
            })
      | inr s ↦ rw (e, s, choose_operator) v
    ]
  ]

  -- Where the operator has left, and a designated one is a member, a member is chosen.
  pub choose_operator-replaces :
      ((n : ℕ) → ch.next_opr ≡ some n → contains n ch.memberlist ≡ true)
      → ((n : ℕ) → ch.next_opr ≡ some n → stands_in w n ch ≡ true)
      → AreAmong ch.memberlist (choose_operator users ch none w).1
  unfolding choose_operator
  choose_operator-replaces v h = elim (Option-cases ch.next_opr) [
    | inl e ↦
        let ch' = record ch { opr = choose_loop users ch none ch.memberlist ch.opr } in
        rw (e, choose_operator)
          (record {
            opr_in = λ o q.
                let chosen =
                  choose_loop-contains users ch none ch.memberlist ch.opr o
                    (settle_opr ch.opr none ch' w o q) in
                ground (arith, settle_out ch.opr ch' w o q);
            next_in = λ n q. ground (arith, settle_next ch.opr none ch' w);
          })
    | inr (n, e) ↦
        let ch' : Channel = record ch { opr = some n; next_opr = none } in
        rw (e, h n e, choose_operator)
          (record {
            opr_in = λ o q. ground (arith, settle_opr ch.opr none ch' w o q, v n e);
            next_in = λ m q. ground (arith, settle_next ch.opr none ch' w);
          })
  ]
