-- ===== src/Channel/Invariant.antt =====
-- What holds of a channel and its members between two operations.
use bnetd.Prelude.{ℕ, ◌≡◌, Bool, true, false, ◌||◌, List, [], ◌∷◌, some, ◌==◌, arith, length, u32}
use bnetd.Channel.{Channel, World, Users, is_conn}
use bnetd.Channel.Quiet.{SameConns}
use bnetd.Channel.Choice.{oldest_eligible}

abbrev pub contains : ℕ → List ℕ → Bool
contains c [] = false
contains c (m ∷ ms) = m == c || contains c ms

-- No connection is listed twice.
abbrev pub AllDistinct : List ℕ → Type 0
AllDistinct [] = Unit
AllDistinct (m ∷ ms) = (contains m ms ≡ false) × AllDistinct ms

-- The count is right; the members are distinct and know their channel; a designated operator is
-- a member and is not the operator; among the members exactly the operator has the gavel.
pub record IsOrderly (ch : Channel) (w : World) : Type 0 where
  pub counted : ch.currmembers ≡ u32 (length ch.memberlist)
  pub distinct : AllDistinct ch.memberlist
  pub next_member : (n : ℕ) → ch.next_opr ≡ some n → contains n ch.memberlist ≡ true
  pub next_not_opr : (n : ℕ) → ch.next_opr ≡ some n → is_conn ch.opr n ≡ false
  pub gavels : (m : ℕ) → contains m ch.memberlist ≡ true → w.gavel m ≡ is_conn ch.opr m
  pub homes : (m : ℕ) → contains m ch.memberlist ≡ true → w.home m ≡ some ch.id

-- Besides, the operator is a member.
pub record IsValid (ch : Channel) (w : World) : Type 0 where
  pub orderly : IsOrderly ch w
  pub opr_member : (o : ℕ) → ch.opr ≡ some o → contains o ch.memberlist ≡ true

pub oldest_eligible-contains :
    (users : Users) (ch : Channel) (ms : List ℕ) {n : ℕ}
    → oldest_eligible users ch ms ≡ some n
    → (contains n ms ≡ true) × (is_conn ch.opr n ≡ false)
unfolding oldest_eligible
oldest_eligible-contains users ch [] h = ground arith
oldest_eligible-contains users ch (m ∷ ms) {n} h =
    ground (arith, oldest_eligible-contains users ch ms {n = n})

-- Messages sent in between do not matter.
pub IsValid-quiet : {ch : Channel} (v w : World) → SameConns v w → IsValid ch w → IsValid ch v
IsValid-quiet v w e h = record {
  orderly = record {
    counted = h.orderly.counted;
    distinct = h.orderly.distinct;
    next_member = h.orderly.next_member;
    next_not_opr = h.orderly.next_not_opr;
    gavels = λ m i. rw e.0 (h.orderly.gavels m i);
    homes = λ m i. rw e.1 (h.orderly.homes m i);
  };
  opr_member = h.opr_member;
}
