-- ===== src/Channel/Choice.antt =====
-- Whom `channel_choose_operator` makes the operator.
use bnetd.Prelude.{
  ◌⊎◌, sym, ℕ, ◌≡◌, refl, Bool, ◌&&◌, ◌||◌, not, List, [], ◌∷◌, Option, none, some, if◌then◌else◌,
  arith, inl,
}
use bnetd.Channel.{Channel, Users, is_conn}
use bnetd.Channel.Operator.{consider, choose_loop}

-- Who may be made operator of a channel that has no designated one.
abbrev pub eligible : Users → Channel → ℕ → Bool
eligible users ch m =
    users.has_account m
    && (users.auth_operator m ch.name || ch.allowopers && users.auth_operator_any m)

abbrev pub or_else : Option ℕ → Option ℕ → Option ℕ
or_else none d = d
or_else (some o) d = some o

-- The oldest eligible member that is not the operator: the list has the newest member first.
unfoldable pub oldest_eligible : Users → Channel → List ℕ → Option ℕ
oldest_eligible users ch [] = none
oldest_eligible users ch (m ∷ ms) =
    or_else (oldest_eligible users ch ms)
      (if not (is_conn ch.opr m) && eligible users ch m then some m else none)

consider-eligible :
    (users : Users) (ch : Channel) (m : ℕ) (d : Option ℕ)
    → consider users ch none m d
      ≡ or_else (if not (is_conn ch.opr m) && eligible users ch m then some m else none) d
unfolding consider
consider-eligible users ch m d = ground arith

or_else_assoc : (a b c : Option ℕ) → or_else (or_else a b) c ≡ or_else a (or_else b c)
or_else_assoc none b c = refl
or_else_assoc (some a) b c = refl

pub choose_loop-oldest :
    (users : Users) (ch : Channel) (ms : List ℕ) (d : Option ℕ)
    → choose_loop users ch none ms d ≡ or_else (oldest_eligible users ch ms) d
unfolding choose_loop oldest_eligible
choose_loop-oldest users ch [] d = refl
choose_loop-oldest users ch (m ∷ ms) d =
    rw (choose_loop-oldest users ch ms (consider users ch none m d), consider-eligible users ch m d)
      (sym (or_else_assoc (oldest_eligible users ch ms) _ d))

-- With a candidate for whom it is called, the loop takes that member or nobody else.
pub choose_loop-some :
    (users : Users) (ch : Channel) (c : ℕ) (ms : List ℕ) (d : Option ℕ)
    → (choose_loop users ch (some c) ms d ≡ d) ⊎ (choose_loop users ch (some c) ms d ≡ some c)
unfolding choose_loop consider
choose_loop-some users ch c [] d = inl refl
choose_loop-some users ch c (m ∷ ms) d =
    ground (arith, choose_loop-some users ch c ms d, choose_loop-some users ch c ms (some c))
