-- ===== src/Packets/Tests.antt =====
-- A packet that is queued for two connections.
use bnetd.Prelude.{◌≡◌, true, [], ◌∷◌, none, some, ◌==◌, arith, if◌then◌else◌}
use bnetd.Packets.{Post, push, act}
use bnetd.Packets.Balance.{count, count_all, IsBalanced, IsAllowed, act-IsBalanced}

-- In the first queue and in hand.
abbrev queued_once : Post
queued_once = record {
  heap = λ p. if 7 == p then some 2 else none;
  queues = (7 ∷ []) ∷ [] ∷ [];
  hands = 7 ∷ [];
}

queued_once-IsBalanced : IsBalanced queued_once
unfolding count count_all
queued_once-IsBalanced p = ground arith

may_push : IsAllowed (push true 7 1) queued_once
unfolding count count_all
may_push = (omega arith, omega arith, omega arith)

act-IsBalanced_example : (s' : Post) × (act (push true 7 1) queued_once ≡ some s') × IsBalanced s'
act-IsBalanced_example = act-IsBalanced (push true 7 1) queued_once queued_once-IsBalanced may_push
