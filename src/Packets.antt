-- ===== src/Packets.antt =====
-- The queues of packets of src/common/queue.c and the references to packets of src/common/packet.c.
-- A packet is an address. Of a packet its count of references is modelled: `none` on the heap is a
-- packet that was freed, and its use is `none` as the outcome. A queue is the list of its packets,
-- the first to be pulled at the head.
pub mod Balance
pub mod Contents
mod Tests
use bnetd.Prelude.{
  ℕ, zero, suc, ◌+◌, ◌-◌, Bool, true, false, List, [], ◌∷◌, ◌++◌, Option, none, some, ◌==◌, ltb,
  u32, if◌then◌else◌, ◌>>=◌, get_or, set,
}
use bnetd.Channel.{update}

abbrev pub Heap : Type 0
Heap = ℕ → Option ℕ

-- `malloc` has given `packet`.
unfoldable pub packet_create : ℕ → Heap → Heap
packet_create packet heap = update heap packet (some 1)

unfoldable pub packet_add_ref : ℕ → Heap → Option Heap
packet_add_ref packet heap = do ref ← heap packet; some (update heap packet (some (u32 (ref + 1))))

unfoldable pub packet_del_ref : ℕ → Heap → Option Heap
packet_del_ref packet heap = do
  ref ← heap packet
  some (update heap packet (if ltb ref 2 then none else some (ref - 1)))

-- `mem` tells whether the element is allocated.
unfoldable pub queue_push_packet : (mem : Bool) → ℕ → List ℕ → Heap → Option (List ℕ × Heap)
queue_push_packet mem packet queue heap =
    if mem
    then (do heap' ← packet_add_ref packet heap; some (queue ++ packet ∷ [], heap'))
    else some (queue, heap)

unfoldable pub queue_pull_packet : List ℕ → Option ℕ × List ℕ
queue_pull_packet [] = (none, [])
queue_pull_packet (packet ∷ queue) = (some packet, queue)

-- The loop of `queue_clear`, which ends since each pull makes the queue shorter.
unfoldable pub queue_clear : List ℕ → Heap → Option Heap
queue_clear [] heap = some heap
queue_clear (packet ∷ queue) heap = do heap' ← packet_del_ref packet heap; queue_clear queue heap'

-- The packets, the queues of all connections, and the pointers that the code at work holds, each of
-- which it gives back by `packet_del_ref`.
pub record Post : Type 0 where
  pub heap : Heap
  pub queues : List (List ℕ)
  pub hands : List ℕ

-- What is done with packets: `create` and `pull` give a pointer, `release` gives it back.
pub data Action : Type 0 where
  create release : (packet : ℕ) → Action
  push : (mem : Bool) (packet i : ℕ) → Action
  pull clear : (i : ℕ) → Action

unfoldable pub without : ℕ → List ℕ → List ℕ
without packet [] = []
without packet (p ∷ ps) = if p == packet then ps else p ∷ without packet ps

abbrev pub with_hand : Option ℕ → List ℕ → List ℕ
with_hand none hands = hands
with_hand (some packet) hands = packet ∷ hands

unfoldable pub act : Action → Post → Option Post
act (create packet) s =
    some (record s { heap = packet_create packet s.heap; hands = packet ∷ s.hands })
act (release packet) s = do
  heap ← packet_del_ref packet s.heap
  some (record s { heap = heap; hands = without packet s.hands })
act (push mem packet i) s = do
  r ← queue_push_packet mem packet (get_or s.queues i []) s.heap
  some (record s { heap = r.1; queues = set s.queues i r.0 })
act (pull i) s =
    let (packet, queue) = queue_pull_packet (get_or s.queues i []) in
    some (record s { queues = set s.queues i queue; hands = with_hand packet s.hands })
act (clear i) s = do
  heap ← queue_clear (get_or s.queues i []) s.heap
  some (record s { heap = heap; queues = set s.queues i [] })
