-- ===== src/Packets/Balance.antt =====
-- The references to a packet are as many as its count.
use bnetd.Prelude.{
  ℕ, zero, suc, ◌+◌, ◌-◌, ◌<◌, ◌^◌, ◌≡◌, refl, ap, ◌∙◌, Bool, true, false, List, [], ◌∷◌, ◌++◌,
  Option, none, some, ◌==◌, ltb, u32, if◌then◌else◌, get_or, set, length, arith, Bool-cases, inl,
  inr,
}
use bnetd.Channel.{update}
use bnetd.Packets.{
  Heap, packet_create, packet_add_ref, packet_del_ref, queue_push_packet, queue_pull_packet,
  queue_clear, Post, Action, create, release, push, pull, clear, without, with_hand, act,
}

unfoldable pub count : ℕ → List ℕ → ℕ
count p [] = 0
count p (q ∷ qs) = if q == p then 1 + count p qs else count p qs

unfoldable pub count_all : ℕ → List (List ℕ) → ℕ
count_all p [] = 0
count_all p (q ∷ qs) = count p q + count_all p qs

-- The references to a packet, in queues and in hands.
abbrev pub total : Post → ℕ → ℕ
total s p = count_all p s.queues + count p s.hands

-- What the heap has for a packet with so many references.
abbrev pub tally : ℕ → Option ℕ
tally n = if n == 0 then none else some n

-- A packet is on the heap exactly if there is a reference to it, and its count is their number.
abbrev pub IsBalanced : Post → Type 0
IsBalanced s = (p : ℕ) → s.heap p ≡ tally (total s p)

-- When an action may be done: a new packet has an address that is free; only a packet in hand is
-- pushed or given back; and counts do not overflow.
abbrev pub IsAllowed : Action → Post → Type 0
IsAllowed (create packet) s = s.heap packet ≡ none
IsAllowed (release packet) s = 0 < count packet s.hands
IsAllowed (push mem packet i) s =
    (0 < count packet s.hands) × (i < length s.queues) × (total s packet + 1 < 2 ^ 32)
IsAllowed (pull i) s = i < length s.queues
IsAllowed (clear i) s = i < length s.queues

nothing_counted : (p : ℕ) → count p [] ≡ 0
unfolding count
nothing_counted p = refl

count-append :
    (p : ℕ) (qs : List ℕ) (q : ℕ) → count p (qs ++ q ∷ []) ≡ count p qs + (if q == p then 1 else 0)
unfolding count
count-append p [] q = ground arith
count-append p (x ∷ qs) q = ground (arith, count-append p qs q)

count-without :
    (p q : ℕ) (qs : List ℕ)
    → 0 < count q qs
    → count p (without q qs) + (if q == p then 1 else 0) ≡ count p qs
unfolding count without
count-without p q [] h = ground arith
count-without p q (x ∷ qs) h = elim (Bool-cases (x == q)) [
  | inl e ↦ rw e (let own : x ≡ q = ground arith in ground (arith, own))
  | inr e ↦ rw e (ground (arith, count-without p q qs))
]

count_all-set :
    (p i : ℕ) (qs : List (List ℕ)) (q : List ℕ)
    → i < length qs
    → count_all p (set qs i q) + count p (get_or qs i []) ≡ count_all p qs + count p q
unfolding count_all
count_all-set p i [] q h = ground arith
count_all-set p zero (x ∷ qs) q h = omega arith
count_all-set p (suc i) (x ∷ qs) q h = omega (arith, count_all-set p i qs q (omega arith))

-- One reference less, where there is one.
del_ref-tally :
    (packet : ℕ) (heap : Heap) (f : ℕ → ℕ)
    → ((p : ℕ) → heap p ≡ tally (f p + (if packet == p then 1 else 0)))
    → (heap' : Heap) × (packet_del_ref packet heap ≡ some heap') × ((p : ℕ) → heap' p ≡ tally (f p))
unfolding packet_del_ref
del_ref-tally packet heap f h =
    let known : heap packet ≡ some (f packet + 1) = ground (arith, h packet) in
    (
      update heap packet (if ltb (f packet + 1) 2 then none else some (f packet + 1 - 1)),
      rw known refl,
      λ p. elim (Bool-cases (packet == p)) [
        | inl e ↦ let own : packet ≡ p = ground arith in ground (arith, ap f own)
        | inr e ↦ ground (arith, h p)
      ],
    )

clear-tally :
    (queue : List ℕ) (heap : Heap) (f : ℕ → ℕ)
    → ((p : ℕ) → heap p ≡ tally (f p + count p queue))
    → (heap' : Heap) × (queue_clear queue heap ≡ some heap') × ((p : ℕ) → heap' p ≡ tally (f p))
unfolding queue_clear count
clear-tally [] heap f h = (heap, refl, λ p. h p ∙ ap tally (omega arith))
clear-tally (q ∷ queue) heap f h =
    let (heap₁, ran, one) =
      del_ref-tally q heap (λ p. f p + count p queue) (λ p. h p ∙ ap tally (ground arith)) in
    let (heap₂, cleared, rest) = clear-tally queue heap₁ f one in
    (heap₂, rw (ran, cleared) refl, rest)

create-IsBalanced :
    (packet : ℕ) (s : Post)
    → IsBalanced s
    → s.heap packet ≡ none
    → IsBalanced (record s { heap = packet_create packet s.heap; hands = packet ∷ s.hands })
unfolding packet_create count
create-IsBalanced packet s v free p = elim (Bool-cases (packet == p)) [
  | inl e ↦ let own : packet ≡ p = ground arith in ground (arith, v p, free, ap s.heap own)
  | inr e ↦ ground (arith, v p)
]

push-IsBalanced :
    (mem : Bool) (packet i : ℕ) (s : Post)
    → IsBalanced s
    → IsAllowed (push mem packet i) s
    → (r : List ℕ × Heap) × (queue_push_packet mem packet (get_or s.queues i []) s.heap ≡ some r)
      × IsBalanced (record s { heap = r.1; queues = set s.queues i r.0 })
unfolding queue_push_packet packet_add_ref
push-IsBalanced false packet i s v (held, there, few) = (
  (get_or s.queues i [], s.heap),
  refl,
  λ p. v p ∙ ap tally (omega (arith, count_all-set p i s.queues (get_or s.queues i []) there)),
)
push-IsBalanced true packet i s v (held, there, few) =
    let queue = get_or s.queues i [] in
    let known : s.heap packet ≡ some (total s packet) = ground (arith, v packet) in
    (
      (queue ++ packet ∷ [], update s.heap packet (some (u32 (total s packet + 1)))),
      rw known refl,
      λ p.
          let more = count_all-set p i s.queues (queue ++ packet ∷ []) there in
          let last = count-append p queue packet in
          elim (Bool-cases (packet == p)) [
            | inl e ↦
                let own : packet ≡ p = ground arith in
                ground (arith, more, last, ap (total s) own, few)
            | inr e ↦ ground (arith, more, last, v p)
          ],
    )

pull-IsBalanced :
    (i : ℕ) (s : Post) (queue : List ℕ)
    → IsBalanced s
    → i < length s.queues
    → get_or s.queues i [] ≡ queue
    → let r = queue_pull_packet queue in
      IsBalanced (record s { queues = set s.queues i r.1; hands = with_hand r.0 s.hands })
unfolding queue_pull_packet count
pull-IsBalanced i s [] v there is p =
    v p ∙ ap tally (omega (arith, count_all-set p i s.queues [] there, ap (count p) is))
pull-IsBalanced i s (q ∷ queue) v there is p =
    v p ∙ ap tally (ground (arith, count_all-set p i s.queues queue there, ap (count p) is))

-- Packets and queues in order, with an action that may be done: it reads no packet that was freed,
-- and afterwards again exactly the packets with a reference are on the heap, each with the number
-- of its references as its count. So none is freed that is still queued or held, and none is
-- forgotten.
pub act-IsBalanced :
    (action : Action) (s : Post)
    → IsBalanced s
    → IsAllowed action s
    → (s' : Post) × (act action s ≡ some s') × IsBalanced s'
unfolding act
act-IsBalanced (create packet) s v free = (_, refl, create-IsBalanced packet s v free)
act-IsBalanced (release packet) s v held =
    let f : ℕ → ℕ = λ p. count_all p s.queues + count p (without packet s.hands) in
    let (heap, ran, left) =
      del_ref-tally packet s.heap f
        (λ p. v p ∙ ap tally (omega (arith, count-without p packet s.hands held))) in
    (record s { heap = heap; hands = without packet s.hands }, rw ran refl, left)
act-IsBalanced (push mem packet i) s v allowed =
    let (r, ran, balanced) = push-IsBalanced mem packet i s v allowed in
    (record s { heap = r.1; queues = set s.queues i r.0 }, rw ran refl, balanced)
act-IsBalanced (pull i) s v there =
    (_, refl, pull-IsBalanced i s (get_or s.queues i []) v there refl)
act-IsBalanced (clear i) s v there =
    let f : ℕ → ℕ = λ p. count_all p (set s.queues i []) + count p s.hands in
    let (heap, ran, left) = clear-tally (get_or s.queues i []) s.heap f (λ p.
      v p ∙ ap tally (omega (arith, count_all-set p i s.queues [] there, nothing_counted p))) in
    (record s { heap = heap; queues = set s.queues i [] }, rw ran refl, left)
