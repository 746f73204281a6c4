-- ===== src/Lobby/Roster.antt =====
-- Who is listed in which channel of the list, and how the list's operations change it.
use bnetd.Prelude.{
  ℕ, ◌≡◌, refl, sym, ap, ◌∙◌, Bool, true, false, ◌&&◌, ◌||◌, not, List, [], ◌∷◌, some, ◌==◌,
  if◌then◌else◌, arith, Bool-cases, inl, inr,
}
use mathlib.Core.Path.{subst}
use bnetd.Channel.{Channel}
use bnetd.Channel.Members.{is_empty}
use bnetd.Channel.Invariant.{contains}
use bnetd.Lobby.{find_channel_bychannelid, put_room, remove_room}
use bnetd.Lobby.Departure.{IsRoom}

-- The connection is listed in the channel with the id.
unfoldable pub roster : List Channel → ℕ → ℕ → Bool
roster [] id c = false
roster (r ∷ rs) id c = if r.id == id then contains c r.memberlist else roster rs id c

unfoldable pub has_id : List Channel → ℕ → Bool
has_id [] id = false
has_id (r ∷ rs) id = r.id == id || has_id rs id

-- A channel of the list: only a permanent one is empty.
pub record IsListed (ch : Channel) : Type 0 where
  pub room : IsRoom ch
  pub in_use : (is_empty ch.memberlist && not ch.permanent) ≡ false

abbrev pub AllListed : List Channel → Type 0
AllListed [] = Unit
AllListed (r ∷ rs) = IsListed r × (has_id rs r.id ≡ false) × AllListed rs

pub find-AllListed :
    (rooms : List Channel) (id : ℕ) (ch : Channel)
    → AllListed rooms
    → find_channel_bychannelid rooms id ≡ some ch
    → IsListed ch
unfolding find_channel_bychannelid
find-AllListed [] id ch v h = ground arith
find-AllListed (r ∷ rs) id ch v h = elim (Bool-cases (r.id == id)) [
  | inl e ↦ let same : r ≡ ch = ground arith in subst IsListed same v.0
  | inr e ↦ find-AllListed rs id ch v.2 (ground arith)
]

pub find-roster :
    (rooms : List Channel) (id : ℕ) (ch : Channel)
    → find_channel_bychannelid rooms id ≡ some ch
    → (ch.id ≡ id)
      × (has_id rooms id ≡ true)
      × ((c : ℕ) → roster rooms id c ≡ contains c ch.memberlist)
unfolding find_channel_bychannelid roster has_id
find-roster [] id ch h = ground arith
find-roster (r ∷ rs) id ch h = elim (Bool-cases (r.id == id)) [
  | inl e ↦
      let same : r ≡ ch = ground arith in
      (ground arith, ground arith, λ c. rw e (ap (λ x. contains c x.memberlist) same))
  | inr e ↦
      let more = find-roster rs id ch (ground arith) in (more.0, rw e more.1, λ c. rw e (more.2 c))
]

pub roster-find :
    (rooms : List Channel) (id c : ℕ)
    → roster rooms id c ≡ true
    → (ch : Channel) × (find_channel_bychannelid rooms id ≡ some ch)
unfolding find_channel_bychannelid roster
roster-find [] id c h = ground arith
roster-find (r ∷ rs) id c h = elim (Bool-cases (r.id == id)) [
  | inl e ↦ (r, rw e refl)
  | inr e ↦ let (ch, f) = roster-find rs id c (ground arith) in (ch, rw e f)
]

pub roster_absent :
    (rooms : List Channel) (id c : ℕ) → has_id rooms id ≡ false → roster rooms id c ≡ false
unfolding roster has_id
roster_absent [] id c h = refl
roster_absent (r ∷ rs) id c h = ground (arith, roster_absent rs id c)

pub has_id-put_room :
    (ch : Channel) (rooms : List Channel) (id : ℕ) → has_id (put_room ch rooms) id ≡ has_id rooms id
unfolding put_room has_id
has_id-put_room ch [] id = refl
has_id-put_room ch (r ∷ rs) id = ground (arith, has_id-put_room ch rs id)

pub AllListed-put_room :
    (ch : Channel) (rooms : List Channel)
    → IsListed ch
    → AllListed rooms
    → AllListed (put_room ch rooms)
unfolding put_room has_id
AllListed-put_room ch [] l v = tt
AllListed-put_room ch (r ∷ rs) l v = elim (Bool-cases (r.id == ch.id)) [
  | inl e ↦ rw e (l, let same : r.id ≡ ch.id = ground arith in ap (has_id rs) (sym same) ∙ v.1, v.2)
  | inr e ↦ rw e (v.0, has_id-put_room ch rs r.id ∙ v.1, AllListed-put_room ch rs l v.2)
]

pub roster-put_room :
    (ch : Channel) (rooms : List Channel) (id c : ℕ)
    → has_id rooms ch.id ≡ true
    → roster (put_room ch rooms) id c
      ≡ (if ch.id == id then contains c ch.memberlist else roster rooms id c)
unfolding put_room roster has_id
roster-put_room ch [] id c h = ground arith
roster-put_room ch (r ∷ rs) id c h = ground (arith, roster-put_room ch rs id c)

pub has_id-remove_room :
    (i : ℕ) (rooms : List Channel) (id : ℕ)
    → has_id rooms id ≡ false
    → has_id (remove_room i rooms) id ≡ false
unfolding remove_room has_id
has_id-remove_room i [] id h = refl
has_id-remove_room i (r ∷ rs) id h = ground (arith, has_id-remove_room i rs id)

pub AllListed-remove_room :
    (i : ℕ) (rooms : List Channel) → AllListed rooms → AllListed (remove_room i rooms)
unfolding remove_room
AllListed-remove_room i [] v = tt
AllListed-remove_room i (r ∷ rs) v = elim (Bool-cases (r.id == i)) [
  | inl e ↦ rw e v.2
  | inr e ↦ rw e (v.0, has_id-remove_room i rs r.id v.1, AllListed-remove_room i rs v.2)
]

pub roster-remove_room :
    (i : ℕ) (rooms : List Channel) (id c : ℕ)
    → AllListed rooms
    → roster (remove_room i rooms) id c ≡ (if i == id then false else roster rooms id c)
unfolding remove_room roster
roster-remove_room i [] id c v = ground arith
roster-remove_room i (r ∷ rs) id c v =
    ground (arith, roster-remove_room i rs id c v.2, roster_absent rs id c, v.1)
