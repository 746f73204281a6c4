-- ===== src/Lobby/Lookup.antt =====
-- What `channellist_find_channel_by_name` finds or makes.
use bnetd.Prelude.{
  ℕ, ◌+◌, ◌≤◌, ◌<◌, ◌^◌, ◌≡◌, refl, sym, ap, Bool, true, false, ◌&&◌, ◌||◌, List, [], ◌∷◌, Option,
  none, some, ◌==◌, if◌then◌else◌, arith, Bool-cases, inl, inr,
}
use mathlib.Core.Path.{subst}
use bnetd.Prelude.Text.{Text}
use bnetd.Util.Case.{same_name}
use bnetd.Channel.{Channel}
use bnetd.Lobby.{
  Server, Form, Search, hit, full, missing, find_channel_bychannelid, create, goes_by, is_local,
  has_room, saved_from, search_loop, from_search, find_channel_by_name,
}
use bnetd.Lobby.Roster.{has_id, AllListed, find-roster}
use bnetd.Lobby.Invariant.{IsLobby}
use bnetd.Lobby.Arrival.{made, opened, create_cases, opened-IsLobby, find_made, next_id_le}

abbrev pub IsPermanentForm : Option Form → Type 0
IsPermanentForm none = Unit
IsPermanentForm (some form) = form.permanent ≡ true

-- A channel that is hit stands in the list, and a copy is permanent.
abbrev pub IsSearched : List Channel → Search → Type 0
IsSearched rooms (hit ch) = find_channel_bychannelid rooms ch.id ≡ some ch
IsSearched rooms (full n form) = form.permanent ≡ true
IsSearched rooms missing = Unit

later_room :
    (r : Channel) (rs : List Channel) (x : Search)
    → has_id rs r.id ≡ false
    → IsSearched rs x
    → IsSearched (r ∷ rs) x
unfolding find_channel_bychannelid
later_room r rs (hit ch) n h =
    let other : (r.id == ch.id) ≡ false = elim (Bool-cases (r.id == ch.id)) [
      | inl e ↦
          let same : r.id ≡ ch.id = ground arith in
          ground (arith, (find-roster rs ch.id ch h).1, ap (has_id rs) same)
      | inr e ↦ e
    ] in
    rw other h
later_room r rs (full n form) _ h = h
later_room r rs missing _ h = tt

first_room : (r : Channel) (rs : List Channel) → IsSearched (r ∷ rs) (hit r)
unfolding find_channel_bychannelid
first_room r rs = ground arith

module _ (name : Text) (country realmname : Option Text) where
  next_form :
      (r : Channel) (saved : Option Form)
      → IsPermanentForm saved
      → IsPermanentForm
          (if goes_by r name then some (saved_from name country realmname r) else saved)
  unfolding saved_from
  next_form r saved p = elim (Bool-cases (goes_by r name)) [ inl e ↦ rw e refl | inr e ↦ rw e p ]

  search_loop-IsSearched :
      (rooms : List Channel) (n : ℕ) (saved : Option Form)
      → AllListed rooms
      → IsPermanentForm saved
      → IsSearched rooms (search_loop name country realmname rooms n saved)
  unfolding search_loop
  search_loop-IsSearched [] n none v p = tt
  search_loop-IsSearched [] n (some form) v p = p
  search_loop-IsSearched (r ∷ rs) n saved v p =
      elim (Bool-cases (
        same_name r.name name
        || goes_by r name && (is_local name country realmname r && has_room r))) [
          | inl e ↦ rw e (first_room r rs)
          | inr e ↦ rw e (
              later_room r rs _ v.1 (
                search_loop-IsSearched rs
                  (if goes_by r name && is_local name country realmname r then n + 1 else n)
                  (if goes_by r name then some (saved_from name country realmname r) else saved) v.2
                  (next_form r saved p)))
        ]

-- Nothing is found and nothing done, or a channel of the list is found, which may be new.
pub data Located (s : Server) : Option Channel × Server → Type 0 where
  nowhere : Located s (none, s)
  somewhere :
      (ch : Channel) (s' : Server)
      → IsLobby s'
      → find_channel_bychannelid s'.rooms ch.id ≡ some ch
      → s'.world ≡ s.world
      → s'.totalcount ≤ s.totalcount + 1
      → Located s (some ch, s')

created-Located :
    (mem : Bool) (form : Form) (s : Server)
    → IsLobby s
    → s.totalcount + 1 < 2 ^ 31
    → form.permanent ≡ true
    → Located s (create mem form s)
created-Located mem form s v bound perm = elim (create_cases form s v bound mem) [
  | inl run ↦ subst (Located s) (sym run) nowhere
  | inr run ↦ subst (Located s) (sym run) (
      somewhere (made form s v bound) (opened form s v bound) (opened-IsLobby form s v bound perm)
        (find_made form s v bound) refl (next_id_le form s v bound))
]

after-Located :
    (mem : Bool) (s : Server) (x : Search)
    → IsLobby s
    → s.totalcount + 1 < 2 ^ 31
    → IsSearched s.rooms x
    → Located s (from_search mem s x)
unfolding from_search
after-Located mem s (hit ch) v bound at = somewhere ch s v at refl (omega arith)
after-Located mem s missing v bound at = nowhere
after-Located true s (full n form) v bound at =
    created-Located true (record form { fullname = _ }) s v bound at
after-Located false s (full n form) v bound at = nowhere

pub found-Located :
    (name : Text) (country realmname : Option Text) (mem : Bool) (s : Server)
    → IsLobby s
    → s.totalcount + 1 < 2 ^ 31
    → Located s (find_channel_by_name name country realmname mem s)
unfolding find_channel_by_name
found-Located name country realmname mem s v bound =
    after-Located mem s (search_loop name country realmname s.rooms 0 none) v bound
      (search_loop-IsSearched name country realmname s.rooms 0 none v.listed tt)
