-- ===== src/Lobby/Arrival.antt =====
-- How entering a channel, which may be created for it, keeps the server in order.
use bnetd.Prelude.{
  ℕ, ◌+◌, ◌≤◌, ◌<◌, ◌^◌, ◌≡◌, ◌⊎◌, refl, sym, ap, ◌∙◌, Bool, true, false, ◌||◌, not, [], ◌∷◌, none,
  some, ◌==◌, arith, Bool-cases, inl, inr,
}
use bnetd.Channel.{Channel, World, is_conn, update, ok, fail, Rc}
use bnetd.Channel.Invariant.{contains}
use bnetd.Lobby.{
  Server, Env, Form, find_channel_bychannelid, put_room, remove_room, channel_destroy, next_id,
  new_channel, create, refuses,
}
use bnetd.Lobby.Moves.{set_home, admit, entry}
use bnetd.Lobby.Departure.{IsRoom, IsEntered, add_connection-IsEntered}
use bnetd.Lobby.Roster.{
  roster, has_id, IsListed, find-AllListed, find-roster, roster_absent, has_id-put_room,
  AllListed-put_room, roster-put_room,
}
use bnetd.Lobby.Invariant.{IsLobby}

-- After a connection that was in no channel has tried to enter one: it is in one exactly if the
-- outcome is 0.
pub record IsTried (c : ℕ) (s : Server) (r : Rc × Server) : Type 0 where
  pub lobby : IsLobby r.1
  pub failed : r.0 ≡ fail → r.1.world.home c ≡ none
  pub no_draw : r.1.totalcount ≡ s.totalcount

entered-IsListed :
    (ch ch' : Channel) (c : ℕ) (w w' : World) → IsEntered ch c w ch' w' → IsListed ch'
entered-IsListed ch ch' c w w' e = record { room = e.room; in_use = rw e.members refl }

module _ (env : Env) (c : ℕ) (s : Server) (v : IsLobby s) (away : s.world.home c ≡ none)
    (ch : Channel) (at : find_channel_bychannelid s.rooms ch.id ≡ some ch) where
  stranger : contains c ch.memberlist ≡ false
  stranger = ground (arith, (find-roster s.rooms ch.id ch at).2 c, v.homes c ch.id)

  abbrev inside : Channel → World → Server
  inside ch' w = record s {
    rooms = put_room ch' s.rooms;
    world = w;
    welcomed = update s.welcomed c true;
  }

  abbrev outside : Server
  outside = record s { world = set_home c none (set_home c (some ch.id) s.world) }

  inside-IsLobby :
      (ch' : Channel) (w : World)
      → IsEntered ch c (set_home c (some ch.id) s.world) ch' w
      → IsLobby (inside ch' w)
  unfolding set_home
  inside-IsLobby ch' w e =
      let found = find-roster s.rooms ch.id ch at in
      let known = ap (has_id s.rooms) e.id ∙ found.1 in
      record {
        listed = AllListed-put_room ch' s.rooms (entered-IsListed ch ch' c _ w e) v.listed;
        drawn = λ id h. v.drawn id (sym (has_id-put_room ch' s.rooms id) ∙ h);
        homes = λ q id. ground (
          arith,
          roster-put_room ch' s.rooms id q known,
          v.homes q id,
          found.2 q,
          e.id,
          ap (contains q) e.members,
          e.homes,
        );
      }

  outside-IsLobby : IsLobby outside
  unfolding set_home
  outside-IsLobby = record {
    listed = v.listed;
    drawn = v.drawn;
    homes = λ q id. ground (arith, v.homes q id);
  }

  outside_away : outside.world.home c ≡ none
  unfolding set_home
  outside_away = ground arith

  pub admit-IsTried : IsTried c s (admit env false c ch s)
  unfolding admit entry
  admit-IsTried =
      let room = (find-AllListed s.rooms ch.id ch v.listed at).room in
      elim (add_connection-IsEntered env.users c ch room stranger env.mem
        (set_home c (some ch.id) s.world)) [
          | inl run ↦
              rw run
                (record { lobby = outside-IsLobby; failed = λ e. outside_away; no_draw = refl })
          | inr (ch', w, run, e) ↦ rw run (record {
            lobby = inside-IsLobby ch' w e;
            failed = λ h. ground arith;
            no_draw = refl;
          })
        ]

-- A channel that is made is empty, and its id is new while the counter does not wrap.
next_id_lem : (n : ℕ) → n + 1 < 2 ^ 31 → next_id n ≡ n + 1
unfolding next_id
next_id_lem n h = ground arith

new-IsRoom : (form : Form) (id : ℕ) → IsRoom (new_channel form id)
unfolding new_channel
new-IsRoom form id = record {
  counted = refl;
  distinct = tt;
  among = record { opr_in = λ o e. ground arith; next_in = λ n e. ground arith };
}

module _ (form : Form) (s : Server) (v : IsLobby s) (bound : s.totalcount + 1 < 2 ^ 31) where
  abbrev pub made : Channel
  made = new_channel form (next_id s.totalcount)

  abbrev pub opened : Server
  opened = record s { rooms = made ∷ s.rooms; totalcount = next_id s.totalcount }

  pub fresh : has_id s.rooms made.id ≡ false
  unfolding new_channel
  fresh = elim (Bool-cases (has_id s.rooms (next_id s.totalcount))) [
    | inl e ↦
        absurd (omega (arith, v.drawn (next_id s.totalcount) e, next_id_lem s.totalcount bound))
    | inr e ↦ e
  ]

  pub create_cases :
      (mem : Bool) → (create mem form s ≡ (none, s)) ⊎ (create mem form s ≡ (some made, opened))
  unfolding create
  create_cases mem = elim (Bool-cases (refuses form s.rooms || not mem)) [
    | inl e ↦ inl (rw e refl)
    | inr e ↦ inr (rw e refl)
  ]

  pub drawn_opened : (id : ℕ) → has_id opened.rooms id ≡ true → id ≤ opened.totalcount
  unfolding has_id new_channel
  drawn_opened id h = ground (arith, v.drawn id, next_id_lem s.totalcount bound)

  pub homes_opened : (c id : ℕ) → is_conn (s.world.home c) id ≡ roster opened.rooms id c
  unfolding roster new_channel
  homes_opened c id = ground (arith, v.homes c id, roster_absent s.rooms id c, fresh)

  -- A permanent one may stay empty.
  pub opened-IsLobby : form.permanent ≡ true → IsLobby opened
  unfolding new_channel
  opened-IsLobby perm = record {
    listed = (
      record { room = new-IsRoom form (next_id s.totalcount); in_use = ground arith },
      fresh,
      v.listed,
    );
    drawn = drawn_opened;
    homes = homes_opened;
  }

  pub has_made : has_id opened.rooms made.id ≡ true
  unfolding has_id
  has_made = ground arith

  pub empty_made : made.memberlist ≡ []
  unfolding new_channel
  empty_made = refl

  pub next_id_le : next_id s.totalcount ≤ s.totalcount + 1
  next_id_le = omega (arith, next_id_lem s.totalcount bound)

  pub find_made : find_channel_bychannelid opened.rooms made.id ≡ some made
  unfolding find_channel_bychannelid
  find_made = ground arith

module _ (env : Env) (c : ℕ) (form : Form) (s : Server) (v : IsLobby s)
    (bound : s.totalcount + 1 < 2 ^ 31) (away : s.world.home c ≡ none) where
  abbrev room : Channel
  room = made form s v bound

  abbrev start : Server
  start = opened form s v bound

  -- The only member is the newcomer.
  moved_in :
      (ch' : Channel) (w : World)
      → IsEntered room c (set_home c (some room.id) s.world) ch' w
      → IsLobby (entry true c room start ok ch' w).1
  unfolding entry put_room set_home
  moved_in ch' w e =
      let new = fresh form s v bound in
      let same : (room.id == ch'.id) ≡ true = ground (arith, e.id) in
      record {
        listed =
            rw same (entered-IsListed room ch' c _ w e, ap (has_id s.rooms) e.id ∙ new, v.listed);
        drawn =
            λ id h. drawn_opened form s v bound id (sym (has_id-put_room ch' start.rooms id) ∙ h);
        homes = λ q id. ground (
          arith,
          roster-put_room ch' start.rooms id q (rw e.id (has_made form s v bound)),
          homes_opened form s v bound q id,
          v.homes q id,
          roster_absent s.rooms id q,
          new,
          e.id,
          ap (contains q) e.members,
          e.homes,
          empty_made form s v bound,
        );
      }

  destroyed : (channel_destroy room start.rooms).1 ≡ s.rooms
  unfolding channel_destroy remove_room new_channel
  destroyed = ground arith

  abbrev closed : Server
  closed = record start {
    rooms = s.rooms;
    world = set_home c none (set_home c (some room.id) s.world);
  }

  closed-IsLobby : IsLobby closed
  unfolding set_home
  closed-IsLobby = record {
    listed = v.listed;
    drawn = λ id h. omega (arith, v.drawn id h, next_id_lem s.totalcount bound);
    homes = λ q id. ground (arith, v.homes q id);
  }

  closed_away : closed.world.home c ≡ none
  unfolding set_home
  closed_away = ground arith

  stranger_made : contains c room.memberlist ≡ false
  unfolding new_channel
  stranger_made = refl

  pub admit_made-IsTried : IsTried c start (admit env true c room start)
  unfolding admit entry
  admit_made-IsTried =
      elim (add_connection-IsEntered env.users c room (new-IsRoom form (next_id s.totalcount))
        stranger_made env.mem (set_home c (some room.id) s.world)) [
          | inl run ↦
              rw (run, destroyed)
                (record { lobby = closed-IsLobby; failed = λ e. closed_away; no_draw = refl })
          | inr (ch', w, run, e) ↦
              rw run
                (record { lobby = moved_in ch' w e; failed = λ h. ground arith; no_draw = refl })
        ]
