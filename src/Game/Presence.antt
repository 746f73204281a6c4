-- ===== src/Game/Presence.antt =====
-- Who is in a game, and who hosts it.
use bnetd.Prelude.{
  ℕ, suc, ◌+◌, ◌-◌, ◌<◌, ◌≡◌, refl, sym, ap, ◌∙◌, Bool, true, false, ◌&&◌, ◌||◌, not, List, [], ◌∷◌,
  ◌++◌, Option, none, some, ltb, if◌then◌else◌, arith, Option-cases, Bool-cases, inl, inr,
}
use mathlib.Core.Path.{subst}
use bnetd.Prelude.Text.{Text}
use bnetd.Util.Case.{same_name}
use bnetd.Game.{Game, Slot, Conns, Rc, ok, fail}
use bnetd.Game.Players.{
  first_connection, choose_host, is_ladder, known_startver, new_slot, add_player, same_account,
  is_some, vacate, Parted, refused, goes_on, over, del_player,
}

-- How many slots have a connection.
unfoldable pub live : List Slot → ℕ
live [] = 0
live (s ∷ ss) = if is_some s.connection then suc (live ss) else live ss

-- The account has a slot with a connection.
unfoldable pub seated : Option ℕ → List Slot → Bool
seated account [] = false
seated account (s ∷ ss) = same_account s.player account && is_some s.connection || seated account ss

-- `ref` counts the connected slots, and the first of these is the host, at its address.
pub record IsAttended (conns : Conns) (g : Game) : Type 0 where
  pub counted : g.ref ≡ live g.slots
  pub host : g.owner ≡ first_connection g.slots
  pub host_addr : (c : ℕ) → g.owner ≡ some c → g.addr ≡ conns.game_addr c
  pub host_port : (c : ℕ) → g.owner ≡ some c → g.port ≡ conns.game_port c

live-append : (xs ys : List Slot) → live (xs ++ ys) ≡ live xs + live ys
unfolding live
live-append [] ys = omega arith
live-append (x ∷ xs) ys = ground (arith, live-append xs ys)

first_connection-live : (ss : List Slot) → 0 < live ss → (c : ℕ) × (first_connection ss ≡ some c)
unfolding live first_connection
first_connection-live [] h = absurd (omega arith)
first_connection-live (s ∷ ss) h = elim (Option-cases s.connection) [
  | inr (c, e) ↦ (c, rw (e, first_connection))
  | inl e ↦ let (c, f) = first_connection-live ss (ground arith) in (c, ground arith)
]

vacate-live :
    (account : Option ℕ) (ss r : List Slot) → vacate account ss ≡ some r → live ss ≡ suc (live r)
unfolding live vacate
vacate-live account [] r h = ground arith
vacate-live account (s ∷ ss) r h = elim (Option-cases (vacate account ss)) [
  | inl e ↦ ground arith
  | inr (k, e) ↦ ground (arith, vacate-live account ss k)
]

vacate-none :
    (account : Option ℕ) (ss : List Slot) → vacate account ss ≡ none → seated account ss ≡ false
unfolding vacate seated
vacate-none account [] h = refl
vacate-none account (s ∷ ss) h = ground (arith, vacate-none account ss)

-- After `game_choose_host` on slots of which one is connected.
choose_host-IsAttended :
    (conns : Conns) (g : Game)
    → g.ref ≡ live g.slots
    → 0 < live g.slots
    → IsAttended conns (choose_host conns g)
unfolding choose_host
choose_host-IsAttended conns g e h =
    let (c, f) = first_connection-live g.slots h in
    let hosted = record g { owner = some c; addr = conns.game_addr c; port = conns.game_port c } in
    let run : choose_host conns g ≡ hosted = rw (f, choose_host) in
    subst (IsAttended conns) (sym run) (record {
      counted = e;
      host = sym f;
      host_addr = λ d q. ground arith;
      host_port = λ d q. ground arith;
    })

-- The conditions under which `game_add_player` lets a connection in.
abbrev pub admits : Conns → Game → Text → ℕ → ℕ → Bool
admits conns g pass startver c =
    known_startver startver
    && (not (is_ladder g.type && ltb (conns.normal_wins c) 10) && same_name g.pass pass)

-- The game with a slot for `c`, before the host is chosen.
abbrev entered : Conns → ℕ → Game → ℕ → Game
entered conns now g c = record g {
  ref = g.ref + 1;
  slots = g.slots ++ new_slot conns c ∷ [];
  lastaccess_time = now;
}

entered-IsAttended :
    (conns : Conns) (now : ℕ) (g : Game) (c : ℕ)
    → IsAttended conns g
    → IsAttended conns (choose_host conns (entered conns now g c))
unfolding new_slot live
entered-IsAttended conns now g c v =
    let sum = live-append g.slots (new_slot conns c ∷ []) in
    choose_host-IsAttended conns (entered conns now g c) (ground (arith, sum, v.counted))
      (ground (arith, sum))

choose_host-slots : (conns : Conns) (g : Game) → (choose_host conns g).slots ≡ g.slots
unfolding choose_host
choose_host-slots conns g = ground arith

module _ (conns : Conns) (now : ℕ) (g : Game) (c : ℕ) where
  stays : vacate (conns.account c) g.slots ≡ none → del_player conns now g c ≡ refused
  unfolding del_player
  stays e = rw (e, del_player)

  -- The game with the slots that are left, before the host is chosen.
  abbrev vacated : List Slot → Game
  vacated r = record g { slots = r; ref = g.ref - 1; lastaccess_time = now }

  leaves :
      (r : List Slot)
      → vacate (conns.account c) g.slots ≡ some r
      → del_player conns now g c ≡ (
          if ltb g.ref 2
          then over (record g { slots = r })
          else goes_on (choose_host conns (vacated r)))
  unfolding del_player
  leaves r e = rw (e, del_player)

-- How `game_add_player` answers, and the game afterwards.
pub record IsEntry (conns : Conns) (g : Game) (pass : Text) (startver c : ℕ) (r : Rc × Game)
    : Type 0 where
  pub answer : r.0 ≡ (if admits conns g pass startver c then ok else fail)
  pub attended : IsAttended conns r.1
  pub slots :
      r.1.slots
      ≡ (if admits conns g pass startver c then g.slots ++ new_slot conns c ∷ [] else g.slots)

module _ (conns : Conns) (now : ℕ) (g : Game) (pass : Text) (startver c : ℕ) where
  let_in :
      admits conns g pass startver c ≡ true
      → add_player conns true now g pass startver c
        ≡ (ok, choose_host conns (entered conns now g c))
  unfolding add_player
  let_in e = ground arith

  kept_out :
      admits conns g pass startver c ≡ false
      → add_player conns true now g pass startver c ≡ (fail, g)
  unfolding add_player
  kept_out e = ground arith

choose_host-ref : (conns : Conns) (g : Game) → (choose_host conns g).ref ≡ g.ref
unfolding choose_host
choose_host-ref conns g = ground arith

-- In a game that is attended as it should be, and with memory at hand, `game_add_player` succeeds
-- exactly if it knows the start version, a ladder player has ten normal wins and the password is
-- right up to case; then the connection has a slot of its own behind the others, otherwise the
-- slots are as before; and the game is attended as it should be.
pub add_player-IsEntry :
    (conns : Conns) (now : ℕ) (g : Game) (pass : Text) (startver c : ℕ)
    → IsAttended conns g
    → IsEntry conns g pass startver c (add_player conns true now g pass startver c)
add_player-IsEntry conns now g pass startver c v =
    elim (Bool-cases (admits conns g pass startver c)) [
      | inl e ↦
          subst (IsEntry conns g pass startver c) (sym (let_in conns now g pass startver c e))
            (record {
              answer = rw e;
              attended = entered-IsAttended conns now g c v;
              slots = rw e (choose_host-slots conns (entered conns now g c));
            })
      | inr e ↦
          subst (IsEntry conns g pass startver c) (sym (kept_out conns now g pass startver c e))
            (record { answer = rw e; attended = v; slots = rw e })
    ]

-- What may come of `game_del_player` for an account in a game.
abbrev pub IsDeparture : Conns → Game → Option ℕ → Parted → Type 0
IsDeparture conns g account refused = seated account g.slots ≡ false
IsDeparture conns g account (goes_on h) =
    IsAttended conns h × (g.ref ≡ suc h.ref) × (vacate account g.slots ≡ some h.slots)
IsDeparture conns g account (over h) = (g.ref ≡ 1) × (live h.slots ≡ 0)

left_by :
    (conns : Conns) (now : ℕ) (g : Game) (c : ℕ)
    → IsAttended conns g
    → (r : List Slot) → vacate (conns.account c) g.slots ≡ some r
    → IsDeparture conns g (conns.account c) (
        if ltb g.ref 2
        then over (record g { slots = r })
        else goes_on (choose_host conns (vacated conns now g c r)))
left_by conns now g c v r e =
    let fewer = vacate-live (conns.account c) g.slots r e in
    elim (Bool-cases (ltb g.ref 2)) [
      | inl t ↦ rw t (ground (arith, v.counted), ground (arith, v.counted))
      | inr t ↦ rw t (
        choose_host-IsAttended conns (vacated conns now g c r) (ground (arith, v.counted))
            (ground (arith, v.counted)),
        rw (choose_host-ref conns (vacated conns now g c r)) (ground arith),
        e ∙ ap some (sym (choose_host-slots conns (vacated conns now g c r))),
      )
    ]

-- In a game that is attended as it should be, `game_del_player` refuses only if the account of the
-- connection has no connected slot. Otherwise the game is over exactly with its last connection;
-- until then one connection less is counted, and a connection that is still there hosts the game.
pub del_player-IsDeparture :
    (conns : Conns) (now : ℕ) (g : Game) (c : ℕ)
    → IsAttended conns g
    → IsDeparture conns g (conns.account c) (del_player conns now g c)
del_player-IsDeparture conns now g c v = elim (Option-cases (vacate (conns.account c) g.slots)) [
  | inl e ↦
      subst (IsDeparture conns g (conns.account c)) (sym (stays conns now g c e))
        (vacate-none (conns.account c) g.slots e)
  | inr (r, e) ↦
      subst (IsDeparture conns g (conns.account c)) (sym (leaves conns now g c r e))
        (left_by conns now g c v r e)
]
