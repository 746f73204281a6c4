-- ===== src/Lobby/Departure.antt =====
-- What `channel_del_connection` and `channel_add_connection` do to the members, whoever has the
-- gavel.
use bnetd.Prelude.{
  ℕ, suc, ◌+◌, ◌-◌, ◌^◌, ◌≡◌, ◌⊎◌, inl, inr, refl, sym, ap, ◌∙◌, Bool, true, false, ◌&&◌, not, List,
  [], ◌∷◌, Option, none, some, ◌==◌, arith, length, u32, Bool-cases, Option-cases,
}
use mathlib.Core.Path.{subst}
use bnetd.Channel.{Channel, World, Users, ok, fail, is_conn, part}
use bnetd.Channel.Operator.{stands_in, choose_operator, set_next_operator}
use bnetd.Channel.Message.{message_send}
use bnetd.Channel.Members.{
  unlink, drop_next, drop_opr, del_connection, add_connection, elect, returned, is_empty,
}
use bnetd.Channel.Bans.{check_banning}
use bnetd.Channel.Invariant.{contains, AllDistinct}
use bnetd.Channel.Quiet.{message_send_quiet}
use bnetd.Channel.Join.{introduced, introduced_quiet}
use bnetd.Channel.Unlink.{unlink-none, length-unlink, contains-unlink, AllDistinct-unlink}
use bnetd.Lobby.Roles.{
  AreAmong, SameRoom, choose_operator_room, choose_operator-AreAmong, choose_operator-replaces,
}

-- A channel by itself: the count is right, nobody is listed twice, the operators are members.
pub record IsRoom (ch : Channel) : Type 0 where
  pub counted : ch.currmembers ≡ u32 (length ch.memberlist)
  pub distinct : AllDistinct ch.memberlist
  pub among : AreAmong ch.memberlist ch

-- What a member's departure leaves.
pub record IsLeft (ch : Channel) (c : ℕ) (w : World) (ch' : Channel) (gone : Bool) (w' : World)
    : Type 0 where
  pub room : IsRoom ch'
  pub id : ch'.id ≡ ch.id
  pub permanent : ch'.permanent ≡ ch.permanent
  pub members : (q : ℕ) → contains q ch'.memberlist ≡ (contains q ch.memberlist && not (q == c))
  pub destroyed : gone ≡ (is_empty ch'.memberlist && not ch'.permanent)
  pub homes : w'.home ≡ w.home

listed_somewhere : (c : ℕ) (ms : List ℕ) → contains c ms ≡ true → is_empty ms ≡ false
listed_somewhere c [] h = ground arith
listed_somewhere c (m ∷ ms) h = refl

-- The channel after `if (channel->opr==connection)`.
module _ (users : Users) (c : ℕ) (d : Channel) (w : World) where
  drop_opr_room : SameRoom d (drop_opr users c d w).0 × ((drop_opr users c d w).1.home ≡ w.home)
  unfolding drop_opr
  drop_opr_room = elim (Bool-cases (is_conn d.opr c)) [
    | inl e ↦ rw e (choose_operator_room users d none w)
    | inr e ↦ rw e ((refl, refl, refl, refl), refl)
  ]

  drop_opr-AreAmong :
      ((n : ℕ) → d.next_opr ≡ some n → contains n d.memberlist ≡ true)
      → ((n : ℕ) → d.next_opr ≡ some n → stands_in w n d ≡ true)
      → ((o : ℕ) → d.opr ≡ some o → (o == c) ≡ false → contains o d.memberlist ≡ true)
      → AreAmong d.memberlist (drop_opr users c d w).0
  unfolding drop_opr
  drop_opr-AreAmong next stands opr = elim (Bool-cases (is_conn d.opr c)) [
    | inl e ↦ rw e (choose_operator-replaces users d none w next stands)
    | inr e ↦ rw e (record { opr_in = λ o q. opr o q (ground arith); next_in = next })
  ]

-- A channel that differs from a room in its roles, which are members.
pub same-IsRoom :
    (ch ch' : Channel)
    → ch.currmembers ≡ u32 (length ch.memberlist)
    → AllDistinct ch.memberlist
    → SameRoom ch ch'
    → AreAmong ch.memberlist ch'
    → IsRoom ch'
same-IsRoom ch ch' count dist same among = record {
  counted = same.2 ∙ count ∙ ap (λ l. u32 (length l)) (sym same.1);
  distinct = subst AllDistinct (sym same.1) dist;
  among = subst (λ l. AreAmong l ch') (sym same.1) among;
}

module _ (users : Users) (c : ℕ) (ch : Channel) (ms : List ℕ)
    (taken : unlink c ch.memberlist ≡ some ms) (v : IsRoom ch) where
  abbrev shorter : Channel
  shorter =
      drop_next c (record ch { memberlist = ms; currmembers = u32 (ch.currmembers + 2 ^ 32 - 1) })

  kept : (q : ℕ) → contains q ms ≡ (contains q ch.memberlist && not (q == c))
  kept = contains-unlink c ch.memberlist ms v.distinct taken

  shorter_room :
      (shorter.id ≡ ch.id)
      × (shorter.memberlist ≡ ms)
      × (shorter.permanent ≡ ch.permanent)
      × (shorter.currmembers ≡ u32 (length ms))
      × (shorter.opr ≡ ch.opr)
  unfolding drop_next set_next_operator
  shorter_room = ground (arith, length-unlink c ch.memberlist ms taken, v.counted)

  shorter_next :
      (n : ℕ) → shorter.next_opr ≡ some n → (ch.next_opr ≡ some n) × (contains n ms ≡ true)
  unfolding drop_next set_next_operator
  shorter_next n e = ground (arith, kept n, v.among.next_in n)

  remains :
      (w : World)
      → ((m : ℕ) → contains m ch.memberlist ≡ true → w.home m ≡ some ch.id)
      → let r = drop_opr users c shorter w in
        IsLeft ch c w r.0 (is_empty r.0.memberlist && not r.0.permanent) r.1
  remains w homes =
      let same = drop_opr_room users c shorter w in
      let among =
        drop_opr-AreAmong users c shorter w
          (λ n e. ap (contains n) shorter_room.1 ∙ (shorter_next n e).1)
          (λ n e.
            let next = shorter_next n e in
            ground (arith, homes n, v.among.next_in n next.0, shorter_room))
          (λ o e ne.
            let was : ch.opr ≡ some o = sym shorter_room.4 ∙ e in
            ap (contains o) shorter_room.1 ∙ ground (arith, kept o, v.among.opr_in o was)) in
      record {
        room =
            same-IsRoom shorter (drop_opr users c shorter w).0
              (shorter_room.3 ∙ ap (λ l. u32 (length l)) (sym shorter_room.1))
              (subst AllDistinct (sym shorter_room.1)
                (AllDistinct-unlink c ch.memberlist ms v.distinct taken))
              same.0 among;
        id = same.0.0 ∙ shorter_room.0;
        permanent = same.0.3 ∙ shorter_room.2;
        members = λ q. ap (contains q) (same.0.1 ∙ shorter_room.1) ∙ kept q;
        destroyed = refl;
        homes = same.1;
      }

-- A member leaves: the call returns 0.
pub del_connection-IsLeft :
    (users : Users) (c : ℕ) (ch : Channel) (w : World)
    → IsRoom ch
    → ((m : ℕ) → contains m ch.memberlist ≡ true → w.home m ≡ some ch.id)
    → contains c ch.memberlist ≡ true
    → (ch' : Channel) × (gone : Bool) × (w' : World) × (del_connection users ch c w
        ≡ returned ok ch' gone w')
      × IsLeft ch c w ch' gone w'
unfolding del_connection
del_connection-IsLeft users c ch w v homes here =
    let w₁ = message_send users part c [] ch w in
    let quiet = message_send_quiet users part c [] ch w in
    elim (Option-cases (unlink c ch.memberlist)) [
      | inl e ↦ ground (arith, unlink-none c ch.memberlist e)
      | inr (ms, e) ↦
          let r = drop_opr users c (shorter users c ch ms e v) w₁ in
          let left = remains users c ch ms e v w₁ (λ m h. ap (λ f. f m) quiet.1 ∙ homes m h) in
          (
            r.0,
            is_empty r.0.memberlist && not r.0.permanent,
            r.1,
            rw (listed_somewhere c ch.memberlist here, e) refl,
            record {
              room = left.room;
              id = left.id;
              permanent = left.permanent;
              members = left.members;
              destroyed = refl;
              homes = left.homes ∙ quiet.1;
            },
          )
    ]

-- What a connection's arrival leaves.
pub record IsEntered (ch : Channel) (c : ℕ) (w : World) (ch' : Channel) (w' : World) : Type 0 where
  pub room : IsRoom ch'
  pub id : ch'.id ≡ ch.id
  pub permanent : ch'.permanent ≡ ch.permanent
  pub members : ch'.memberlist ≡ c ∷ ch.memberlist
  pub homes : w'.home ≡ w.home

abbrev with_member : Channel → ℕ → Channel
with_member ch c = record ch {
  memberlist = c ∷ ch.memberlist;
  currmembers = u32 (ch.currmembers + 1);
}

module _ (users : Users) (c : ℕ) (ch : Channel) (v : IsRoom ch)
    (new : contains c ch.memberlist ≡ false) where
  with_member-AreAmong : AreAmong (c ∷ ch.memberlist) (with_member ch c)
  with_member-AreAmong = record {
    opr_in = λ o e. ground (arith, v.among.opr_in o e);
    next_in = λ n e. ground (arith, v.among.next_in n e);
  }

  counts : u32 (ch.currmembers + 1) ≡ u32 (suc (length ch.memberlist))
  counts = omega (arith, v.counted)

  elected :
      (opr : Option ℕ) (w : World)
      → let r = elect users opr (with_member ch c) c w in IsEntered ch c w r.0 r.1
  unfolding elect
  elected (some o) w = record {
    room =
        same-IsRoom (with_member ch c) (with_member ch c) counts (new, v.distinct)
          (refl, refl, refl, refl) with_member-AreAmong;
    id = refl;
    permanent = refl;
    members = refl;
    homes = refl;
  }
  elected none w =
      let same = choose_operator_room users (with_member ch c) (some c) w in
      record {
        room =
            same-IsRoom (with_member ch c) (choose_operator users (with_member ch c) (some c) w).1
              counts (new, v.distinct) same.0
              (choose_operator-AreAmong users (with_member ch c) (some c) w with_member-AreAmong);
        id = same.0.0;
        permanent = same.0.3;
        members = same.0.1;
        homes = same.1;
      }

  -- Either nothing happens, or the connection is a member.
  pub add_connection-IsEntered :
      (mem : Bool) (w : World)
      → (add_connection users mem ch c w ≡ (fail, ch, w))
        ⊎ ((ch' : Channel) × (w' : World) × (add_connection users mem ch c w ≡ (ok, ch', w'))
            × IsEntered ch c w ch' w')
  unfolding add_connection
  add_connection-IsEntered mem w = elim (Bool-cases (check_banning users ch c)) [
    | inl banned ↦ inl (rw banned refl)
    | inr free ↦ elim (Bool-cases mem) [
      | inr short ↦ inl (rw (free, short) refl)
      | inl enough ↦
          let w₁ = introduced users ch c w in
          let r = elect users ch.opr (with_member ch c) c w₁ in
          let e = elected ch.opr w₁ in
          inr (
            r.0,
            r.1,
            rw (free, enough) refl,
            record {
              room = e.room;
              id = e.id;
              permanent = e.permanent;
              members = e.members;
              homes = e.homes ∙ (introduced_quiet users ch c w).1;
            },
          )
    ]
  ]
