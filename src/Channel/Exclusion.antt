-- ===== src/Channel/Exclusion.antt =====
-- What banning and unbanning do to the ban list, as a set of names up to case.
use bnetd.Prelude.{
  ◌≡◌, refl, sym, Bool, true, false, ◌&&◌, ◌||◌, not, List, [], ◌∷◌, ◌++◌, none, some,
  if◌then◌else◌, arith, Bool-cases, inl, inr,
}
use mathlib.Core.Path.{subst}
use bnetd.Prelude.Text.{Text}
use bnetd.Util.Case.{same_name, same_name_symm, same_name_trans}
use bnetd.Channel.{Channel, Rc, ok, fail}
use bnetd.Channel.Bans.{the_void, listed, ban_user, unban_loop, unban_user}

-- No two entries are the same name.
abbrev pub AllApart : List Text → Type 0
AllApart [] = Unit
AllApart (b ∷ bs) = (listed bs b ≡ false) × AllApart bs

listed-append :
    (bs : List Text) (user q : Text)
    → listed (bs ++ user ∷ []) q ≡ (listed bs q || same_name user q)
unfolding listed
listed-append [] user q = ground arith
listed-append (b ∷ bs) user q = ground (arith, listed-append bs user q)

listed_congr : (bs : List Text) (p q : Text) → same_name p q ≡ true → listed bs p ≡ listed bs q
unfolding listed
listed_congr [] p q h = refl
listed_congr (b ∷ bs) p q h =
    ground (
      arith,
      listed_congr bs p q h,
      same_name_trans b p q,
      same_name_trans b q p,
      same_name_symm p q,
    )

AllApart-append :
    (bs : List Text) (user : Text)
    → AllApart bs
    → listed bs user ≡ false
    → AllApart (bs ++ user ∷ [])
unfolding listed
AllApart-append [] user h l = (refl, tt)
AllApart-append (b ∷ bs) user h l = (
  ground (arith, listed-append bs user b, same_name_symm b user),
  AllApart-append bs user h.1 (ground arith),
)

-- What is banned afterwards, and that the list stays without repetitions.
pub record IsBanned (ch : Channel) (user : Text) (ch' : Channel) : Type 0 where
  pub apart : AllApart ch'.banlist
  pub names : (q : Text) → listed ch'.banlist q ≡ (listed ch.banlist q || same_name user q)

-- `channel_ban_user` succeeds, memory given, on every channel but THE VOID; then exactly the
-- spellings of the name are banned besides those that were, and no name is on the list twice.
ban_user-IsBanned :
    (ch : Channel) (user : Text)
    → AllApart ch.banlist
    → same_name ch.name the_void ≡ false
    → let r = ban_user true ch user in (r.0 ≡ ok) × IsBanned ch user r.1
unfolding ban_user
ban_user-IsBanned ch user apart other = elim (Bool-cases (listed ch.banlist user)) [
  | inl old ↦
      rw (other, old)
        (
          refl,
          record { apart = apart; names = λ q. ground (arith, listed_congr ch.banlist user q) },
        )
  | inr new ↦
      rw (other, new)
        (
          refl,
          record {
            apart = AllApart-append ch.banlist user apart new;
            names = λ q. listed-append ch.banlist user q;
          },
        )
]

-- What is left is the rest of the names, each once.
pub record IsLifted (bs : List Text) (user : Text) (r : List Text) : Type 0 where
  pub apart : AllApart r
  pub names : (q : Text) → listed r q ≡ (listed bs q && not (same_name user q))

IsLifted-here :
    (b : Text) (bs : List Text) (user : Text)
    → AllApart (b ∷ bs)
    → same_name b user ≡ true
    → IsLifted (b ∷ bs) user bs
unfolding listed
IsLifted-here b bs user a e = record {
  apart = a.1;
  names = λ q. ground (
    arith,
    listed_congr bs b q,
    same_name_trans b user q,
    same_name_trans user b q,
    same_name_symm b user,
  );
}

IsLifted-there :
    (b : Text) (bs : List Text) (user : Text) (k : List Text)
    → AllApart (b ∷ bs)
    → same_name b user ≡ false
    → IsLifted bs user k
    → IsLifted (b ∷ bs) user (b ∷ k)
unfolding listed
IsLifted-there b bs user k a e t = record {
  apart = (ground (arith, t.names b), t.apart);
  names = λ q. ground (arith, t.names q, same_name_trans b q user, same_name_symm user q);
}

unban_loop-IsLifted :
    (bs : List Text) (user : Text)
    → AllApart bs
    → listed bs user ≡ true
    → (r : List Text) × (unban_loop bs user ≡ some r) × IsLifted bs user r
unfolding unban_loop listed
unban_loop-IsLifted [] user a h = ground arith
unban_loop-IsLifted (b ∷ bs) user a h = elim (Bool-cases (same_name b user)) [
  | inl e ↦ (bs, rw e, IsLifted-here b bs user a e)
  | inr e ↦
      let (k, run, t) = unban_loop-IsLifted bs user a.1 (ground arith) in
      (b ∷ k, rw (e, run), IsLifted-there b bs user k a e t)
]

unban_loop-stranger :
    (bs : List Text) (user : Text) → listed bs user ≡ false → unban_loop bs user ≡ none
unfolding unban_loop listed
unban_loop-stranger [] user h = refl
unban_loop-stranger (b ∷ bs) user h = ground (arith, unban_loop-stranger bs user)

-- On a ban list without repetitions `channel_unban_user` succeeds exactly if the name is banned in
-- some spelling. Afterwards no spelling of it is banned, every other name is as before, and the
-- list is without repetitions.
unban_user-IsLifted :
    (ch : Channel) (user : Text)
    → AllApart ch.banlist
    → let r = unban_user ch user in
      (r.0 ≡ (if listed ch.banlist user then ok else fail)) × IsLifted ch.banlist user r.1.banlist
unfolding unban_user
unban_user-IsLifted ch user a = elim (Bool-cases (listed ch.banlist user)) [
  | inl h ↦
      let (k, run, t) = unban_loop-IsLifted ch.banlist user a h in rw (run, h, unban_user) (refl, t)
  | inr h ↦
      rw (unban_loop-stranger ch.banlist user h, h, unban_user)
        (refl, record { apart = a; names = λ q. ground (arith, listed_congr ch.banlist user q) })
]

-- What a ban comes to, on THE VOID and elsewhere.
abbrev pub BanOutcome : (void : Bool) → Channel → Text → Rc × Channel → Type 0
BanOutcome true ch user r = r ≡ (fail, ch)
BanOutcome false ch user r = (r.0 ≡ ok) × IsBanned ch user r.1

ban_user_void :
    (ch : Channel) (user : Text)
    → same_name ch.name the_void ≡ true
    → ban_user true ch user ≡ (fail, ch)
unfolding ban_user
ban_user_void ch user void = rw void refl

ban_user-BanOutcome :
    (ch : Channel) (user : Text)
    → AllApart ch.banlist
    → BanOutcome (same_name ch.name the_void) ch user (ban_user true ch user)
ban_user-BanOutcome ch user apart = elim (Bool-cases (same_name ch.name the_void)) [
  | inl void ↦
      subst (λ v. BanOutcome v ch user (ban_user true ch user)) (sym void)
        (ban_user_void ch user void)
  | inr other ↦
      subst (λ v. BanOutcome v ch user (ban_user true ch user)) (sym other)
        (ban_user-IsBanned ch user apart other)
]

-- On a ban list without repetitions `channel_ban_user` fails and changes nothing on THE VOID; on
-- any other channel it succeeds, memory given, and then exactly the spellings of the name are
-- banned besides those that were. `channel_unban_user` succeeds exactly if the name is banned in
-- some spelling; then no spelling of it is banned, and every other name is as before. Neither
-- leaves a name on the list twice.
pub ban_user-unban_user :
    (ch : Channel) (user : Text)
    → AllApart ch.banlist
    → BanOutcome (same_name ch.name the_void) ch user (ban_user true ch user)
      × (let r = unban_user ch user in
          (r.0 ≡ (if listed ch.banlist user then ok else fail))
          × IsLifted ch.banlist user r.1.banlist)
ban_user-unban_user ch user apart =
    (ban_user-BanOutcome ch user apart, unban_user-IsLifted ch user apart)
