-- ===== src/Channel/Tests.antt =====
-- The theorems on channels at a small chat room, and runs of the operations in it.
use bnetd.Prelude.{
  ℕ, ◌≡◌, refl, Bool, true, false, ◌&&◌, ◌||◌, not, [], ◌∷◌, ◌++◌, Option, none, some, ◌==◌,
  if◌then◌else◌, arith,
}
use bnetd.Prelude.Text.{codes}
use bnetd.Util.Case.{same_name}
use bnetd.Channel.{
  Channel, World, Users, Rc, ok, fail, update, MessageType, talk, part, is_conn, Sent,
}
use bnetd.Channel.Operator.{set_next_operator}
use bnetd.Channel.Members.{del_connection, add_connection, returned}
use bnetd.Channel.Message.{message_send, wants_audience}
use bnetd.Channel.Bans.{ban_user, unban_user, listed, check_banning, the_void}
use bnetd.Channel.Invariant.{IsValid}
use bnetd.Channel.Leave.{IsDeparture, del_connection-IsDeparture}
use bnetd.Channel.Join.{IsReady, IsArrival, add_connection-IsArrival}
use bnetd.Channel.Designation.{add_connection_stranded}
use bnetd.Channel.Audience.{deliveries, heard_by, unheard, message_send-deliveries}
use bnetd.Channel.Exclusion.{BanOutcome, IsLifted, ban_user-unban_user}

-- Everybody has an account and is heard by all; 1 and 4 may be operators.
abbrev people : Users
people = record {
  has_account = λ c. true;
  auth_operator = λ c name. c == 1 || c == 4;
  auth_operator_any = λ c. false;
  log_notice = [];
  is_bot = λ c. false;
  conn_match = λ c name. false;
  ignoring = λ c me. c == 3;
  delivers = λ type me c. true;
}

-- Three members, the newest first.
abbrev room : Option ℕ → Channel
room opr = record {
  id = 7;
  name = codes "Lobby";
  shortname = none;
  country = none;
  realmname = none;
  permanent = false;
  allowbots = true;
  allowopers = true;
  public = false;
  system = false;
  maxmembers = none;
  currmembers = 3;
  clienttag = none;
  memberlist = 3 ∷ 2 ∷ 1 ∷ [];
  banlist = codes "Bob" ∷ [];
  opr = opr;
  next_opr = none;
  log = false;
}

abbrev night : (ℕ → Bool) → World
night gavel = record { home = λ c. some 7; gavel = gavel; out = [] }

abbrev gavel_of_2 : ℕ → Bool
gavel_of_2 = update (λ c. false) 2 true

ruled-IsValid : IsValid (room (some 2)) (night gavel_of_2)
ruled-IsValid = record {
  orderly = record {
    counted = refl;
    distinct = (refl, (refl, (refl, tt)));
    next_member = λ n e. ground arith;
    next_not_opr = λ n e. ground arith;
    gavels = λ m h. ground arith;
    homes = λ m h. refl;
  };
  opr_member = λ o e. ground arith;
}

unruled-IsValid : IsValid (room none) (night (λ c. false))
unruled-IsValid = record {
  orderly = record {
    counted = refl;
    distinct = (refl, (refl, (refl, tt)));
    next_member = λ n e. ground arith;
    next_not_opr = λ n e. ground arith;
    gavels = λ m h. refl;
    homes = λ m h. refl;
  };
  opr_member = λ o e. ground arith;
}

del_connection-IsDeparture_example :
    (ch' : Channel) × (gone : Bool) × (w' : World) × (del_connection people
        (room (some 2))
        2
        (night gavel_of_2)
      ≡ returned ok ch' gone w')
    × IsDeparture people (room (some 2)) 2 ch' gone w'
del_connection-IsDeparture_example = del_connection-IsDeparture people 2 ruled-IsValid refl

four-IsReady : IsReady (room none) 4 (night (λ c. false))
four-IsReady = record {
  valid = unruled-IsValid;
  absent = refl;
  home = refl;
  no_gavel = refl;
  undesignated = λ e. refl;
}

not_banned : check_banning people (room none) 4 ≡ false
unfolding check_banning bnetd.Channel.Bans.some_match
not_banned = refl

add_connection-IsArrival_example :
    (ch' : Channel) × (w' : World) × (add_connection people true (room none) 4 (night (λ c. false))
      ≡ (ok, ch', w'))
    × IsArrival people (room none) 4 ch' w'
add_connection-IsArrival_example = add_connection-IsArrival people four-IsReady not_banned

add_connection_stranded_example :
    let d = record (room none) { next_opr = some 3 } in
    (ch' : Channel) × (w' : World) × (set_next_operator (room none) (some 3) ≡ (ok, d))
    × (add_connection people true d 4 (night (λ c. false)) ≡ (ok, ch', w'))
    × (ch'.opr ≡ some 3)
    × (w'.gavel 3 ≡ false)
    × ¬ IsValid ch' w'
add_connection_stranded_example =
    add_connection_stranded people 3 4 unruled-IsValid refl refl refl not_banned

message_send-deliveries_example :
    let ms = (room none).memberlist in
    message_send people talk 2 (codes "hi") (room none) (night (λ c. false))
    ≡ record (night (λ c. false)) {
      out =
          []
          ++ (deliveries people talk 2 (codes "hi") ms
              ++ (if not (heard_by people talk 2 (codes "hi") ms) && wants_audience talk
                  then unheard people talk 2 (codes "hi") ∷ []
                  else []));
    }
message_send-deliveries_example =
    message_send-deliveries people talk 2 (codes "hi") (room none) (night (λ c. false))

ban_user-unban_user_example :
    BanOutcome
      (same_name (room none).name the_void)
      (room none)
      (codes "Eve")
      (ban_user true (room none) (codes "Eve"))
    × (let r = unban_user (room none) (codes "Eve") in
        (r.0 ≡ (if listed (room none).banlist (codes "Eve") then ok else fail))
        × IsLifted (room none).banlist (codes "Eve") r.1.banlist)
ban_user-unban_user_example =
    ban_user-unban_user (room none) (codes "Eve") (unfold listed in (refl, tt))
