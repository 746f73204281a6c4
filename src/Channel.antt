-- ===== src/Channel.antt =====
-- src/bnetd/channel.c, built without WITH_BITS: chat channels, their members and operators.
-- A connection is a number (its pointer), and so is a channel (its id, which `channel_create`
-- draws from a counter). NULL is `none` where the code gives it a meaning. The checks for NULL
-- arguments that only log an error are left out: such an argument is always there in the model.
-- Of the channel's log file only whether it is open (`log`) is modelled.
pub mod Operator
pub mod Message
pub mod Bans
pub mod Members
pub mod Choice
pub mod Quiet
pub mod Invariant
pub mod Succession
pub mod Unlink
pub mod Leave
pub mod Join
pub mod Designation
pub mod Audience
pub mod Exclusion
mod Tests
use bnetd.Prelude.{
  ℕ, ◌+◌, ◌≡◌, Bool, true, false, ◌&&◌, List, [], ◌∷◌, ◌++◌, Option, none, some, ◌==◌,
  if◌then◌else◌,
}
use bnetd.Prelude.Text.{Text}

-- `t_message_type`
pub data MessageType : Type 0 where
  adduser join part whisper talk broadcast channel userflags whisperack channelfull
        channeldoesnotexist channelrestricted info error emote uniqueid null :
      MessageType

-- What the code after `channel` in the struct needs of the source; `opr` and `next_opr` are NULL
-- if there is none. `maxmembers` is `none` for -1, which stands for no limit.
pub record Channel : Type 0 where
  pub id : ℕ
  pub name : Text
  pub shortname : Option Text
  pub country : Option Text
  pub realmname : Option Text
  pub permanent : Bool
  pub allowbots : Bool
  pub allowopers : Bool
  pub public : Bool
  pub system : Bool
  pub maxmembers : Option ℕ
  pub currmembers : ℕ
  pub clienttag : Option Text
  pub memberlist : List ℕ
  pub banlist : List Text
  pub opr : Option ℕ
  pub next_opr : Option ℕ
  pub log : Bool

-- One call of `message_send` or `message_send_text`.
pub record Sent : Type 0 where
  pub to : ℕ
  pub kind : MessageType
  pub from : ℕ
  pub text : Text

-- The state of connections that channels read and change: `conn->channel`, whether MF_GAVEL is
-- among `conn->flags`, and the messages sent so far, the oldest first.
pub record World : Type 0 where
  pub home : ℕ → Option ℕ
  pub gavel : ℕ → Bool
  pub out : List Sent

-- What channel.c asks of account.c, connection.c and message.c about a connection.
pub record Users : Type 0 where
  -- `conn_get_account` is not NULL
  pub has_account : ℕ → Bool
  -- `account_get_auth_operator(account,name)==1`
  pub auth_operator : ℕ → Text → Bool
  -- `account_get_auth_operator(account,NULL)==1`
  pub auth_operator_any : ℕ → Bool
  -- `prefs_get_log_notice()`
  pub log_notice : Text
  -- `conn_get_class` is `conn_class_bot`
  pub is_bot : ℕ → Bool
  -- `conn_match(c,name)==1`
  pub conn_match : ℕ → Text → Bool
  -- `conn_check_ignoring(c,conn_get_chatname(me))==1`
  pub ignoring : ℕ → ℕ → Bool
  -- `message_send(message,c)==0`, by the message's type and sender
  pub delivers : MessageType → ℕ → ℕ → Bool

-- The return value of an operation: 0 or -1.
pub data Rc : Type 0 where
  ok fail : Rc

-- Whether a pointer is the given connection, and whether two pointers are equal.
abbrev pub is_conn : Option ℕ → ℕ → Bool
is_conn none c = false
is_conn (some d) c = d == c

abbrev pub same_conn : Option ℕ → Option ℕ → Bool
same_conn none none = true
same_conn none (some d) = false
same_conn (some c) none = false
same_conn (some c) (some d) = c == d

abbrev pub update {ℓ} : {A : Type ℓ} → (ℕ → A) → ℕ → A → ℕ → A
update f i a j = if i == j then a else f j

-- `conn_add_flags(c,MF_GAVEL)` and `conn_del_flags(c,MF_GAVEL)`
unfoldable pub set_gavel : ℕ → Bool → World → World
set_gavel c b w = record w { gavel = update w.gavel c b }

unfoldable pub send : Sent → World → World
send m w = record w { out = w.out ++ m ∷ [] }
