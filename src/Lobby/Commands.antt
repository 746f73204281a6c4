-- ===== src/Lobby/Commands.antt =====
-- The commands on channels of src/bnetd/command.c, and CLIENT_LEAVECHANNEL of
-- src/bnetd/handle_bnet.c. `text` is the line that the connection sent; the wording of replies with
-- names in them is kept.
use bnetd.Prelude.{
  ℕ, Bool, true, false, ◌||◌, not, [], ◌∷◌, ◌++◌, Option, none, some, ◌==◌, if◌then◌else◌, ◌>>=◌,
  take,
}
use bnetd.Prelude.Text.{Text, codes}
use bnetd.Channel.{Channel, Rc, ok, fail, MessageType, info, error, is_conn, send}
use bnetd.Channel.Operator.{choose_operator, set_next_operator}
use bnetd.Channel.Message.{message_send}
use bnetd.Channel.Bans.{ban_user, unban_user, the_void}
use bnetd.Lobby.{Server, Env, find_channel_bychannelid, put_room, is_nothing}
use bnetd.Lobby.Moves.{set_channel}

-- `for (; text[i]!=' ' && text[i]!='\0'; i++);` and `for (; text[i]==' '; i++);`
unfoldable pub skip_word : Text → Text
skip_word [] = []
skip_word (c ∷ s) = let rest = skip_word s in if c == b' ' then c ∷ s else rest

unfoldable pub skip_spaces : Text → Text
skip_spaces [] = []
skip_spaces (c ∷ s) = let rest = skip_spaces s in if c == b' ' then rest else c ∷ s

unfoldable pub arguments : Text → Text
arguments text = skip_spaces (skip_word text)

-- The word that is copied to `dest`, of which USER_NAME_MAX-1 characters fit.
unfoldable pub first_word : Text → Text
first_word [] = []
first_word (c ∷ s) = let rest = first_word s in if c == b' ' then [] else c ∷ rest

unfoldable pub dest : Text → Text
dest args = take 15 (first_word args)

-- `message_send_text(c,type,c,text)`
unfoldable pub say : MessageType → ℕ → Text → Server → Server
say type c text s = record s {
  world = send (record { to = c; kind = type; from = c; text = text }) s.world;
}

abbrev pub may_rule : Env → ℕ → Channel → Bool
may_rule env c ch = env.admin c || is_conn ch.opr c

-- What a command does in the channel of the connection, or where there is none.
unfoldable pub in_channel : ℕ → Server → (Channel → Option Server) → Option Server
in_channel c s act = elim (s.world.home c) [
  | none ↦ some (say error c (codes "This command can only be used inside a channel.") s)
  | some id ↦ do ch ← find_channel_bychannelid s.rooms id; act ch
]

-- `conn_set_channel`, and THE VOID if that fails.
unfoldable pub set_channel_or_void : Env → ℕ → Text → Server → Option Server
set_channel_or_void env c name s = do
  r ← set_channel env c (some name) s
  elim r.0 [ ok ↦ some r.1 | fail ↦ do r' ← set_channel env c (some the_void) r.1; some r'.1 ]

-- `/channel` and `/join`
unfoldable pub join_command : Env → ℕ → Text → Server → Option Server
join_command env c text s =
    if is_nothing (arguments text)
    then some (say error c (codes "Please specify a channel.") s)
    else set_channel_or_void env c (arguments text) s

unfoldable pub rejoin_command : Env → ℕ → Server → Option Server
rejoin_command env c s = elim (s.world.home c) [
  | none ↦ some (say error c (codes "You are not in a channel.") s)
  | some id ↦ do
    ch ← find_channel_bychannelid s.rooms id
    if env.mem then set_channel_or_void env c ch.name s else some s
]

-- What is done about the outcome of `channel_set_next_operator`.
unfoldable pub designated : Env → ℕ → ℕ → Rc → Channel → Server → Server
designated env c noc fail ch' s = say error c (codes "Unable to designate that user.") s
designated env c noc ok ch' s =
    say info c (env.username noc ++ codes " will be the new operator when you resign.")
      (record s { rooms = put_room ch' s.rooms })

unfoldable pub designate_in : Env → ℕ → Text → Server → Channel → Server
designate_in env c name s ch =
    if not (may_rule env c ch)
    then say error c (codes "You are not a channel operator.") s
    else elim (env.find_connection name) [
      | none ↦ say error c (codes "That user is not logged in.") s
      | some noc ↦
          if not (is_conn (s.world.home noc) ch.id)
          then say error c (codes "That user is not in this channel.") s
          else (let (rc, ch') = set_next_operator ch (some noc) in designated env c noc rc ch' s)
    ]

unfoldable pub designate_command : Env → ℕ → Text → Server → Option Server
designate_command env c text s =
    if is_nothing (arguments text)
    then some (say info c (codes "Who do you want to designate?") s)
    else in_channel c s (λ ch. some (designate_in env c (arguments text) s ch))

-- What is told of the outcome of `channel_choose_operator`.
unfoldable pub resigned : ℕ → Rc → Server → Server
resigned c fail s = say error c (codes "You are unable to resign.") s
resigned c ok s = say info c (codes "You are no longer the operator.") s

unfoldable pub resign_in : Env → ℕ → Server → Channel → Server
resign_in env c s ch =
    if not (is_conn ch.opr c)
    then say error c (codes "This command is reserved for channel operators.") s
    else (let (rc, ch', w) = choose_operator env.users ch none s.world in
        resigned c rc (record s { rooms = put_room ch' s.rooms; world = w }))

unfoldable pub resign_command : Env → ℕ → Server → Option Server
resign_command env c s = in_channel c s (λ ch. some (resign_in env c s ch))

-- " has been ... by ..." with the reason, if there is one.
unfoldable pub notice : Text → Text → Text → Text → Text
notice who what by reason =
    take 20 who
    ++ (what
        ++ (take 20 by
            ++ (if is_nothing reason then codes "." else codes " (" ++ (reason ++ codes ")."))))

unfoldable pub reason : Text → Text
reason args = skip_spaces (skip_word args)

unfoldable pub tell : Env → ℕ → Text → Channel → Server → Server
tell env c text ch s = record s { world = message_send env.users info c text ch s.world }

unfoldable pub kick_in : Env → ℕ → Text → Server → Channel → Option Server
kick_in env c args s ch =
    if not (may_rule env c ch)
    then some (say error c (codes "You are not a channel operator.") s)
    else elim (env.find_connection (dest args)) [
      | none ↦ some (say error c (codes "That user is not logged in.") s)
      | some kuc ↦
          if not (is_conn (s.world.home kuc) ch.id)
          then some (say error c (codes "That user is not in this channel.") s)
          else if env.admin kuc
          then some (say error c (codes "You cannot kick administrators.") s)
          else (do
            r ← set_channel env kuc (some the_void) (
                tell env c
                  (notice (env.username kuc) (codes " has been kicked by ") (env.username c)
                    (reason args))
                  ch s)
            some r.1)
    ]

unfoldable pub kick_command : Env → ℕ → Text → Server → Option Server
kick_command env c text s =
    if is_nothing (dest (arguments text))
    then some (say info c (codes "Who do you want to kick off the channel?") s)
    else in_channel c s (kick_in env c (arguments text) s)

-- What is told of a ban, whose outcome is `rc`.
unfoldable pub announce_ban : Env → ℕ → Text → Channel → Rc → Server → Server
announce_ban env c args ch fail s =
    say error c (codes "Unable to ban " ++ (take 20 (dest args) ++ codes ".")) s
announce_ban env c args ch ok s =
    tell env c (notice (dest args) (codes " has been banned by ") (env.username c) (reason args)) ch
      s

-- A banned user that is in the channel is moved.
unfoldable pub expel : Env → Text → ℕ → Server → Option Server
expel env name id s = elim (env.find_connection name) [
  | none ↦ some s
  | some buc ↦
      if is_conn (s.world.home buc) id
      then (do r ← set_channel env buc (some the_void) s; some r.1)
      else some s
]

unfoldable pub ban_known : Env → ℕ → Text → Server → Channel → Option Server
ban_known env c args s ch =
    let (rc, ch') = ban_user env.mem ch (dest args) in
    expel env (dest args) ch.id
      (announce_ban env c args ch' rc (record s { rooms = put_room ch' s.rooms }))

unfoldable pub ban_in : Env → ℕ → Text → Server → Channel → Option Server
ban_in env c args s ch =
    if not (may_rule env c ch)
    then some (say error c (codes "You are not a channel operator.") s)
    else elim (env.admin_account (dest args)) [
      | none ↦
          ban_known env c args
            (say info c (codes "That account doesn't currently exist, banning anyway.") s) ch
      | some true ↦ some (say error c (codes "You cannot ban administrators.") s)
      | some false ↦ ban_known env c args s ch
    ]

unfoldable pub ban_command : Env → ℕ → Text → Server → Option Server
ban_command env c text s =
    if is_nothing (dest (arguments text))
    then some (say info c (codes "Who do you want to ban from the channel?") s)
    else in_channel c s (ban_in env c (arguments text) s)

-- What is told of the outcome of `channel_unban_user`.
unfoldable pub unbanned : ℕ → Text → Rc → Channel → Server → Server
unbanned c args fail ch' s = say error c (codes "That user is not banned.") s
unbanned c args ok ch' s =
    say info c (args ++ codes " is no longer banned from this channel.")
      (record s { rooms = put_room ch' s.rooms })

unfoldable pub unban_in : Env → ℕ → Text → Server → Channel → Server
unban_in env c args s ch =
    if not (may_rule env c ch)
    then say error c (codes "You are not a channel operator.") s
    else (let (rc, ch') = unban_user ch args in unbanned c args rc ch' s)

unfoldable pub unban_command : Env → ℕ → Text → Server → Option Server
unban_command env c text s =
    if is_nothing (arguments text)
    then some (say info c (codes "Who do you want to unban from the channel?") s)
    else in_channel c s (λ ch. some (unban_in env c (arguments text) s ch))

-- What a client can have done to channels, by the connection that it is.
pub data Command : Type 0 where
  join designate kick ban unban : Text → Command
  rejoin resign depart : Command

unfoldable pub run : Env → ℕ → Command → Server → Option Server
run env c (join text) s = join_command env c text s
run env c (designate text) s = designate_command env c text s
run env c (kick text) s = kick_command env c text s
run env c (ban text) s = ban_command env c text s
run env c (unban text) s = unban_command env c text s
run env c rejoin s = rejoin_command env c s
run env c resign s = resign_command env c s
run env c depart s = do r ← set_channel env c none s; some r.1
