-- ===== src/Lib.antt =====
-- bnetd, a server for the clients of Battle.net: a model of its parts and what is proved of them.
--
-- The program is in src/: the game and chat server (src/bnetd), the realm servers (src/d2cs,
-- src/d2dbs) and what they share (src/common, src/compat). A client's packets, whose fields are
-- those of src/common/bn_type.c, drive the handlers of src/bnetd. These move the client's connection
-- between chat channels and games, which live in process-wide lists. Messages go back through a
-- queue for each connection. When the last player leaves a game, its results are entered into the
-- accounts.
--
-- Channel: src/bnetd/channel.c, one chat channel and what joining, leaving, talking, banning and
-- operators do to it. The members are a list, newest first, as in `memberlist`; a connection is a
-- number. What other files keep of a connection (its channel, the operator's flag, its messages) is
-- the record World, which the operations take and give back; what they only ask (accounts, ignored
-- users) is the record Users. Channel.Operator is channel_choose_operator and
-- channel_set_next_operator, Channel.Members channel_add_connection and channel_del_connection,
-- Channel.Message channel_message_send and channel_update_flags, Channel.Bans the ban list.
--
-- Lobby: the list of channels, conn_set_channel of src/bnetd/connection.c and the commands of
-- src/bnetd/command.c that act on channels. A channel's pointer is its id; a lookup of an id that no
-- channel of the list has stands for the use of a dangling pointer, and then the operation has no
-- result. Lobby is channel_create, channel_destroy and the lookups, Lobby.Moves conn_set_channel,
-- whose calls of game_del_player are kept in a list, Lobby.Commands the commands, of which
-- Lobby.Play runs a sequence. The message of the day is left out.
--
-- Timers: src/bnetd/timer.c and the callbacks it is used with. Timers.Uses is what sets and drops
-- timers in src/bnetd/connection.c, src/bnetd/command.c, src/bnetd/handle_irc.c and
-- src/bnetd/server.c, and Timers.Steps the life of connections as steps. The calls of callbacks and
-- what they send are kept in lists.
--
-- Game: src/bnetd/game.c. The parallel arrays of a game are one list of slots. Game.Players is
-- game_add_player, game_del_player and game_choose_host; Game.Results is game_check_result,
-- game_set_result and game_get_result; Game.Report is game_report as far as it changes the game and
-- the accounts, whose changes are a list of the calls made; Game.Games is the list of games with
-- game_create, game_destroy, the lookups and gamelist_check_voidgame, which goes over the list by
-- position and marks elements on its way (Game.Sweep).
--
-- Account: src/bnetd/account.c and src/bnetd/account_wrap.c, the attributes of accounts. An
-- account's attributes are a list, newest first, as in `attrs`; a disk gives the bytes of a file by
-- its name. Account.File is account_load_attrs and account_save, with file_get_line of
-- src/common/util.c; Account.Numbers account_get_strattr, account_set_strattr and the access by
-- numbers; Account.Record the counters, ratings and ranks, and Account.Record.Games applies to an
-- account the calls that Game.Report lists for it; Account.Characters the closed characters of a
-- realm. The list of accounts and the list of a ladder are left out.
--
-- Packets: src/common/queue.c and src/common/packet.c, the queues and the counts of references
-- first. A queue is a list; what the code at work holds of packets is a list as well.
-- Packets.Contents is what is in a packet: its size, and the strings and data that are appended and
-- read.
--
-- CharLock: src/d2dbs/charlock.c, the characters in use and the game servers that use them. The two
-- tables of chains hold addresses of locks on a heap, and reading a lock that was freed gives no
-- result. CharLock.Refinement runs requests; `malloc` is a parameter.
--
-- Elems: src/common/list.c, the lists that the components above are kept in, as elements on a heap
-- whose addresses are numbers. Elems is list_prepend_data, list_append_data, list_remove_elem and
-- list_purge. Channel and Game use plain lists in their place.
--
-- Wire: src/common/bn_type.c, numbers and tags as bytes in both orders.
--
-- Util: src/common/util.c and src/compat/strcasecmp.c. Util.Case is comparison up to case,
-- Util.Escape escape_chars and unescape_chars, Util.FileName escape_fs_chars, Util.Number
-- str_to_uint and str_to_ushort, Util.Duration seconds_to_timestr, Util.Print the digits of a
-- number.
--
-- Prelude: what the modules share: tests on numbers, lists measured by native numbers, signed
-- integers, and strings as lists of bytes without their NUL.
--
-- Numbers and bounds. Fields of a width wrap around where the source can make them (`u32` for the
-- member count). The number of players in a game is bounded by memory and not reduced; the counters
-- of the channels and of the games that were created are ints, and runs in which they stay below
-- 2 ^ 31 are considered. Loops are
-- recursion on the list they go over, except four that run on fuel: that of unescape_chars, which is
-- given the length of its input, since each round takes at least one byte, that of list_purge, which
-- takes one round for each element and one more, that over the lines of an account file, each of
-- which takes a byte at least, and the digits of a number of 64 bits, of which there are 20 at most.
--
-- The build is the default one, without WITH_BITS. Allocations that the source tests are an argument
-- `mem` where their failure matters. Checks for NULL arguments are left out, and so are log
-- messages, sockets, the report file of a game, and the floating point ratings of the ladder.
pub mod Prelude
pub mod Account
pub mod Channel
pub mod CharLock
pub mod Elems
pub mod Game
pub mod Lobby
pub mod Packets
pub mod Timers
pub mod Util
pub mod Wire
