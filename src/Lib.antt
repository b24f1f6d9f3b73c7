-- ===== src/Lib.antt =====
-- The multiplayer service of OoTMM: a game sends what its player finds to a client, the clients send
-- it to a server, and the server gives it to all the clients of a session in one order.
--
-- The parts, and the files that model them:
-- Prelude: Boolean tests on numbers, lists measured by native numbers, and `Result`, what a Go call
--   ends in: a value, an error or a run-time panic.
-- Bytes: byte slices and arrays as the code uses them, with the panic of an index out of range;
--   Bytes/Words and Bytes/Int16 are encoding/binary and the conversions of int16.
-- File: os.File, a content and a position, with an outcome for each of the coming calls; a failed
--   write may have written some of its bytes. Here the behaviour is that of the operating system, and
--   is an assumption.
-- Wal: the write-ahead log. Wal/Entry and Wal/Key are shared/wal/types.go, serialize.go and key.go;
--   Wal/Log is `WAL` of shared/wal/wal.go with Append, Get and Close, Wal/Log/Load is OpenWAL with its
--   loop, Wal/Stream is `WALStream` with Next as a relation of steps.
-- Protocol: Protocol/Packet is shared/protocol/packet.go and opcodes.go, Protocol/Frame is SendRaw and
--   RecvRaw of io.go and the loops that call RecvRaw.
-- Client: Client/Ipc is client/internal/ipc/msg.go, the messages to and from the game, and
--   Client/Ipc/Unix the framing of unixsock.go; Client/SendQueue is
--   client/internal/game/send_queue.go, the entries that the server has not acknowledged;
--   Client/Positions is position_system.go, where the other players are; Client/Game is the handlers
--   of the game's messages in session.go: handleMsg, handleWalIn and sendGameWal, and Client/Resend a
--   round of handleSendQueue; Client/Uplink is the handshake of uplink.go and handleUplinkPacket of
--   session.go, and Client/Uplink/Pumps the goroutines of a connection with their channels of 16
--   packets; Client/Info is ExtractGameInfo of info.go; Client/Run is hello and poll of
--   client/internal/app/app.go and Run, handleMsgIn and handleMsgOut of session.go; Client/Daemon is
--   the subscriptions and the messages of client/internal/daemon, and Client/Daemon/Registry its map of
--   clients with the watchdog of daemon.go and the routes of http.go; Client/Ipc/Project64 is the pipes
--   of project64_windows.go.
-- Server: Server/Player is handlePacket of server/internal/session/session.go, Server/Join is what
--   handleClient, Join and handleWalStream do for a player: the hello, and the feeding of the log;
--   Server/App is the counting of the sessions in server/internal/app/app.go; Server/Events is the
--   position events of session.go, and Server/Events/Nats the event sinks of server/internal/events.
-- World: a server's log, a client and the connection between them. Its steps are the handlers of both
--   sides: a packet is received (handlePackets of the server) or delivered (handlePackets of the
--   client), the log is fed, the game sends a message, another client's entry comes in, the client
--   connects anew with empty queues, and the connection breaks. What a side sends besides the log and
--   its acknowledgements is any packet; so a packet that the client drops, repeats or sends late is a
--   case of the steps. World/Flight says what is on its way, World/Consistent is the invariant,
--   World/Feeding, World/Delivery and World/Receiving are the steps that keep it, World/Board the
--   specification; World/Flush is a round of handleSendQueue with what both sides make of it.
-- Room: a session of the server with all of its players, in session.go: Join, the four goroutines of
--   each player with their channels of 64 packets, BroadcastExcept and Send, as steps of the players in
--   any order. Room/Feeding and Room/Turns are what a player has been sent of the log, Room/Seats what
--   else holds of a player and Room/Writing what its handleMsgOut does to it, Room/Invariant the steps
--   that keep it, Room/Agreement what the players have in common, Room/Placed and Room/Positions whose
--   positions they are sent.
--
-- State is passed explicitly. An operation is a function from the state to its result and the new
-- state; what it sends is part of the result. A Go map is an association list, whose order stands for
-- one of the orders that Go may take. A mutex makes an operation one step; where goroutines interleave
-- between such steps, as in WALStream.Next, the clients of the daemon, the NATS sink, the uplink, Room
-- and World, there is a relation of steps.
--
-- Loops that read until the end of a file or a stream run on fuel, and `none` says that it ran out:
-- the loops of OpenWAL, OpenSendQueue and RecvRaw have one round for each byte and one more, and a
-- round takes one byte at least; the loop of handleMsgIn has one round for each message and one more.
-- Numbers are natural numbers, with `% 2 ^ w` where a uint of w bits wraps; an int16 is an integer.
--
-- The libraries for archives and JSON, NATS and the Windows API are parameters of the definitions that
-- call them: a record in Client/Info, functions in Client/Daemon and Server/Events/Nats, and what the
-- calls answer in Client/Ipc/Project64. Bytes/Hex is encoding/hex.
--
-- Not modelled: sockets, timers and deadlines, the listeners and the websockets of the daemon, the
-- listing of pipes and sockets, the names of the data directories, the configuration and the loggers, which are I/O around the parts above;
-- what a game tells the daemon; the timer of handleSendQueue, whose sends are steps of World; the texts
-- of errors, of which `Error` keeps only what they tell apart.
pub mod Prelude
pub mod Bytes
pub mod File
pub mod Wal
pub mod Protocol
pub mod Client
pub mod Server
pub mod World
pub mod Room
