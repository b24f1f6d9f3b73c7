-- ===== src/Client/Uplink.antt =====
-- client/internal/game/uplink.go and `handleUplinkPacket` of session.go: the client's connection to the
-- server. The loggers are left out; the channels are in Client/Uplink/Pumps.
pub mod Safety
pub mod Effects
pub mod Pumps
use multiplayer.Prelude.{
  List, Result, [], bad_length, bad_magic, bad_op, bad_version, err, if◌then◌else◌, length, not, ok,
  panic, too_short, ℕ, ◌==◌, ◌>>=◌, ◌>>◌, ◌∷◌,
}
use multiplayer.Protocol.Packet.{
  Packet, ClientHello, ServerWal, ServerPosition, op_hello, op_nop, op_position, op_wal, op_wal_ack,
  parse_server_position, parse_server_wal, serialize_client_hello,
}
use multiplayer.Protocol.Packet
use multiplayer.Wal.Entry.{WalEntry}
use multiplayer.Client.Game.{Session, to_game, Handled}
use multiplayer.Client.SendQueue.{ack}
use multiplayer.Client.Positions.{on_server_pos}
use multiplayer.Client.Info.{Info}
use multiplayer.Bytes.{shorter, to_array, array_eq, ByteArray, slice}
use multiplayer.Wal.Log.{append, Wal}
use multiplayer.Bytes.Words.{le_uint32}
use multiplayer.Wal.Key.{dedup_key}

-- "OoTMM\x7f\x01\x00"
abbrev pub magic : ByteArray 8
magic = to_array 8 (79 ∷ 111 ∷ 84 ∷ 77 ∷ 77 ∷ 127 ∷ 1 ∷ 0 ∷ [])

abbrev pub version : ℕ
version = 65536

-- The packet that handshake sends. Info.WorldID is `world_id` of the session.
unfoldable pub hello_packet : Info → Session → Packet
hello_packet info s =
    let hello : ClientHello = record {
      magic = magic;
      version = version;
      session_id = info.session_id;
      session_secret = info.session_secret;
      player_id = s.player_id;
      player_name = s.player_name;
      world_id = s.world_id;
      wal_index = s.wal.count;
    } in
    record { op = Packet.op_hello; content = serialize_client_hello hello }

check_magic : List ℕ → Result (Unit {0})
check_magic b = if array_eq 8 (to_array 8 b) magic then ok tt else err bad_magic

check_version : ℕ → Result (Unit {0})
check_version v = if v == version then ok tt else err bad_version

-- What handshake asks of the server's reply.
unfoldable pub check_reply : Packet → Result (Unit {0})
unfolding slice le_uint32 check_magic check_version shorter
check_reply pkt =
    if not (pkt.op == Packet.op_hello)
    then err bad_op
    else if shorter pkt.content 12
    then err too_short
    else do
      check_magic (← slice pkt.content 0 8)
      check_version (← le_uint32 (← slice pkt.content 8 12))

unfoldable pub clear_queue : Result (ByteArray 16) → Session → Handled
clear_queue (ok k) s = (ok [], record s { send_q = ack k s.send_q })
clear_queue (err e) s = (err e, s)
clear_queue panic s = (panic, s)

unfoldable pub after_append : WalEntry → Session → Result (Unit {0}) × Wal → Handled
unfolding clear_queue
after_append e s (ok _, w) = clear_queue (dedup_key e) (record s { wal = w })
after_append e s (err x, w) = (err x, record s { wal = w })
after_append e s (panic, w) = (panic, record s { wal = w })

on_server_wal : Result ServerWal → Session → Handled
unfolding after_append
on_server_wal (ok body) s = after_append body.entry s (append body.entry s.wal)
on_server_wal (err e) s = (err e, s)
on_server_wal panic s = (panic, s)

on_wal_ack : List ℕ → Session → Handled
on_wal_ack d s =
    if not (length d == 16)
    then (err bad_length, s)
    else (ok [], record s { send_q = ack (to_array 16 d) s.send_q })

on_server_position : Result ServerPosition → Session → Handled
on_server_position (ok p) s =
    let (m, t) = on_server_pos p s.positions in (ok (to_game m ∷ []), record s { positions = t })
on_server_position (err e) s = (err e, s)
on_server_position panic s = (panic, s)

-- func (s *Session) handleUplinkPacket
unfoldable pub handle_uplink_packet : Packet → Session → Handled
unfolding on_server_wal on_wal_ack on_server_position
handle_uplink_packet pkt s =
    if pkt.op == Packet.op_nop
    then (ok [], s)
    else if pkt.op == Packet.op_wal
    then on_server_wal (parse_server_wal pkt.content) s
    else if pkt.op == Packet.op_wal_ack
    then on_wal_ack pkt.content s
    else if pkt.op == Packet.op_position
    then on_server_position (parse_server_position pkt.content) s
    else (ok [], s)
