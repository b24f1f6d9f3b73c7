-- ===== src/Server/Player.antt =====
-- server/internal/session/session.go: what the server does with the packets of a player. The loggers
-- are left out; the events are in Server/Events.
pub mod Acks
pub mod Safety
use multiplayer.Prelude.{List, Result, [], err, if◌then◌else◌, ok, panic, ◌==◌, ◌∷◌}
use multiplayer.Protocol.Packet.{
  Packet, ClientPosition, ServerPosition, op_nop, op_position, op_wal, op_wal_ack,
  parse_client_position, serialize_server_position,
}
use multiplayer.Protocol.Packet
use multiplayer.Wal.Entry.{WalEntry, parse}
use multiplayer.Bytes.{bytes, ByteArray}
use multiplayer.Wal.Log.{append, Wal}
use multiplayer.Wal.Key.{dedup_key}

-- What a handler gives to the connections: to its own player, or to all other players of the session.
pub data Sent : Type 0 where
  to_player : Packet → Sent
  to_others : Packet → Sent

-- The fields ID and Name of type Player.
pub record Player : Type 0 where
  pub id : ByteArray 16
  pub name : ByteArray 8

abbrev pub Handled : Type 0
Handled = Result (List Sent) × Wal

unfoldable pub acknowledge : Result (ByteArray 16) → Wal → Handled
acknowledge (ok k) w =
    (ok (to_player (record { op = Packet.op_wal_ack; content = bytes 16 k }) ∷ []), w)
acknowledge (err e) w = (err e, w)
acknowledge panic w = (panic, w)

unfoldable pub after_append : WalEntry → Result (Unit {0}) × Wal → Handled
unfolding acknowledge
after_append entry (ok _, w) = acknowledge (dedup_key entry) w
after_append entry (err e, w) = (err e, w)
after_append entry (panic, w) = (panic, w)

unfoldable pub on_entry : Result WalEntry → Wal → Handled
unfolding after_append
on_entry (ok entry) w = after_append entry (append entry w)
on_entry (err e) w = (err e, w)
on_entry panic w = (panic, w)

-- func (p *Player) handlePositionUpdate, without the event sink
unfoldable pub handle_position_update : Player → ClientPosition → List Sent
handle_position_update p pos =
    let body : ServerPosition = record {
      id = p.id;
      name = p.name;
      key = pos.key;
      x = pos.x;
      y = pos.y;
      z = pos.z;
    } in
    to_others (record { op = Packet.op_position; content = serialize_server_position body }) ∷ []

unfoldable pub on_position : Player → Result ClientPosition → Wal → Handled
unfolding handle_position_update
on_position p (ok pos) w = (ok (handle_position_update p pos), w)
on_position p (err e) w = (err e, w)
on_position p panic w = (panic, w)

-- func (p *Player) handlePacket
unfoldable pub handle_packet : Player → Packet → Wal → Handled
unfolding on_entry on_position
handle_packet p pkt w =
    if pkt.op == Packet.op_nop
    then (ok [], w)
    else if pkt.op == Packet.op_wal
    then on_entry (parse pkt.content) w
    else if pkt.op == Packet.op_position
    then on_position p (parse_client_position pkt.content) w
    else (ok [], w)
