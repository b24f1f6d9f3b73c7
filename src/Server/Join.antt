-- ===== src/Server/Join.antt =====
-- server/internal/app/app.go and server/internal/session/session.go: how a player joins a session, and
-- how the log is fed to it. The loggers are left out; the channels are in Room.
pub mod Handshake
use multiplayer.Prelude.{
  List, Option, Result, [], bad_op, err, false, if◌then◌else◌, ltb, none, not, ok, panic, some, ℕ,
  ◌==◌, ◌∷◌,
}
use multiplayer.Protocol.Packet.{
  Packet, ClientHello, op_hello, op_wal, parse_client_hello, serialize_server_hello,
  serialize_server_wal,
}
use multiplayer.Protocol.Packet
use multiplayer.Wal.Entry.{WalEntry}
use multiplayer.Wal.Stream.{WalStream, subscribe}
use multiplayer.Bytes.{to_array, index}
use multiplayer.Wal.Log.{get, next_u32, Wal}

-- What handleClient does with the first packet of a client.
unfoldable pub receive_hello : Packet → Result ClientHello
receive_hello pkt =
    if not (pkt.op == Packet.op_hello) then err bad_op else parse_client_hello pkt.content

-- The reply of Join.
unfoldable pub hello_reply : Packet
hello_reply = record {
  op = Packet.op_hello;
  content =
      serialize_server_hello (record {
        magic = to_array 8 (79 ∷ 111 ∷ 84 ∷ 77 ∷ 77 ∷ 127 ∷ 1 ∷ 0 ∷ []);
        version = 65536;
      });
}

-- The state of handleWalStream: its stream, and the player's WalIndex.
pub record Feed : Type 0 where
  pub stream : WalStream
  pub wal_index : ℕ

-- What Join makes for a player.
unfoldable pub start_feed : ClientHello → Feed
start_feed h = record { stream = subscribe false h.wal_index; wal_index = h.wal_index }

unfoldable pub wal_packet : Result (List ℕ) → Result (List Packet)
wal_packet (ok d) = ok (record { op = Packet.op_wal; content = d } ∷ [])
wal_packet (err e) = err e
wal_packet panic = panic

-- A round of handleWalStream, once Next has returned an entry with its index.
unfoldable pub feed_entry : WalEntry → ℕ → Feed → Result (List Packet) × Feed
unfolding wal_packet
feed_entry entry index f = if ltb index f.wal_index then (ok [], f) else (
  wal_packet (serialize_server_wal (record { index = index; entry = entry })),
  record f { wal_index = next_u32 index },
)

-- Next, when the log has the entry at the index of the stream, and the round that it starts.
unfoldable pub feed_next : Option WalEntry → Feed → Option (Result (List Packet) × Feed)
feed_next none f = none
feed_next (some e) f =
    let i = f.stream.index in
    some (feed_entry e i (record f { stream = record f.stream { index = next_u32 i } }))

-- A turn of handleWalStream; `none` says that Next blocks.
unfoldable pub feed : Wal → Feed → Option (Result (List Packet) × Feed)
unfolding feed_next
feed w f = feed_next (get f.stream.index w) f
