-- ===== src/Protocol/Examples.antt =====
-- The theorems of the protocol on concrete packets and bytes.
use multiplayer.Prelude.{[], arith, eof, ok, refl, some, ◌∷◌, ◌≡◌}
use multiplayer.Protocol.Packet.{Packet, ServerWal, serialize_server_wal}
use multiplayer.Wal.Entry.{serialize}
use multiplayer.Protocol.Frame.{send_all, send_raw, recv_loop}
use multiplayer.Bytes.Words.{le32, le16}
use multiplayer.Wal.Log.Examples.{some_item, item_bytes}
use multiplayer.Protocol.Frame.Laws.{recv_loop-send_all}

abbrev server_wal : ServerWal
server_wal = record { index = 12; entry = some_item }

server_wal_bytes : serialize_server_wal server_wal ≡ ok (12 ∷ 0 ∷ 0 ∷ 0 ∷ item_bytes)
unfolding serialize_server_wal serialize le16 le32
server_wal_bytes = refl

abbrev nop : Packet
nop = record { op = 0; content = [] }

abbrev ack : Packet
ack = record { op = 3; content = 7 ∷ 8 ∷ [] }

both_bytes : send_all (ack ∷ nop ∷ []) ≡ ok (2 ∷ 0 ∷ 3 ∷ 7 ∷ 8 ∷ 0 ∷ 0 ∷ 0 ∷ [])
unfolding send_all send_raw le16
both_bytes = refl

recv_loop-send_all_example :
    recv_loop 3 (2 ∷ 0 ∷ 3 ∷ 7 ∷ 8 ∷ 0 ∷ 0 ∷ 0 ∷ []) ≡ some (ack ∷ nop ∷ [], eof)
recv_loop-send_all_example =
    recv_loop-send_all (ack ∷ nop ∷ []) (2 ∷ 0 ∷ 3 ∷ 7 ∷ 8 ∷ 0 ∷ 0 ∷ 0 ∷ []) 3
      (omega arith, (omega arith, tt)) both_bytes (omega arith)
