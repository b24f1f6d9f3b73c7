-- ===== src/Server/Examples.antt =====
-- The theorems of the server on concrete packets and sessions.
use multiplayer.Prelude.{List, [], none, ok, panic, refl, some, ◌↔◌, ◌∷◌, ◌≡◌, ◌≢◌}
use multiplayer.Protocol.Packet.{Packet}
use multiplayer.Protocol.Packet
use multiplayer.Server.App.Counting.{
  Reach, started, entered, Counted, clients_of, release_session-Counted,
}
use multiplayer.Server.App.{Sessions, Session, acquire_session, find_session, release_session}
use multiplayer.Bytes.{to_array, ByteArray}
use multiplayer.File.{opened}
use multiplayer.Server.Player.{to_player, Sent, handle_packet, Player}
use multiplayer.Wal.Log.{Wal, append}
use multiplayer.Wal.Log.Examples.{
  item_bytes-IsByte, empty_wal-IsWal, dedup_key-some_item, item_key, append-some_item,
  parse-item_bytes, empty_wal, item_bytes, quiet_wal, open_empty, some_item,
}
use multiplayer.Server.Player.Acks.{ack_packet}
use multiplayer.Wal.Log.Invariant.{IsWal}
use multiplayer.Server.Player.Safety.{handle_packet-IsWal}

abbrev pub player : Player
player = record { id = to_array 16 (7 ∷ 8 ∷ []); name = to_array 8 (65 ∷ []) }

abbrev pub wal_packet : Packet
wal_packet = record { op = Packet.op_wal; content = item_bytes }

handle_packet-IsWal_example :
    ((handle_packet player wal_packet empty_wal).0 ≢ panic)
    × IsWal (handle_packet player wal_packet empty_wal).1
handle_packet-IsWal_example =
    handle_packet-IsWal player wal_packet empty_wal empty_wal-IsWal refl item_bytes-IsByte

abbrev pub handled : Wal
handled = (append some_item quiet_wal).1

abbrev pub acks : List Sent
acks = to_player (ack_packet item_key) ∷ []

pub item_is_handled : handle_packet player wal_packet quiet_wal ≡ (ok acks, handled)
unfolding handle_packet
item_is_handled = rw parse-item_bytes (rw append-some_item (rw dedup_key-some_item refl))

abbrev session_id : ByteArray 16
session_id = to_array 16 (1 ∷ [])

abbrev secret : ByteArray 8
secret = to_array 8 (4 ∷ [])

abbrev new_session : Session
new_session = record { secret = secret; wal = quiet_wal }

abbrev one_session : Sessions
one_session = (session_id, record { session = new_session; count = 1 }) ∷ []

one_client :
    acquire_session session_id secret (ok (opened [] [])) [] ≡ some (ok new_session, one_session)
unfolding acquire_session find_session
one_client = rw open_empty refl

one_session-Reach : Reach one_session (session_id ∷ [])
one_session-Reach =
    entered [] one_session [] session_id secret (ok (opened [] [])) new_session started one_client

release_session-Counted_example :
    Counted (find_session session_id one_session) (clients_of session_id (session_id ∷ []))
    × (((release_session session_id one_session).0 ≡ none)
        ↔ (clients_of session_id (session_id ∷ []) ≢ 1))
release_session-Counted_example =
    release_session-Counted one_session (session_id ∷ []) session_id one_session-Reach
