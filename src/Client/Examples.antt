-- ===== src/Client/Examples.antt =====
-- The theorems of the client on concrete messages, entries and positions.
use multiplayer.Client.Game.Queueing.{handle_msg-IsQueued}
use multiplayer.Client.Game.Entries.{IsQueued}
use multiplayer.Client.Ipc.{
  Message, MessageBodyWalIn, WalEvent, WalItem, parse_info_item, parse_position_in,
}
use multiplayer.Prelude.{
  List, [], arith, if◌then◌else◌, leb, length, ltb, ok, panic, refl, ℕ, ◌&&◌, ◌++◌, ◌+◌, ◌↔◌, ◌∷◌,
  ◌≡◌, ◌≢◌, drop, false, take, All,
}
use multiplayer.Protocol.Packet.{ServerPosition, Packet}
use multiplayer.Protocol.Packet
use multiplayer.Client.SendQueue.{SendQueue, ack, add, lookup, put, write_entry}
use multiplayer.Client.SendQueue.Durable
use multiplayer.Client.Game.{
  Session, Output, to_game, to_uplink, wal_ack, dispatch, expect, handle_msg, send_game_wal,
}
use multiplayer.Client.Game.Replies.{numbered, send_game_wal_lem}
use multiplayer.Client.Ipc
use multiplayer.Client.Positions.{PositionSystem, create_position_system, on_server_pos}
use multiplayer.Client.Positions.LocalIds
use multiplayer.Bytes.{to_array, ByteArray, array_eq, bytes, shorter}
use multiplayer.File.{seek_end, sync, write, opened}
use multiplayer.Client.Positions.LocalIds.{local_ids-once, local_ids, occurs, server_pos, Reach}
use multiplayer.Client.Ipc.Parsing.{parse_info_item-panic_iff}
use multiplayer.Bytes.Int16.{negsuc, pos}
use multiplayer.Client.SendQueue.Durable.{added}
use multiplayer.Bytes.Words.{le32, be_uint16}
use multiplayer.Wal.Log.{next_u32}
use multiplayer.Wal.Log.Examples.{
  some_item, item_key, quiet_wal, empty_wal, empty_wal-IsWal, item_bytes, item_bytes-IsByte,
}
use multiplayer.Client.Game.Sequence.{handle_msg-ok}
use multiplayer.Client.Uplink.{handle_uplink_packet}
use multiplayer.Wal.Log.Invariant.{IsWal}
use multiplayer.Client.Uplink.Safety.{handle_uplink_packet-IsWal}

abbrev pub message : Message
message = record { seq = 66000; op = 5; payload = 1 ∷ 2 ∷ 3 ∷ [] }

abbrev wal_item : WalItem
wal_item = record { to = 1; game = 0; gi = 300; flags = 1; key = 70000 }

abbrev wal_event : WalEvent
wal_event = record { event_id = 5 }

abbrev six_bytes : List ℕ
six_bytes = 0 ∷ 0 ∷ 0 ∷ 1 ∷ 0 ∷ 2 ∷ []

parse_info_item-panic_iff_example : (parse_info_item six_bytes ≡ panic) ↔ (length six_bytes ≡ 6)
parse_info_item-panic_iff_example = parse_info_item-panic_iff six_bytes

abbrev pub key_one : ByteArray 16
key_one = to_array 16 (1 ∷ [])

abbrev pub key_two : ByteArray 16
key_two = to_array 16 (2 ∷ [])

-- A queue on an empty file, then with two entries, then with the first of them acknowledged.
abbrev pub empty_queue : SendQueue
empty_queue = record { file = opened [] []; entries = [] }

abbrev pub full_queue : SendQueue
full_queue = (add key_two (9 ∷ []) (add key_one (7 ∷ 8 ∷ []) empty_queue).1).1

abbrev pub acked_queue : SendQueue
acked_queue = ack key_one full_queue

pub full_queue-Reach : Durable.Reach full_queue
unfolding add lookup write_entry write sync seek_end le32 put array_eq
full_queue-Reach =
    added _ key_two (9 ∷ [])
      (added _ key_one (7 ∷ 8 ∷ []) (Durable.created (opened [] []) refl) (omega arith) refl)
      (omega arith) refl

abbrev remote : ServerPosition
remote = record {
  id = key_two;
  name = to_array 8 (65 ∷ []);
  key = 81;
  x = pos 1;
  y = negsuc 1;
  z = pos 0;
}

abbrev after_remote : PositionSystem
after_remote = (on_server_pos remote create_position_system).1

after_remote-Reach : LocalIds.Reach after_remote
unfolding create_position_system
after_remote-Reach = server_pos create_position_system remote LocalIds.created (omega arith)

local_ids-once_example :
    occurs 1 (local_ids after_remote.local) + occurs 1 after_remote.local_id_free
    ≡ (if leb 1 1 && ltb 1 after_remote.local_id_next then 1 else 0)
local_ids-once_example = local_ids-once after_remote after_remote-Reach 1

-- A game that is connected, with one entry in the log.
abbrev game : Session
game = record {
  player_id = key_two;
  player_name = to_array 8 (65 ∷ []);
  world_id = 1;
  single = false;
  seq_game = 5;
  send_q = empty_queue;
  wal = record quiet_wal { set = item_key ∷ []; entries = some_item ∷ []; count = 1 };
  positions = after_remote;
}

send_game_wal_lem_example :
    send_game_wal 0 game ≡ numbered game 0 (take 16 (drop 0 game.wal.entries))
send_game_wal_lem_example = send_game_wal_lem 0 game refl (omega arith)

abbrev wal_in : MessageBodyWalIn
wal_in = record { token = 7; kind = 2; content = 0 ∷ 0 ∷ 0 ∷ 5 ∷ [] }

abbrev event_bytes : List ℕ
event_bytes = (2 ∷ bytes 16 key_two) ++ bytes 8 (to_array 8 (65 ∷ [])) ++ 1 ∷ 5 ∷ 0 ∷ 0 ∷ 0 ∷ []

abbrev event_key : ByteArray 16
event_key = to_array 16 (2 ∷ 1 ∷ 5 ∷ [])

abbrev sent_event : List Output
sent_event =
    to_uplink (record { op = Packet.op_wal; content = event_bytes }) ∷ to_game (wal_ack 7) ∷ []

abbrev game_after : Session
game_after = record game { send_q = (add event_key event_bytes empty_queue).1 }

abbrev position_in : Message
position_in = record {
  seq = 5;
  op = Ipc.op_position;
  payload = 0 ∷ 81 ∷ 0 ∷ 1 ∷ 0 ∷ 2 ∷ 0 ∷ 3 ∷ [];
}

abbrev game_moved : Session
game_moved = (handle_msg 9 position_in game).1

position_is_handled : handle_msg 9 position_in game ≡ (ok [], game_moved)
unfolding handle_msg dispatch expect parse_position_in be_uint16 shorter
position_is_handled = refl

handle_msg-ok_example :
    (position_in.op ≢ Ipc.op_hello)
    × (position_in.seq ≡ game.seq_game)
    × (game_moved.seq_game ≡ next_u32 game.seq_game)
handle_msg-ok_example = handle_msg-ok 9 position_in game game_moved [] position_is_handled

abbrev uplink_packet : Packet
uplink_packet = record { op = Packet.op_wal; content = 0 ∷ 0 ∷ 0 ∷ 0 ∷ item_bytes }

abbrev failing : Session
failing = record game { wal = empty_wal }

handle_uplink_packet-IsWal_example :
    ((handle_uplink_packet uplink_packet failing).0 ≢ panic)
    × IsWal (handle_uplink_packet uplink_packet failing).1.wal
handle_uplink_packet-IsWal_example =
    handle_uplink_packet-IsWal uplink_packet failing empty_wal-IsWal refl
      (ground (arith, item_bytes-IsByte))

abbrev found_message : Message
found_message = record { seq = 5; op = 2; payload = 0 ∷ 0 ∷ 0 ∷ 7 ∷ 2 ∷ 0 ∷ 0 ∷ 0 ∷ 5 ∷ [] }

handle_msg-IsQueued_example : All IsQueued (handle_msg 9 found_message game).1.send_q.entries
handle_msg-IsQueued_example =
    handle_msg-IsQueued 9 found_message game (omega arith) (ground arith)
      (record { player_id = ground arith; player_name = ground arith; world_id = omega arith }) tt
