-- ===== src/Client/Run/Examples.antt =====
-- A game that is let in, its session, and the messages to it.
use multiplayer.Client.Ipc
use multiplayer.Client.Run.Polling.{Factory, Conns, poll}
use multiplayer.Client.Run.Polling.Passes.{IsPass, poll-IsPass}
use multiplayer.Prelude.{List, ℕ, ok, [], refl, ◌∷◌, ◌++◌, some, true, false, arith, ◌↔◌, ◌≡◌, none}
use multiplayer.Client.Examples.{key_one, acked_queue, full_queue, full_queue-Reach, message}
use multiplayer.Client.Info.{Info, multi}
use multiplayer.Client.Ipc.{MessageBodyHelloIn}
use multiplayer.Client.Game.{Session}
use multiplayer.Client.Run.{hello, check_info, start_session}
use multiplayer.Client.Run.Admission.{IsAdmitted, hello-IsAdmitted, check_info-ok}
use multiplayer.Client.Run.Restart.{start_session-restart}
use multiplayer.Client.Run.Messages.{msg_out, msg_out_lem, numbered_bytes}
use multiplayer.Client.SendQueue.Durable.{acked}
use multiplayer.Client.Uplink.{magic, version, hello_packet}
use multiplayer.Server.Join.{receive_hello}
use multiplayer.Wal.Log.Examples.{
  empty_wal, empty_wal-IsWal, some_item, some_event, some_item-IsStored, some_event-IsStored,
}
use multiplayer.Wal.Log.History.{append_all}
use multiplayer.Bytes.{ByteArray, bytes, to_array}
use multiplayer.File.{opened}
use multiplayer.Client.SendQueue.{lookup}

abbrev info : Info
info = record {
  session_id = to_array 16 (1 ∷ []);
  session_secret = to_array 8 (4 ∷ []);
  world_id = 1;
  mode = multi;
  items = [];
  locations = [];
  entrances = [];
}

abbrev game_hello : MessageBodyHelloIn
game_hello = record {
  magic = magic;
  session_id = info.session_id;
  session_secret = info.session_secret;
  player_id = to_array 16 (7 ∷ 8 ∷ []);
  player_name = to_array 8 (65 ∷ []);
  world_id = 1;
}

-- The bytes of a HELLO, with the number 0.
abbrev hello_bytes : List ℕ
hello_bytes =
    (0 ∷ 0 ∷ 0 ∷ 0 ∷ Ipc.op_hello ∷ [])
    ++ bytes 8 magic
    ++ bytes 16 info.session_id
    ++ bytes 8 info.session_secret
    ++ bytes 16 game_hello.player_id
    ++ bytes 8 game_hello.player_name
    ++ 1 ∷ []

hello-IsAdmitted_example :
    ((hello hello_bytes ≡ ok game_hello) × (check_info info game_hello ≡ ok tt))
    ↔ IsAdmitted info hello_bytes game_hello
hello-IsAdmitted_example = hello-IsAdmitted info hello_bytes game_hello

start_session-restart_example :
    let now = append_all (some_item ∷ some_event ∷ []) empty_wal in
    (s : Session) × (start_session info game_hello 9
        (ok tt)
        (ok (opened acked_queue.file.content []))
        (ok (opened now.file.content []))
      ≡ some (ok s))
    × (s.wal.entries ≡ now.entries)
    × (s.wal.set ≡ now.set)
    × (receive_hello (hello_packet info s)
        ≡ ok (record {
          magic = magic;
          version = version;
          session_id = info.session_id;
          session_secret = info.session_secret;
          player_id = game_hello.player_id;
          player_name = game_hello.player_name;
          world_id = 1;
          wal_index = now.count;
        }))
    × ((k : ByteArray 16) (d : List ℕ)
        → lookup k acked_queue.entries ≡ some d
        → lookup k s.send_q.entries ≡ some d)
start_session-restart_example =
    start_session-restart info game_hello 9 acked_queue empty_wal (some_item ∷ some_event ∷ [])
      (ground arith) ((check_info-ok info game_hello).1 (refl, refl, refl))
      (acked full_queue key_one full_queue-Reach) empty_wal-IsWal refl
      (some_item-IsStored, (some_event-IsStored, tt))

-- Three messages, of which the second cannot be written.
msg_out_lem_example :
    msg_out (true ∷ false ∷ []) 4294967294 (message ∷ message ∷ message ∷ [])
    ≡ numbered_bytes 4294967294 0 (message ∷ [])
msg_out_lem_example =
    msg_out_lem (true ∷ false ∷ []) 4294967294 (message ∷ message ∷ message ∷ []) (omega arith)

-- A place that does not open, one with other bytes, and one with a game.
abbrev places : List Factory
places =
    record { conn = none; first = none }
    ∷ record { conn = some 1; first = some (1 ∷ []) }
    ∷ record { conn = some 2; first = some hello_bytes }
    ∷ []

abbrev no_conns : Conns
no_conns = record { opened = []; closed = [] }

poll-IsPass_example : IsPass places no_conns (poll places no_conns)
poll-IsPass_example = poll-IsPass places no_conns
