-- ===== src/World/Examples.antt =====
-- The theorems of the world on a concrete session: a client that has found an item connects, and both
-- sides take each other's packets in.
use multiplayer.Protocol.Packet.{op_wal, Packet, serialize_server_wal}
use multiplayer.Protocol.Packet
use multiplayer.Server.Examples.{item_is_handled, handled}
use multiplayer.World.Feeding.{moved}
use multiplayer.Wal.Log.Examples.{
  append-eq-item_wal, item_bytes, item_bytes-IsByte, item_key, quiet_wal, dedup_key-some_item,
  parse-item_bytes, some_item, some_item-IsStored,
}
use multiplayer.World.Flush.{resend-take_all, take_all, deliver_all}
use multiplayer.Client.Resend.{resend}
use multiplayer.Prelude.{
  [], refl, false, some, ok, none, arith, ◌∷◌, ◌≡◌, List, subst, take, true, ◌++◌, ◌⊎◌, All,
}
use multiplayer.Client.Game.{Session}
use multiplayer.Client.Positions.{create_position_system}
use multiplayer.Client.Info.{Info, multi}
use multiplayer.Server.Join.Handshake.{hello_of, handshake}
use multiplayer.World.{
  Link, World, Reach, here, next, connect, send, receive, received, answers, deliver, delivered,
  fed, feed_log, player_of,
}
use multiplayer.World.Prefix.{IsStart, client_log-prefix}
use multiplayer.Bytes.{to_array, ByteArray}
use multiplayer.Server.Join.{hello_reply, receive_hello, start_feed, feed, feed_entry}
use multiplayer.Wal.Log.Memory.{IsMemory}
use multiplayer.File.{opened}
use multiplayer.Client.Uplink.{check_reply, hello_packet, handle_uplink_packet}
use multiplayer.Server.Player.Acks.{ack_packet}
use multiplayer.World.Board.{world-BoardReach, board_of, BoardReach}
use multiplayer.World.Progress.{client_log-catches_up, Flow}
use multiplayer.Client.SendQueue.{lookup, ack}
use multiplayer.Client.Uplink.Effects.{uplink_ack}
use multiplayer.Wal.Entry.{WalEntry, serialize}
use multiplayer.Wal.Log.{contains, get, Wal}
use multiplayer.Bytes.Laws.{array_eq_iff}
use multiplayer.World.Durability.{pending-IsKept}
use multiplayer.Bytes.Words.{le32, le16}
use multiplayer.Wal.Stream.{subscribe}
use multiplayer.Server.Player.{Sent}

abbrev pub info : Info
info = record {
  session_id = to_array 16 (1 ∷ []);
  session_secret = to_array 8 (4 ∷ []);
  world_id = 1;
  mode = multi;
  items = [];
  locations = [];
  entrances = [];
}

-- A client with an item that the server does not know yet.
abbrev pub finder : Session
finder = record {
  player_id = to_array 16 (7 ∷ 8 ∷ []);
  player_name = to_array 8 (65 ∷ []);
  world_id = 1;
  single = false;
  seq_game = 5;
  send_q = record { file = opened [] []; entries = (item_key, item_bytes) ∷ [] };
  wal = quiet_wal;
  positions = create_position_system;
}

item_is_queued : lookup item_key finder.send_q.entries ≡ some item_bytes
unfolding lookup
item_is_queued = rw ((array_eq_iff 16 item_key item_key).1 refl) refl

abbrev at_first : World
at_first = record { server = quiet_wal; client = finder; link = none }

pub quiet_wal-IsMemory : IsMemory quiet_wal
quiet_wal-IsMemory = record {
  entries = tt;
  set = refl;
  distinct = tt;
  count = refl;
  small = omega arith;
}

at_first-IsStart : IsStart at_first
at_first-IsStart = record {
  server = quiet_wal-IsMemory;
  client = quiet_wal-IsMemory;
  rest = [];
  prefix = refl;
  link = refl;
}

handshake_example :
    (receive_hello (hello_packet info finder) ≡ ok (hello_of info finder))
    × (check_reply hello_reply ≡ ok tt)
handshake_example = handshake info finder (omega arith)

abbrev item_packet : Packet
item_packet = record { op = Packet.op_wal; content = item_bytes }

-- Nothing is on its way yet.
abbrev fresh_link : Link
fresh_link = record { feed = start_feed (hello_of info finder); down = []; up = [] }

abbrev sent_link : Link
sent_link = record fresh_link { up = item_packet ∷ [] }

abbrev after_send : World
after_send = record at_first { link = some sent_link }

after_send-Reach : Reach at_first after_send
after_send-Reach =
    let (a, b) = handshake info finder (omega arith) in
    next (next here (connect info (hello_of info finder) a b))
      (send fresh_link item_packet refl item_bytes-IsByte)

-- The server has taken the item in, and acknowledges it.
abbrev ack_link : Link
ack_link = record fresh_link { down = ack_packet item_key ∷ [] }

abbrev after_receive : World
after_receive = record { server = handled; client = finder; link = some ack_link }

after_receive-Reach : Reach at_first after_receive
unfolding received answers
after_receive-Reach =
    subst (λ h. Reach at_first (received after_send sent_link [] h)) item_is_handled
      (next after_send-Reach (receive sent_link item_packet [] refl refl (omega arith)))

-- The client has taken the acknowledgement in.
abbrev emptied : Session
emptied = record finder { send_q = ack item_key finder.send_q }

abbrev after_ack : World
after_ack = record after_receive { client = emptied; link = some fresh_link }

after_ack-Reach : Reach at_first after_ack
unfolding delivered
after_ack-Reach =
    subst (λ h. Reach at_first (delivered after_receive ack_link [] h))
      (uplink_ack (ack_packet item_key) item_key finder refl refl)
      (next after_receive-Reach (deliver ack_link (ack_packet item_key) [] refl refl))

-- The server feeds the item, and the client takes it in.
abbrev pub server_packet : Packet
server_packet = record { op = Packet.op_wal; content = 0 ∷ 0 ∷ 0 ∷ 0 ∷ item_bytes }

abbrev fed_link : Link
fed_link = record fresh_link { feed = moved fresh_link.feed; down = server_packet ∷ [] }

pub item_is_fed :
    feed handled fresh_link.feed ≡ some (ok (server_packet ∷ []), moved fresh_link.feed)
unfolding feed feed_entry get serialize le16 le32 start_feed subscribe serialize_server_wal
item_is_fed = rw append-eq-item_wal refl

abbrev at_last : World
at_last =
    delivered (record after_ack { link = some fed_link }) fed_link []
      (handle_uplink_packet server_packet emptied)

at_last-Reach : Reach at_first at_last
unfolding fed
at_last-Reach =
    let r : Reach at_first (record after_ack { link = some fed_link }) =
      next after_ack-Reach
        (feed_log fresh_link (ok (server_packet ∷ []), moved fresh_link.feed) refl item_is_fed) in
    next r (deliver fed_link server_packet [] refl refl)

client_log-prefix_example :
    (rest : List WalEntry) × (at_last.server.entries ≡ at_last.client.wal.entries ++ rest)
client_log-prefix_example = client_log-prefix at_first at_last at_first-IsStart at_last-Reach

pending-IsKept_example :
    (lookup item_key at_last.client.send_q.entries ≡ some item_bytes)
    ⊎ (contains item_key at_last.server.set ≡ true)
pending-IsKept_example =
    pending-IsKept at_first at_last item_key item_bytes at_first-IsStart at_last-Reach
      item_is_queued

world-BoardReach_example :
    BoardReach (board_of at_first) (board_of at_last)
    × (at_last.client.wal.entries ≡ take (board_of at_last).seen (board_of at_last).log)
world-BoardReach_example = world-BoardReach at_first at_last at_first-IsStart at_last-Reach

client_log-catches_up_example :
    (v : World) × Flow after_ack v
    × (v.server ≡ after_ack.server)
    × (v.client.wal.entries ≡ after_ack.server.entries)
client_log-catches_up_example =
    client_log-catches_up at_first after_ack fresh_link at_first-IsStart after_ack-Reach refl refl
      (record { closed = refl; outcomes = refl })

resend-take_all_example :
    (ps : List Packet) × (l : List Sent) × (v : Wal) × (resend finder ≡ (ps, ok tt))
    × (take_all (player_of finder) ps quiet_wal ≡ (ok l, v))
    × All (λ x. contains x.0 v.set ≡ true) finder.send_q.entries
    × ((j : ByteArray 16) → lookup j (deliver_all (answers l) finder).send_q.entries ≡ none)
resend-take_all_example =
    resend-take_all (player_of finder) finder quiet_wal
      ((some_item, parse-item_bytes, some_item-IsStored, dedup_key-some_item), tt)
      quiet_wal-IsMemory (record { closed = refl; outcomes = refl }) (omega arith)
