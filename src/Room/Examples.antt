-- ===== src/Room/Examples.antt =====
-- A session with two players: the first sends an item, and is sent the log.
use multiplayer.Prelude.{
  [], refl, ◌∷◌, ◌≡◌, All, List, arith, ok, subst, ℕ, true, ◌++◌, ◌⊎◌, none, false,
}
use multiplayer.Protocol.Packet.{
  parse_client_position, ClientHello, Packet, ServerPosition, serialize_server_position,
}
use multiplayer.Room.Placed.{IsFrom}
use multiplayer.Room.Positions.{wire-positions}
use multiplayer.Server.Player.{
  handle_packet, on_position, handle_position_update, to_others, Player,
}
use multiplayer.Protocol.Packet
use multiplayer.Room.{
  is_member, offer, broadcast_except, update, broadcasts, put_out, fed_seat, vacant, Room, Seat,
  Reach, joins, replies, here, next_step, open_room, new_seat, running, vacant, answers_player,
  feeding_sent, feeds, handled, handles, receives, set_seat, writes, takes, checks,
}
use multiplayer.Wal.Stream.{subscribe}
use multiplayer.Wal.Log.{get, append, Wal}
use multiplayer.Wal.Log.Examples.{
  append-eq-item_wal, some_item, quiet_wal, item_bytes-IsByte, item_key,
}
use multiplayer.Server.Examples.{player, wal_packet, acks, item_is_handled}
use multiplayer.Bytes.Int16.{to_int16, pos}
use multiplayer.Bytes.{to_array}
use multiplayer.Server.Join.{feed, feed_next, hello_reply, start_feed}
use multiplayer.Server.Player.Acks.{ack_packet}
use multiplayer.Room.Agreement.{
  players_agree, carried, IsKnown, acknowledged, settled-carried, wire-acknowledged, wire-carried,
}
use multiplayer.World.Examples.{quiet_wal-IsMemory, item_is_fed, server_packet}
use multiplayer.World.Feeding.{moved}
use multiplayer.Wal.Entry.{WalEntry}

abbrev hello : ClientHello
hello = record {
  magic = to_array 8 [];
  version = 0;
  session_id = to_array 16 [];
  session_secret = to_array 8 [];
  player_id = player.id;
  player_name = player.name;
  world_id = 1;
  wal_index = 0;
}

abbrev at_first : Room
at_first = open_room quiet_wal

-- The hello of the second player.
abbrev other_hello : ClientHello
other_hello = record hello {
  player_id = to_array 16 (9 ∷ 9 ∷ []);
  player_name = to_array 8 (66 ∷ []);
}

abbrev other_player : Player
other_player = record { id = other_hello.player_id; name = other_hello.player_name }

abbrev other_seat : Seat
other_seat = record (new_seat other_hello) { phase = running; wire = hello_reply ∷ [] }

abbrev seat : Seat
seat = record (new_seat hello) { phase = running; wire = hello_reply ∷ [] }

-- Both players have been sent the reply.
abbrev joined : Room
joined = record (set_seat at_first 0 (new_seat hello)) { next = 1 }

abbrev both_joined : Room
both_joined = record (set_seat joined 1 (new_seat other_hello)) { next = 2 }

abbrev replied : Room
replied = set_seat (set_seat both_joined 0 seat) 1 other_seat

replied-Reach : Reach at_first replied
unfolding open_room vacant new_seat
replied-Reach =
    let a : Reach at_first both_joined =
      next_step (next_step here (joins hello)) (joins other_hello) in
    next_step (next_step a (replies 0 refl)) (replies 1 refl)

abbrev log_now : Wal
log_now = (append some_item quiet_wal).1

-- The item of the first player comes in, and is acknowledged.
abbrev arrived : Room
arrived = set_seat replied 0 (record seat { inbox = wal_packet ∷ [] })

abbrev taken : Room
taken = record (set_seat arrived 0 (record seat { todo = acks })) { wal = log_now }

taken-Reach : Reach at_first taken
unfolding handled new_seat open_room
taken-Reach =
    let a : Reach at_first arrived =
      next_step replied-Reach (receives 0 wal_packet refl (omega arith) item_bytes-IsByte) in
    subst (λ h. Reach at_first (handled arrived 0 [] h)) item_is_handled
      (next_step a (handles 0 wal_packet [] refl refl refl (omega arith)))

-- handleMsgOut has taken the packet of the channel.
abbrev take_out : Packet → ℕ → Room → Room
take_out q i r = set_seat r i (record (r.seats i) { out = []; sending = q ∷ [] })

abbrev ack : Packet
ack = ack_packet item_key

abbrev acked_wire : List Packet
acked_wire = hello_reply ∷ ack ∷ []

abbrev answered : Room
answered =
    set_seat (take_out ack 0 (set_seat taken 0 (record seat { out = ack ∷ [] }))) 0
      (record seat { wire = acked_wire })

answered-Reach : Reach at_first answered
unfolding put_out new_seat
answered-Reach =
    let a = next_step taken-Reach (answers_player 0 ack [] refl refl (omega arith)) in
    next_step (next_step a (takes 0 ack [] refl refl refl)) (writes 0 ack refl refl refl)

-- The item is fed to the first player.
abbrev checked : Room
checked = set_seat answered 0 (record seat { wire = acked_wire; looping = true })

abbrev fed : Room
fed =
    set_seat checked 0
      (record seat { wire = acked_wire; feed = moved seat.feed; feeding = server_packet ∷ [] })

abbrev last_wire : List Packet
last_wire = hello_reply ∷ ack ∷ server_packet ∷ []

abbrev at_last : Room
at_last =
    set_seat
      (take_out server_packet 0 (
        set_seat fed 0
          (record seat { wire = acked_wire; feed = moved seat.feed; out = server_packet ∷ [] })))
      0 (record seat { wire = last_wire; feed = moved seat.feed })

at_last-Reach : Reach at_first at_last
unfolding put_out new_seat fed_seat start_feed
at_last-Reach =
    let a : Reach at_first fed =
      next_step (next_step answered-Reach (checks 0 refl refl refl))
        (feeds 0 (ok (server_packet ∷ []), moved seat.feed) refl refl refl item_is_fed) in
    let b = next_step a (feeding_sent 0 server_packet [] refl refl (omega arith)) in
    next_step (next_step b (takes 0 server_packet [] refl refl refl))
      (writes 0 server_packet refl refl refl)

nothing_left : feed at_last.wal (at_last.seats 0).feed ≡ none
unfolding feed feed_next get start_feed subscribe new_seat
nothing_left = rw append-eq-item_wal refl

wire-carried_example : (rest : List WalEntry) × (log_now.entries ≡ carried last_wire ++ rest)
unfolding new_seat
wire-carried_example = wire-carried quiet_wal at_last 0 quiet_wal-IsMemory at_last-Reach

players_agree_example :
    ((more : List WalEntry) × (carried last_wire ++ more ≡ carried (hello_reply ∷ [])))
    ⊎ ((more : List WalEntry) × (carried (hello_reply ∷ []) ++ more ≡ carried last_wire))
unfolding new_seat
players_agree_example = players_agree quiet_wal at_last 0 1 quiet_wal-IsMemory at_last-Reach refl

settled-carried_example : carried last_wire ≡ log_now.entries
unfolding new_seat
settled-carried_example =
    settled-carried quiet_wal at_last 0 quiet_wal-IsMemory at_last-Reach refl refl refl refl
      nothing_left

wire-acknowledged_example : All (IsKnown log_now.set) (acknowledged last_wire)
wire-acknowledged_example = wire-acknowledged quiet_wal at_last 0 quiet_wal-IsMemory at_last-Reach

-- The second player sends a position, and the first is sent it.
abbrev position_packet : Packet
position_packet = record { op = Packet.op_position; content = 1 ∷ 0 ∷ 2 ∷ 0 ∷ 3 ∷ 0 ∷ 4 ∷ 0 ∷ [] }

abbrev server_position : ServerPosition
server_position = record {
  id = other_player.id;
  name = other_player.name;
  key = 1;
  x = pos 2;
  y = pos 3;
  z = pos 4;
}

abbrev sent_position : Packet
sent_position = record {
  op = Packet.op_position;
  content = serialize_server_position server_position;
}

position_is_handled :
    handle_packet other_player position_packet quiet_wal
    ≡ (ok (to_others sent_position ∷ []), quiet_wal)
unfolding handle_packet on_position handle_position_update parse_client_position to_int16
position_is_handled = refl

abbrev position_in : Room
position_in = set_seat replied 1 (record other_seat { inbox = position_packet ∷ [] })

abbrev position_taken : Room
position_taken = set_seat position_in 1 (record other_seat { todo = to_others sent_position ∷ [] })

position_taken-Reach : Reach at_first position_taken
unfolding handled new_seat open_room
position_taken-Reach =
    let a : Reach at_first position_in =
      next_step replied-Reach (receives 1 position_packet refl (omega arith) (ground arith)) in
    subst (λ h. Reach at_first (handled position_in 1 [] h)) position_is_handled
      (next_step a (handles 1 position_packet [] refl refl refl (omega arith)))

abbrev position_out : Room
position_out = record position_taken {
  seats = broadcast_except sent_position 1 (λ j. false) (update position_taken.seats 1 other_seat);
}

abbrev position_sent : Room
position_sent =
    set_seat (take_out sent_position 0 position_out) 0
      (record seat { wire = hello_reply ∷ sent_position ∷ [] })

position_sent-Reach : Reach at_first position_sent
unfolding new_seat broadcast_except offer is_member
position_sent-Reach =
    let a : Reach at_first position_out =
      next_step position_taken-Reach (broadcasts 1 sent_position [] (λ j. false) refl refl) in
    next_step (next_step a (takes 0 sent_position [] refl refl refl))
      (writes 0 sent_position refl refl refl)

wire-positions_example : All (IsFrom position_sent.seats 2 0) (hello_reply ∷ sent_position ∷ [])
wire-positions_example =
    wire-positions quiet_wal position_sent 0 quiet_wal-IsMemory position_sent-Reach
