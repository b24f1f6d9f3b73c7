-- ===== src/Room.antt =====
-- server/internal/session/session.go: a session with all of its players. Each player has the goroutines
-- that Join starts, and what they do are steps that interleave with those of the other players. The
-- connection of a player is the list of the packets that have been written to it. The loggers are
-- left out; the events are in Server/Events.
pub mod Feeding
pub mod Turns
pub mod Seats
pub mod Writing
pub mod Handling
pub mod Invariant
pub mod Agreement
pub mod Placed
pub mod Positions
mod Examples
use multiplayer.Prelude.{
  All, Bool, List, Result, [], err, false, if◌then◌else◌, length, ltb, not, ok, panic, suc, true, ℕ,
  ◌&&◌, ◌++◌, ◌<◌, ◌==◌, ◌||◌, ◌∷◌, ◌≡◌, some,
}
use multiplayer.Bytes.{to_array, IsByte}
use multiplayer.Protocol.Packet.{Packet, ClientHello}
use multiplayer.Protocol.Packet
use multiplayer.Server.Join.{Feed, start_feed, feed, hello_reply}
use multiplayer.Server.Player.{Player, Sent, Handled, to_player, to_others, handle_packet}
use multiplayer.Wal.Log.{Wal}
use multiplayer.World.{HasRoom}

-- Where Join stands: in the map of the players with the reply to be sent, with its goroutines started, or
-- back.
pub data Phase : Type 0 where
  joining running left : Phase

-- A Player, whose context is `alive` until it is cancelled, with the packets that its goroutines hold:
-- `todo` is what handlePacket has yet to send, `feeding` what handleWalStream has, which is `looping`
-- when its loop has found the context alive and not yet come back with an entry; `sending` is what
-- handleMsgOut has taken, and keeps what it had when it is `stopped` by a SendRaw that failed.
pub record Seat : Type 0 where
  pub player : Player
  pub start : ℕ
  pub phase : Phase
  pub alive : Bool
  pub feed : Feed
  pub inbox : List Packet
  pub todo : List Sent
  pub feeding : List Packet
  pub looping : Bool
  pub out : List Packet
  pub sending : List Packet
  pub stopped : Bool
  pub wire : List Packet

-- A Session. The players are numbered in the order of their calls of Join, `next` to come.
pub record Room : Type 0 where
  pub wal : Wal
  pub seats : ℕ → Seat
  pub next : ℕ

-- The capacity of the channels `in` and `out`.
abbrev pub capacity : ℕ
capacity = 64

-- The keep-alive of handleMsgOut.
abbrev pub nop_packet : Packet
nop_packet = record { op = Packet.op_nop; content = [] }

-- The player that Join makes.
unfoldable pub new_seat : ClientHello → Seat
new_seat h = record {
  player = record { id = h.player_id; name = h.player_name };
  start = h.wal_index;
  phase = joining;
  alive = true;
  feed = start_feed h;
  inbox = [];
  todo = [];
  feeding = [];
  looping = false;
  out = [];
  sending = [];
  stopped = false;
  wire = [];
}

abbrev pub no_hello : ClientHello
no_hello = record {
  magic = to_array 8 [];
  version = 0;
  session_id = to_array 16 [];
  session_secret = to_array 8 [];
  player_id = to_array 16 [];
  player_name = to_array 8 [];
  world_id = 0;
  wal_index = 0;
}

-- No player.
unfoldable pub vacant : Seat
unfolding new_seat
vacant = record (new_seat no_hello) { phase = left; alive = false }

-- The session that OpenSession makes, once the log is open.
unfoldable pub open_room : Wal → Room
unfolding vacant
open_room w = record { wal = w; seats = λ i. vacant; next = 0 }

abbrev pub update : (ℕ → Seat) → ℕ → Seat → ℕ → Seat
update seats i s j = if i == j then s else seats j

abbrev pub set_seat : Room → ℕ → Seat → Room
set_seat r i s = record r { seats = update r.seats i s }

unfoldable pub is_member : Phase → Bool
is_member joining = true
is_member running = true
is_member left = false

-- The select of BroadcastExcept: a full channel is passed over, and when the player's context is done the
-- packet may be dropped even so.
unfoldable pub offer : Packet → Bool → Seat → Seat
unfolding is_member
offer q drops s =
    if is_member s.phase && ltb (length s.out) capacity && (s.alive || not drops)
    then record s { out = s.out ++ q ∷ [] }
    else s

-- func (s *Session) BroadcastExcept
unfoldable pub broadcast_except : Packet → ℕ → (ℕ → Bool) → (ℕ → Seat) → ℕ → Seat
unfolding offer
broadcast_except q excluded drops seats j =
    if excluded == j then seats j else offer q (drops j) (seats j)

-- A packet in the channel `out`, for Send.
unfoldable pub put_out : Packet → Seat → Seat
put_out q s = record s { out = s.out ++ q ∷ [] }

-- What handlePackets makes of a result of handlePacket: an error ends the player's connection. A panic,
-- which ends the process, is taken like one.
unfoldable pub handled : Room → ℕ → List Packet → Handled → Room
handled r i rest (ok l, w) = record (set_seat r i (record (r.seats i) { inbox = rest; todo = l })) {
  wal = w;
}
handled r i rest (err e, w) =
    record (set_seat r i (record (r.seats i) { inbox = rest; alive = false })) { wal = w }
handled r i rest (panic, w) =
    record (set_seat r i (record (r.seats i) { inbox = rest; alive = false })) { wal = w }

-- What handleWalStream makes of an entry that Next has returned, in the same way.
unfoldable pub fed_seat : Seat → Result (List Packet) × Feed → Seat
fed_seat s (ok ps, f) = record s { feed = f; looping = false; feeding = ps }
fed_seat s (err e, f) = record s { feed = f; looping = false; alive = false }
fed_seat s (panic, f) = record s { feed = f; looping = false; alive = false }

pub data Step (r : Room) : Room → Type 0 where
  -- Join puts a player into the map.
  joins : (h : ClientHello) → Step r (record (set_seat r r.next (new_seat h)) { next = suc r.next })
  -- Join sends the reply, and starts the goroutines.
  replies :
      (i : ℕ)
      → (r.seats i).phase ≡ joining
      → Step r (
          set_seat r i
            (record (r.seats i) { phase = running; wire = (r.seats i).wire ++ hello_reply ∷ [] }))
  -- Any call of the connection fails, or the session is cancelled.
  cancels : (i : ℕ) → Step r (set_seat r i (record (r.seats i) { alive = false }))
  -- Join takes the player out of the map when all of its goroutines are back.
  leaves :
      (i : ℕ)
      → (r.seats i).alive ≡ false
      → Step r (set_seat r i (record (r.seats i) { phase = left }))
  -- handleMsgIn.
  receives :
      (i : ℕ) (p : Packet)
      → (r.seats i).phase ≡ running
      → length (r.seats i).inbox < capacity
      → All IsByte p.content
      → Step r (set_seat r i (record (r.seats i) { inbox = (r.seats i).inbox ++ p ∷ [] }))
  -- handlePackets, up to what handlePacket sends.
  handles :
      (i : ℕ) (p : Packet) (rest : List Packet)
      → (r.seats i).phase ≡ running
      → (r.seats i).inbox ≡ p ∷ rest
      → (r.seats i).todo ≡ []
      → HasRoom r.wal
      → Step r (handled r i rest (handle_packet (r.seats i).player p r.wal))
  -- Send of an answer of handlePacket.
  answers_player :
      (i : ℕ) (q : Packet) (l : List Sent)
      → (r.seats i).phase ≡ running
      → (r.seats i).todo ≡ to_player q ∷ l
      → length (r.seats i).out < capacity
      → Step r (set_seat r i (put_out q (record (r.seats i) { todo = l })))
  answer_dropped :
      (i : ℕ) (q : Packet) (l : List Sent)
      → (r.seats i).todo ≡ to_player q ∷ l
      → (r.seats i).alive ≡ false
      → Step r (set_seat r i (record (r.seats i) { todo = l }))
  -- BroadcastExcept of a position.
  broadcasts :
      (i : ℕ) (q : Packet) (l : List Sent) (drops : ℕ → Bool)
      → (r.seats i).phase ≡ running
      → (r.seats i).todo ≡ to_others q ∷ l
      → Step r (record r {
        seats = broadcast_except q i drops (update r.seats i (record (r.seats i) { todo = l }));
      })
  -- handleWalStream: the test of its loop, and then Next, up to the Send. The context may be cancelled
  -- between the two.
  checks :
      (i : ℕ)
      → (r.seats i).phase ≡ running
      → (r.seats i).alive ≡ true
      → (r.seats i).feeding ≡ []
      → Step r (set_seat r i (record (r.seats i) { looping = true }))
  feeds :
      (i : ℕ) (x : Result (List Packet) × Feed)
      → (r.seats i).phase ≡ running
      → (r.seats i).looping ≡ true
      → (r.seats i).feeding ≡ []
      → feed r.wal (r.seats i).feed ≡ some x
      → Step r (set_seat r i (fed_seat (r.seats i) x))
  feeding_sent :
      (i : ℕ) (q : Packet) (l : List Packet)
      → (r.seats i).phase ≡ running
      → (r.seats i).feeding ≡ q ∷ l
      → length (r.seats i).out < capacity
      → Step r (set_seat r i (put_out q (record (r.seats i) { feeding = l })))
  feeding_dropped :
      (i : ℕ) (q : Packet) (l : List Packet)
      → (r.seats i).feeding ≡ q ∷ l
      → (r.seats i).looping ≡ false
      → (r.seats i).alive ≡ false
      → Step r (set_seat r i (record (r.seats i) { feeding = [] }))
  -- handleMsgOut takes a packet of the channel or its keep-alive.
  takes :
      (i : ℕ) (q : Packet) (l : List Packet)
      → (r.seats i).phase ≡ running
      → (r.seats i).sending ≡ []
      → (r.seats i).out ≡ q ∷ l
      → Step r (set_seat r i (record (r.seats i) { out = l; sending = q ∷ [] }))
  takes_nop :
      (i : ℕ)
      → (r.seats i).phase ≡ running
      → (r.seats i).sending ≡ []
      → Step r (set_seat r i (record (r.seats i) { sending = nop_packet ∷ [] }))
  -- Its SendRaw returns: the packet has been written, or the connection ends and the packet is lost.
  writes :
      (i : ℕ) (q : Packet)
      → (r.seats i).phase ≡ running
      → (r.seats i).stopped ≡ false
      → (r.seats i).sending ≡ q ∷ []
      → Step r
          (set_seat r i (record (r.seats i) { sending = []; wire = (r.seats i).wire ++ q ∷ [] }))
  write_fails :
      (i : ℕ) (q : Packet)
      → (r.seats i).phase ≡ running
      → (r.seats i).stopped ≡ false
      → (r.seats i).sending ≡ q ∷ []
      → Step r (set_seat r i (record (r.seats i) { stopped = true; alive = false }))

pub data Reach (r : Room) : Room → Type 0 where
  here : Reach r r
  next_step : {u v : Room} → Reach r u → Step u v → Reach r v
