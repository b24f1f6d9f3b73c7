-- ===== src/Client/Game.antt =====
-- client/internal/game/session.go: what the client does with the messages of the game. What it tells
-- the daemon, and the loggers, are left out.
pub mod Replies
pub mod Sequence
pub mod Entries
pub mod Queueing
use multiplayer.Prelude.{
  Bool, List, Result, [], bad_sequence, err, if◌then◌else◌, none, ok, panic, some, suc, too_short,
  unexpected_hello, unhandled_type, zero, ℕ, ◌%◌, ◌++◌, ◌==◌, ◌>>=◌, ◌>>◌, ◌∷◌, Option,
}
use multiplayer.Protocol.Packet.{Packet, op_hello, op_position, op_wal, op_wal_ack}
use multiplayer.Protocol.Packet
use multiplayer.Wal.Entry.{WalEntry, serialize, zero_item, zero_event, wal_event, wal_item}
use multiplayer.Wal.Entry
use multiplayer.Client.Ipc.{
  Message, MessageBodyWalIn, WalItem, WalEvent, MessageBodyPositionIn, op_info_entrance,
  op_info_item, op_wal_query, parse_info_entrance, parse_info_item, parse_position_in,
  parse_wal_event, parse_wal_in, parse_wal_item, serialize_wal_event, serialize_wal_item,
  serialize_wal_out,
}
use multiplayer.Client.Ipc
use multiplayer.Client.SendQueue.{SendQueue, add}
use multiplayer.Client.Positions.{PositionSystem, on_game_pos}
use multiplayer.Bytes.{to_array, shorter, ByteArray, array_eq, index}
use multiplayer.Bytes.Words.{be_uint32, be32}
use multiplayer.Wal.Key.{dedup_key}
use multiplayer.Wal.Log.{Wal, get, next_u32}

-- The fields of type Session that the handlers use; `single` says that Info.Mode is InfoModeSingle.
pub record Session : Type 0 where
  pub player_id : ByteArray 16
  pub player_name : ByteArray 8
  pub world_id : ℕ
  pub single : Bool
  pub seq_game : ℕ
  pub send_q : SendQueue
  pub wal : Wal
  pub positions : PositionSystem

-- What a handler sends: a message to the game, or a packet that it offers to the server.
pub data Output : Type 0 where
  to_game : Message → Output
  to_uplink : Packet → Output

abbrev pub Handled : Type 0
Handled = Result (List Output) × Session

-- newWalEntry. The error of Add is not looked at.
queue_entry : Result (List ℕ) → Result (ByteArray 16) → Session → Handled
queue_entry (ok d) (ok k) s = (
  ok (to_uplink (record { op = Packet.op_wal; content = d }) ∷ []),
  record s { send_q = (add k d s.send_q).1 },
)
queue_entry (ok d) (err e) s = (err e, s)
queue_entry (ok d) panic s = (panic, s)
queue_entry (err e) k s = (err e, s)
queue_entry panic k s = (panic, s)

unfoldable pub new_wal_entry : WalEntry → Session → Handled
unfolding queue_entry
new_wal_entry entry s = queue_entry (serialize entry) (dedup_key entry) s

-- The acknowledgement that ends handleWalIn.
pub wal_ack : ℕ → Message
wal_ack token = record { seq = 0; op = Ipc.op_wal_ack; payload = be32 token }

acknowledge : ℕ → Handled → Handled
unfolding wal_ack
acknowledge token (ok l, s) = (ok (l ++ to_game (wal_ack token) ∷ []), s)
acknowledge token (err e, s) = (err e, s)
acknowledge token (panic, s) = (panic, s)

-- An entry of the game: a renewable item, whose lowest flag is set, has a random nonce.
item_entry : ℕ → WalItem → Session → WalEntry
item_entry nonce i s = record {
  type = Entry.wal_item;
  player_id = s.player_id;
  player_name = s.player_name;
  from = s.world_id;
  item = record {
    to = i.to;
    game = i.game;
    gi = i.gi;
    flags = i.flags;
    key = i.key;
    nonce = if i.flags % 2 == 0 then 0 else nonce;
  };
  event = zero_event;
}

event_entry : WalEvent → Session → WalEntry
event_entry e s = record {
  type = Entry.wal_event;
  player_id = s.player_id;
  player_name = s.player_name;
  from = s.world_id;
  item = zero_item;
  event = record { id = e.event_id };
}

-- The entry that a message WAL of the game stands for; `nonce` is what rand.Read gives.
unfoldable pub game_entry : ℕ → MessageBodyWalIn → Session → Result WalEntry
unfolding item_entry event_entry
game_entry nonce w s =
    if w.kind == Entry.wal_item
    then (do item ← Ipc.parse_wal_item w.content; ok (item_entry nonce item s))
    else if w.kind == Entry.wal_event
    then (do event ← Ipc.parse_wal_event w.content; ok (event_entry event s))
    else err unhandled_type

on_game_entry : ℕ → Result WalEntry → Session → Handled
unfolding acknowledge
on_game_entry token (ok entry) s = acknowledge token (new_wal_entry entry s)
on_game_entry token (err e) s = (err e, s)
on_game_entry token panic s = (panic, s)

-- func (p *Session) handleWalIn
unfoldable pub handle_wal_in : ℕ → MessageBodyWalIn → Session → Handled
unfolding on_game_entry
handle_wal_in nonce w s = on_game_entry w.token (game_entry nonce w s) s

-- The bytes of an entry for the game; an entry of another type has none.
wal_data : WalEntry → List ℕ
wal_data e =
    if e.type == Entry.wal_item
    then Ipc.serialize_wal_item (record {
      to = e.item.to;
      game = e.item.game;
      gi = e.item.gi;
      flags = e.item.flags;
      key = e.item.key;
    })
    else if e.type == Entry.wal_event
    then Ipc.serialize_wal_event (record { event_id = e.event.id })
    else []

-- The message for the entry at an index; the name goes along only if the entry is another player's.
pub wal_message : Session → ℕ → WalEntry → Message
unfolding wal_data
wal_message s index e = record {
  seq = 0;
  op = Ipc.op_wal;
  payload = Ipc.serialize_wal_out (record {
    index = index;
    kind = e.type;
    from = e.from;
    player_name = if array_eq 16 e.player_id s.player_id then to_array 8 [] else e.player_name;
    content = wal_data e;
  });
}

-- A round of the loop of sendGameWal, before the rounds that follow it.
send_one : Session → ℕ → Option WalEntry → List Output → List Output
send_one s index none rest = []
send_one s index (some e) rest = to_game (wal_message s index e) ∷ rest

-- The loop of sendGameWal, n rounds from an index on.
unfoldable pub send_wal : ℕ → ℕ → Session → List Output
unfolding send_one
send_wal zero index s = []
send_wal (suc n) index s = send_one s index (get index s.wal) (send_wal n (next_u32 index) s)

-- func (s *Session) sendGameWal
unfoldable pub send_game_wal : ℕ → Session → List Output
send_game_wal index s = send_wal 16 index s

on_wal : ℕ → Result MessageBodyWalIn → Session → Handled
on_wal nonce (ok w) s = if s.single then (ok [], s) else handle_wal_in nonce w s
on_wal nonce (err e) s = (err e, s)
on_wal nonce panic s = (panic, s)

on_wal_query : Result ℕ → Session → Handled
on_wal_query (ok index) s = (ok (send_game_wal index s), s)
on_wal_query (err e) s = (err e, s)
on_wal_query panic s = (panic, s)

on_position : Result MessageBodyPositionIn → Session → Handled
on_position (ok m) s =
    (ok [], if s.single then s else record s { positions = on_game_pos m s.positions })
on_position (err e) s = (err e, s)
on_position panic s = (panic, s)

-- The messages that only tell the daemon something: nothing of them is kept but their errors.
on_info : {A : Type 0} → Result A → Session → Handled
on_info (ok x) s = (ok [], s)
on_info (err e) s = (err e, s)
on_info panic s = (panic, s)

unfoldable pub dispatch : ℕ → Message → Session → Handled
unfolding on_wal on_wal_query on_position on_info
dispatch nonce m s =
    if m.op == Ipc.op_hello
    then (err unexpected_hello, s)
    else if m.op == Ipc.op_wal
    then on_wal nonce (Ipc.parse_wal_in m.payload) s
    else if m.op == Ipc.op_wal_query
    then on_wal_query (if shorter m.payload 4 then err too_short else be_uint32 m.payload) s
    else if m.op == Ipc.op_position
    then on_position (Ipc.parse_position_in m.payload) s
    else if m.op == Ipc.op_info_item
    then on_info (Ipc.parse_info_item m.payload) s
    else if m.op == Ipc.op_info_entrance
    then on_info (Ipc.parse_info_entrance m.payload) s
    else (ok [], s)

-- The number that a message must have, and the session once it is looked at.
unfoldable pub expect : Message → Session → ℕ × Session
expect m s =
    if m.op == Ipc.op_hello
    then (0, s)
    else (s.seq_game, record s { seq_game = next_u32 s.seq_game })

-- func (p *Session) handleMsg
unfoldable pub handle_msg : ℕ → Message → Session → Handled
handle_msg nonce m s =
    let (seq, t) = expect m s in if m.seq == seq then dispatch nonce m t else (err bad_sequence, t)
