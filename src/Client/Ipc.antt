-- ===== src/Client/Ipc.antt =====
-- client/internal/ipc/msg.go: the messages between the client and the game, in big-endian bytes. A
-- field `Data` is `content` here, and a field `Type` is `kind`.
pub mod Project64
pub mod RoundTrip
pub mod Unix
pub mod Parsing
use multiplayer.Prelude.{
  List, Result, [], err, if◌then◌else◌, length, not, ok, too_short, ℕ, ◌+◌, ◌>>=◌, ◌>>◌, ◌∷◌,
}
use multiplayer.Bytes.{
  slice_from, make_bytes, to_array, slice, bytes, index, ByteArray, shorter, write_all,
}
use multiplayer.Bytes.Int16.{to_int16, to_uint16, ℤ}
use multiplayer.Bytes.Words.{be_uint32, be_uint16, be32, be16}

abbrev pub op_hello : ℕ
op_hello = 1

abbrev pub op_wal : ℕ
op_wal = 2

abbrev pub op_wal_query : ℕ
op_wal_query = 3

abbrev pub op_wal_ack : ℕ
op_wal_ack = 4

abbrev pub op_position : ℕ
op_position = 5

abbrev pub op_info_item : ℕ
op_info_item = 6

abbrev pub op_info_entrance : ℕ
op_info_entrance = 7

pub record Message : Type 0 where
  pub seq : ℕ
  pub op : ℕ
  pub payload : List ℕ

pub record MessageBodyPositionIn : Type 0 where
  pub key : ℕ
  pub x : ℤ
  pub y : ℤ
  pub z : ℤ

pub record MessageBodyPositionOut : Type 0 where
  pub id : ℕ
  pub color : ℕ
  pub name : ByteArray 8
  pub key : ℕ
  pub x : ℤ
  pub y : ℤ
  pub z : ℤ

pub record MessageBodyHelloIn : Type 0 where
  pub magic : ByteArray 8
  pub session_id : ByteArray 16
  pub session_secret : ByteArray 8
  pub player_id : ByteArray 16
  pub player_name : ByteArray 8
  pub world_id : ℕ

pub record MessageBodyHelloOut : Type 0 where
  pub magic : ByteArray 8
  pub seq_game : ℕ
  pub seq_net : ℕ

pub record MessageBodyWalIn : Type 0 where
  pub token : ℕ
  pub kind : ℕ
  pub content : List ℕ

pub record MessageBodyWalOut : Type 0 where
  pub index : ℕ
  pub kind : ℕ
  pub from : ℕ
  pub player_name : ByteArray 8
  pub content : List ℕ

pub record WalItem : Type 0 where
  pub to : ℕ
  pub game : ℕ
  pub gi : ℕ
  pub flags : ℕ
  pub key : ℕ

pub record WalEvent : Type 0 where
  pub event_id : ℕ

pub record MessageBodyInfoItem : Type 0 where
  pub key : ℕ
  pub gi : ℕ
  pub flags : ℕ

pub record MessageBodyInfoEntrance : Type 0 where
  pub original : ℕ
  pub entrance : ℕ
  pub age : ℕ

unfoldable pub parse_message : List ℕ → Result Message
unfolding shorter index slice slice_from be_uint32
parse_message d = if shorter d 5 then err too_short else do
  seq ← be_uint32 (← slice d 0 4)
  op ← index d 4
  payload ← slice_from d 5
  ok (record { seq = seq; op = op; payload = payload })

unfoldable pub parse_position_in : List ℕ → Result MessageBodyPositionIn
unfolding shorter slice be_uint16
parse_position_in d = if shorter d 8 then err too_short else do
  key ← be_uint16 (← slice d 0 2)
  x ← be_uint16 (← slice d 2 4)
  y ← be_uint16 (← slice d 4 6)
  z ← be_uint16 (← slice d 6 8)
  ok (record { key = key; x = to_int16 x; y = to_int16 y; z = to_int16 z })

unfoldable pub parse_hello_in : List ℕ → Result MessageBodyHelloIn
unfolding shorter index slice
parse_hello_in d = if shorter d 57 then err too_short else do
  magic ← slice d 0 8
  session_id ← slice d 8 24
  session_secret ← slice d 24 32
  player_id ← slice d 32 48
  player_name ← slice d 48 56
  world_id ← index d 56
  ok (record {
    magic = to_array 8 magic;
    session_id = to_array 16 session_id;
    session_secret = to_array 8 session_secret;
    player_id = to_array 16 player_id;
    player_name = to_array 8 player_name;
    world_id = world_id;
  })

unfoldable pub parse_wal_in : List ℕ → Result MessageBodyWalIn
unfolding shorter index slice slice_from be_uint32
parse_wal_in d = if shorter d 5 then err too_short else do
  token ← be_uint32 (← slice d 0 4)
  kind ← index d 4
  content ← slice_from d 5
  ok (record { token = token; kind = kind; content = content })

unfoldable pub parse_wal_item : List ℕ → Result WalItem
unfolding shorter index slice be_uint16 be_uint32
parse_wal_item d = if shorter d 10 then err too_short else do
  to ← index d 0
  game ← index d 1
  gi ← be_uint16 (← slice d 2 4)
  flags ← be_uint16 (← slice d 4 6)
  key ← be_uint32 (← slice d 6 10)
  ok (record { to = to; game = game; gi = gi; flags = flags; key = key })

unfoldable pub parse_wal_event : List ℕ → Result WalEvent
unfolding shorter slice be_uint32
parse_wal_event d =
    if shorter d 4
    then err too_short
    else do event_id ← be_uint32 (← slice d 0 4); ok (record { event_id = event_id })

-- The last guard is the source's: it looks at index 6 of what may be six bytes long.
unfoldable pub parse_info_item : List ℕ → Result MessageBodyInfoItem
unfolding shorter index slice be_uint16 be_uint32
parse_info_item d = if shorter d 6 then err too_short else do
  key ← be_uint32 (← slice d 0 4)
  gi ← be_uint16 (← slice d 4 6)
  flags ← (if not (shorter d 6) then index d 6 else ok 1)
  ok (record { key = key; gi = gi; flags = flags })

unfoldable pub parse_info_entrance : List ℕ → Result MessageBodyInfoEntrance
unfolding shorter index slice be_uint32
parse_info_entrance d = if shorter d 9 then err too_short else do
  original ← be_uint32 (← slice d 0 4)
  entrance ← be_uint32 (← slice d 4 8)
  age ← index d 8
  ok (record { original = original; entrance = entrance; age = age })

unfoldable pub serialize_message : Message → List ℕ
serialize_message m =
    write_all ((0, be32 m.seq) ∷ (4, m.op ∷ []) ∷ (5, m.payload) ∷ [])
      (make_bytes (5 + length m.payload))

unfoldable pub serialize_hello_out : MessageBodyHelloOut → List ℕ
serialize_hello_out h =
    write_all ((0, bytes 8 h.magic) ∷ (8, be32 h.seq_game) ∷ (12, be32 h.seq_net) ∷ [])
      (make_bytes 16)

unfoldable pub serialize_wal_out : MessageBodyWalOut → List ℕ
serialize_wal_out w =
    write_all
      ((0, be32 w.index)
        ∷ (4, w.kind ∷ [])
        ∷ (5, w.from ∷ [])
        ∷ (6, bytes 8 w.player_name)
        ∷ (14, w.content)
        ∷ [])
      (make_bytes (14 + length w.content))

unfoldable pub serialize_wal_item : WalItem → List ℕ
serialize_wal_item i =
    write_all
      ((0, i.to ∷ [])
        ∷ (1, i.game ∷ [])
        ∷ (2, be16 i.gi)
        ∷ (4, be16 i.flags)
        ∷ (6, be32 i.key)
        ∷ [])
      (make_bytes 10)

unfoldable pub serialize_wal_event : WalEvent → List ℕ
serialize_wal_event e = write_all ((0, be32 e.event_id) ∷ []) (make_bytes 4)

unfoldable pub serialize_position_out : MessageBodyPositionOut → List ℕ
serialize_position_out p =
    write_all
      ((0, be16 p.id)
        ∷ (2, be16 p.color)
        ∷ (4, bytes 8 p.name)
        ∷ (12, be16 p.key)
        ∷ (14, be16 (to_uint16 p.x))
        ∷ (16, be16 (to_uint16 p.y))
        ∷ (18, be16 (to_uint16 p.z))
        ∷ [])
      (make_bytes 20)
