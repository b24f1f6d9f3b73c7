-- ===== src/Protocol/Packet.antt =====
-- shared/protocol/opcodes.go and packet.go: the packets and the bodies that they carry. An int16 is an
-- integer; all other numbers are unsigned.
pub mod RoundTrip
pub mod Parsing
use multiplayer.Prelude.{
  List, ok, Result, [], err, if◌then◌else◌, length, too_short, ℕ, ◌+◌, ◌>>=◌, ◌>>◌, ◌∷◌,
}
use multiplayer.Bytes.{
  ByteArray, bytes, index, make_bytes, shorter, slice, slice_from, to_array, write_all,
}
use multiplayer.Bytes.Words.{le32, le16, le_uint16, le_uint32}
use multiplayer.Bytes.Int16.{to_int16, to_uint16, ℤ}
use multiplayer.Wal.Entry.{WalEntry, parse, serialize}
use multiplayer.Wal.Entry

abbrev pub op_nop : ℕ
op_nop = 0

abbrev pub op_hello : ℕ
op_hello = 1

abbrev pub op_wal : ℕ
op_wal = 2

abbrev pub op_wal_ack : ℕ
op_wal_ack = 3

abbrev pub op_position : ℕ
op_position = 4

-- `data` is `content` here.
pub record Packet : Type 0 where
  pub op : ℕ
  pub content : List ℕ

pub record ClientHello : Type 0 where
  pub magic : ByteArray 8
  pub version : ℕ
  pub session_id : ByteArray 16
  pub session_secret : ByteArray 8
  pub player_id : ByteArray 16
  pub player_name : ByteArray 8
  pub world_id : ℕ
  pub wal_index : ℕ

pub record ServerHello : Type 0 where
  pub magic : ByteArray 8
  pub version : ℕ

pub record ServerWal : Type 0 where
  pub index : ℕ
  pub entry : WalEntry

pub record ClientPosition : Type 0 where
  pub key : ℕ
  pub x : ℤ
  pub y : ℤ
  pub z : ℤ

pub record ServerPosition : Type 0 where
  pub id : ByteArray 16
  pub name : ByteArray 8
  pub key : ℕ
  pub x : ℤ
  pub y : ℤ
  pub z : ℤ

unfoldable pub parse_client_hello : List ℕ → Result ClientHello
unfolding shorter index slice le_uint32
parse_client_hello d = if shorter d 65 then err too_short else do
  magic ← slice d 0 8
  version ← le_uint32 (← slice d 8 12)
  session_id ← slice d 12 28
  session_secret ← slice d 28 36
  player_id ← slice d 36 52
  player_name ← slice d 52 60
  world_id ← index d 60
  wal_index ← le_uint32 (← slice d 61 65)
  ok (record {
    magic = to_array 8 magic;
    version = version;
    session_id = to_array 16 session_id;
    session_secret = to_array 8 session_secret;
    player_id = to_array 16 player_id;
    player_name = to_array 8 player_name;
    world_id = world_id;
    wal_index = wal_index;
  })

unfoldable pub serialize_client_hello : ClientHello → List ℕ
serialize_client_hello h =
    write_all
      ((0, bytes 8 h.magic)
        ∷ (8, le32 h.version)
        ∷ (12, bytes 16 h.session_id)
        ∷ (28, bytes 8 h.session_secret)
        ∷ (36, bytes 16 h.player_id)
        ∷ (52, bytes 8 h.player_name)
        ∷ (60, h.world_id ∷ [])
        ∷ (61, le32 h.wal_index)
        ∷ [])
      (make_bytes 65)

unfoldable pub parse_server_hello : List ℕ → Result ServerHello
unfolding shorter index slice le_uint32
parse_server_hello d = if shorter d 12 then err too_short else do
  magic ← slice d 0 8
  version ← le_uint32 (← slice d 8 12)
  ok (record { magic = to_array 8 magic; version = version })

unfoldable pub serialize_server_hello : ServerHello → List ℕ
serialize_server_hello h =
    write_all ((0, bytes 8 h.magic) ∷ (8, le32 h.version) ∷ []) (make_bytes 12)

unfoldable pub parse_server_wal : List ℕ → Result ServerWal
unfolding shorter index slice slice_from le_uint32
parse_server_wal d = if shorter d 4 then err too_short else do
  index ← le_uint32 (← slice d 0 4)
  entry ← Entry.parse (← slice_from d 4)
  ok (record { index = index; entry = entry })

unfoldable pub serialize_server_wal : ServerWal → Result (List ℕ)
serialize_server_wal x = do
  d ← Entry.serialize x.entry
  ok (write_all ((0, le32 x.index) ∷ (4, d) ∷ []) (make_bytes (4 + length d)))

unfoldable pub parse_client_position : List ℕ → Result ClientPosition
unfolding shorter index slice le_uint16
parse_client_position d = if shorter d 8 then err too_short else do
  key ← le_uint16 (← slice d 0 2)
  x ← le_uint16 (← slice d 2 4)
  y ← le_uint16 (← slice d 4 6)
  z ← le_uint16 (← slice d 6 8)
  ok (record { key = key; x = to_int16 x; y = to_int16 y; z = to_int16 z })

unfoldable pub serialize_client_position : ClientPosition → List ℕ
serialize_client_position p =
    write_all
      ((0, le16 p.key)
        ∷ (2, le16 (to_uint16 p.x))
        ∷ (4, le16 (to_uint16 p.y))
        ∷ (6, le16 (to_uint16 p.z))
        ∷ [])
      (make_bytes 8)

unfoldable pub parse_server_position : List ℕ → Result ServerPosition
unfolding shorter index slice le_uint16
parse_server_position d = if shorter d 34 then err too_short else do
  id ← slice d 0 16
  name ← slice d 16 24
  key ← le_uint16 (← slice d 24 26)
  x ← le_uint16 (← slice d 26 28)
  y ← le_uint16 (← slice d 28 30)
  z ← le_uint16 (← slice d 30 32)
  ok (record {
    id = to_array 16 id;
    name = to_array 8 name;
    key = key;
    x = to_int16 x;
    y = to_int16 y;
    z = to_int16 z;
  })

-- The last two of the 34 bytes stay zero.
unfoldable pub serialize_server_position : ServerPosition → List ℕ
serialize_server_position p =
    write_all
      ((0, bytes 16 p.id)
        ∷ (16, bytes 8 p.name)
        ∷ (24, le16 p.key)
        ∷ (26, le16 (to_uint16 p.x))
        ∷ (28, le16 (to_uint16 p.y))
        ∷ (30, le16 (to_uint16 p.z))
        ∷ [])
      (make_bytes 34)
