-- ===== src/Client/Ipc/RoundTrip.antt =====
-- Messages and bodies come back from their bytes.
use multiplayer.Client.Ipc.{
  WalEvent, Message, WalItem, parse_message, parse_wal_event, parse_wal_item, serialize_message,
  serialize_wal_event, serialize_wal_item, MessageBodyWalOut, serialize_wal_out,
}
use multiplayer.Bytes.Laws.{overwrite-make, overwrite-nil}
use multiplayer.Prelude.{List, ok, ℕ, ◌++◌, ◌≡◌, length, arith, refl, suc, ◌+◌, ◌∷◌, []}
use multiplayer.Bytes.Words.{le32_value, be16, IsU32, be32, IsU16, le16_value}
use multiplayer.Bytes.{make_bytes, bytes}

five_plus : (n : ℕ) → 5 + n ≡ suc (suc (suc (suc (suc n))))
five_plus n = omega arith

pub serialize_message_lem : (m : Message) → serialize_message m ≡ be32 m.seq ++ m.op ∷ m.payload
unfolding serialize_message be32
serialize_message_lem m =
    rw
      (
        five_plus (length m.payload),
        overwrite-nil (make_bytes (length m.payload)),
        overwrite-make m.payload,
      )
      refl

pub serialize_message-length : (m : Message) → length (serialize_message m) ≡ 5 + length m.payload
unfolding be32
serialize_message-length m = rw (serialize_message_lem m) (omega arith)

parse_message-bytes :
    (m : Message) → IsU32 m.seq → parse_message (be32 m.seq ++ m.op ∷ m.payload) ≡ ok m
unfolding parse_message be32
parse_message-bytes m h = simp (le32_value m.seq h)

-- A message whose sequence number fits in 32 bits comes back from its bytes, with all of its payload.
pub parse_message-serialize :
    (m : Message) → IsU32 m.seq → parse_message (serialize_message m) ≡ ok m
parse_message-serialize m h = rw (serialize_message_lem m) (parse_message-bytes m h)

-- An item of the log comes back from its ten bytes, and an event from its four, where their numbers
-- fit in their widths; bytes that follow are not looked at.
parse_wal_body-serialize :
    (i : WalItem) (e : WalEvent) (rest : List ℕ)
    → IsU16 i.gi
    → IsU16 i.flags
    → IsU32 i.key
    → IsU32 e.event_id
    → (parse_wal_item (serialize_wal_item i ++ rest) ≡ ok i)
      × (parse_wal_event (serialize_wal_event e ++ rest) ≡ ok e)
unfolding parse_wal_item serialize_wal_item parse_wal_event serialize_wal_event be16 be32
parse_wal_body-serialize i e rest g f k v = (
  simp (le16_value i.gi g, le16_value i.flags f, le32_value i.key k),
  simp (le32_value e.event_id v),
)

fourteen_plus :
    (n : ℕ)
    → 14 + n ≡ suc (suc (suc (suc (suc (suc (suc (suc (suc (suc (suc (suc (suc (suc n)))))))))))))
fourteen_plus n = omega arith

-- The bytes of an entry for the game.
pub serialize_wal_out_lem :
    (w : MessageBodyWalOut)
    → serialize_wal_out w
      ≡ be32 w.index ++ (w.kind ∷ w.from ∷ []) ++ bytes 8 w.player_name ++ w.content
unfolding serialize_wal_out be32
serialize_wal_out_lem w =
    rw
      (
        fourteen_plus (length w.content),
        overwrite-nil (make_bytes (length w.content)),
        overwrite-make w.content,
      )
      refl
