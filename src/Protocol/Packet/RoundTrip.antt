-- ===== src/Protocol/Packet/RoundTrip.antt =====
-- Each body comes back from its bytes, whatever follows them.
use multiplayer.Prelude.{
  List, ok, length, refl, ℕ, ◌++◌, ◌≡◌, >>=-eq-ok, arith, ok-injective, suc, sym, ◌+◌, ◌∙◌,
}
use multiplayer.Bytes.{make_bytes}
use multiplayer.Bytes.Words.{le16_value, le32_value, IsU16, IsU32, le16, le32}
use multiplayer.Bytes.Int16.{IsI16, to_int16-to_uint16, to_uint16-IsU16}
use multiplayer.Wal.Entry.{IsValid, active, serialize, WalEntry, parse}
use multiplayer.Protocol.Packet.{
  ClientHello, ClientPosition, ServerHello, ServerPosition, ServerWal, parse_client_hello,
  parse_client_position, parse_server_hello, parse_server_position, parse_server_wal,
  serialize_client_hello, serialize_client_position, serialize_server_hello,
  serialize_server_position, serialize_server_wal,
}
use multiplayer.Wal.Entry.RoundTrip.{parse-serialize}
use multiplayer.Bytes.Laws.{overwrite-make, overwrite-nil}

-- A client hello whose version and log index fit in 32 bits comes back from its 65 bytes,
-- whatever follows them.
pub parse_client_hello-serialize :
    (h : ClientHello) (rest : List ℕ)
    → IsU32 h.version
    → IsU32 h.wal_index
    → parse_client_hello (serialize_client_hello h ++ rest) ≡ ok h
unfolding parse_client_hello serialize_client_hello le32
parse_client_hello-serialize h rest v w = simp (le32_value h.version v, le32_value h.wal_index w)

pub parse_server_hello-serialize :
    (h : ServerHello) (rest : List ℕ)
    → IsU32 h.version
    → parse_server_hello (serialize_server_hello h ++ rest) ≡ ok h
unfolding parse_server_hello serialize_server_hello le32
parse_server_hello-serialize h rest v = simp (le32_value h.version v)

-- A key and three integers that fit in 16 bits come back from their eight bytes, whatever follows
-- them.
pub parse_client_position-serialize :
    (p : ClientPosition) (rest : List ℕ)
    → IsU16 p.key
    → IsI16 p.x
    → IsI16 p.y
    → IsI16 p.z
    → parse_client_position (serialize_client_position p ++ rest) ≡ ok p
unfolding parse_client_position serialize_client_position le16
parse_client_position-serialize p rest k x y z = simp (
  le16_value p.key k,
  le16_value _ (to_uint16-IsU16 p.x x),
  le16_value _ (to_uint16-IsU16 p.y y),
  le16_value _ (to_uint16-IsU16 p.z z),
  to_int16-to_uint16 p.x x,
  to_int16-to_uint16 p.y y,
  to_int16-to_uint16 p.z z,
)

-- The position of a player, with its id, its name, a key and three integers that fit in 16 bits,
-- comes back from its 34 bytes, whatever follows them.
parse_server_position-serialize :
    (p : ServerPosition) (rest : List ℕ)
    → IsU16 p.key
    → IsI16 p.x
    → IsI16 p.y
    → IsI16 p.z
    → parse_server_position (serialize_server_position p ++ rest) ≡ ok p
unfolding parse_server_position serialize_server_position le16
parse_server_position-serialize p rest k x y z = simp (
  le16_value p.key k,
  le16_value _ (to_uint16-IsU16 p.x x),
  le16_value _ (to_uint16-IsU16 p.y y),
  le16_value _ (to_uint16-IsU16 p.z z),
  to_int16-to_uint16 p.x x,
  to_int16-to_uint16 p.y y,
  to_int16-to_uint16 p.z z,
)

four_plus : (n : ℕ) → 4 + n ≡ suc (suc (suc (suc n)))
four_plus n = omega arith

pub serialize_server_wal_lem :
    (x : ServerWal) (d : List ℕ)
    → serialize x.entry ≡ ok d
    → serialize_server_wal x ≡ ok (le32 x.index ++ d)
unfolding serialize_server_wal le32
serialize_server_wal_lem x d h =
    rw h (rw (four_plus (length d), overwrite-nil (make_bytes (length d)), overwrite-make d) refl)

server_wal-eq-ok :
    (x : ServerWal) (d : List ℕ)
    → serialize_server_wal x ≡ ok d
    → (b : List ℕ) × (serialize x.entry ≡ ok b) × (d ≡ le32 x.index ++ b)
unfolding serialize_server_wal
server_wal-eq-ok x d h =
    let (b, p, q) = >>=-eq-ok (serialize x.entry) _ h in
    (b, p, ok-injective (sym h ∙ serialize_server_wal_lem x b p))

parse_server_wal-bytes :
    (x : ServerWal) (b rest : List ℕ) {e : WalEntry}
    → IsU32 x.index
    → parse (b ++ rest) ≡ ok e
    → parse_server_wal ((le32 x.index ++ b) ++ rest) ≡ ok (record { index = x.index; entry = e })
unfolding parse_server_wal le32
parse_server_wal-bytes x b rest i p = rw p (simp (le32_value x.index i))

-- A log entry whose fields are in range comes back from its packet, whatever follows, with an
-- index below 2^32, its unused half zeroed.
pub parse_server_wal-serialize :
    (x : ServerWal) (d rest : List ℕ)
    → IsU32 x.index
    → IsValid x.entry
    → serialize_server_wal x ≡ ok d
    → parse_server_wal (d ++ rest) ≡ ok (record x { entry = active x.entry })
parse_server_wal-serialize x d rest i v h =
    let (b, p, q) = server_wal-eq-ok x d h in
    rw q (parse_server_wal-bytes x b rest i (parse-serialize x.entry b rest v p))
