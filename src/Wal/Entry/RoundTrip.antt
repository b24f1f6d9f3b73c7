-- ===== src/Wal/Entry/RoundTrip.antt =====
-- Serialize and Parse undo one another.
use multiplayer.Prelude.{
  List, ok, ℕ, ◌++◌, ◌≡◌, ◌>>=◌, ==_iff, Bool-cases, arith, inl, inr, true, ◌==◌, ◌||◌, ap,
  if◌then◌else◌, length, ok-injective, sym,
}
use multiplayer.Bytes.{ByteArray}
use multiplayer.Bytes.Words.{IsU16, IsU32, le16_value, le32_value, le16, le32}
use multiplayer.Wal.Entry.{
  entry_of, WalEntryItem, WalEntryEvent, IsValid, WalEntry, active, parse, serialize, parse_event,
  parse_item, zero_event, zero_item, wal_event, wal_item,
}

module _ (type : ℕ) (id : ByteArray 16) (name : ByteArray 8) (from : ℕ) (rest : List ℕ) where
  parse-serialize_item :
      (item : WalEntryItem) (event : WalEntryEvent)
      → type ≡ 1
      → IsU16 item.gi
      → IsU16 item.flags
      → IsU32 item.key
      → IsU32 item.nonce
      → (serialize (entry_of type id name from item event) >>= λ d. parse (d ++ rest))
        ≡ ok (entry_of type id name from item zero_event)
  unfolding serialize parse parse_item le16 le32
  parse-serialize_item item event h g f k n = rw h (
      simp (
        le16_value item.gi g,
        le16_value item.flags f,
        le32_value item.key k,
        le32_value item.nonce n,
      ))

  parse-serialize_event :
      (item : WalEntryItem) (event : WalEntryEvent)
      → type ≡ 2
      → IsU32 event.id
      → (serialize (entry_of type id name from item event) >>= λ d. parse (d ++ rest))
        ≡ ok (entry_of type id name from zero_item event)
  unfolding serialize parse parse_event le32
  parse-serialize_event item event h i = rw h (simp (le32_value event.id i))

unserializable :
    (e : WalEntry) {d : List ℕ}
    → serialize e ≡ ok d
    → (e.type == wal_item) || (e.type == wal_event) ≡ true
unfolding serialize
unserializable e h = ground arith

-- Parse gives back the entry that Serialize wrote, its unused half zeroed, whatever bytes follow,
-- if the fields of the entry are in the range of their types.
pub parse-serialize :
    (e : WalEntry) (d rest : List ℕ)
    → IsValid e
    → serialize e ≡ ok d
    → parse (d ++ rest) ≡ ok (active e)
parse-serialize e d rest v h = elim (Bool-cases (e.type == wal_item)) [
  | inl t ↦ rw t (
      rw h at (
        parse-serialize_item e.type e.player_id e.player_name e.from rest e.item e.event
          ((==_iff _ _).0 t) v.gi v.flags v.key v.nonce))
  | inr t ↦ elim (Bool-cases (e.type == wal_event)) [
    | inl u ↦ rw t (
        rw h at (
          parse-serialize_event e.type e.player_id e.player_name e.from rest e.item e.event
            ((==_iff _ _).0 u) v.id))
    | inr u ↦ cc (rw (t, u) at (unserializable e h))
  ]
]

-- Serialize writes forty bytes for an item, and thirty for an event.
pub length-serialize :
    (e : WalEntry) {d : List ℕ}
    → serialize e ≡ ok d
    → length d ≡ (if e.type == wal_item then 40 else 30)
unfolding serialize le16 le32
length-serialize e {d} h = elim (Bool-cases (e.type == wal_item)) [
  | inl t ↦ rw t (ap length (ok-injective (sym (rw (t, serialize) at h))))
  | inr t ↦ elim (Bool-cases (e.type == wal_event)) [
    | inl u ↦ rw t (ap length (ok-injective (sym (rw (t, u, serialize) at h))))
    | inr u ↦ absurd (cc (rw (t, u) at (unserializable e h)))
  ]
]
