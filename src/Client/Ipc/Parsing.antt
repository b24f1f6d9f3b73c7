-- ===== src/Client/Ipc/Parsing.antt =====
-- Which bytes the parsers of the game's messages accept.
use multiplayer.Prelude.{
  Bool-cases, List, arith, inl, inr, length, panic, ℕ, ◌↔◌, ◌≡◌, ◌≢◌, [], ◌++◌, ◌∷◌,
}
use multiplayer.Client.Ipc.{
  parse_position_in, parse_wal_item, parse_info_item, parse_wal_event, parse_info_entrance,
  parse_wal_in, parse_hello_in, parse_message,
}
use multiplayer.Bytes.{shorter, ByteArray, bytes}
use multiplayer.Bytes.Laws.{split_shorter, shorter-eq-ltb}

parse_message-ne-panic : (d : List ℕ) → parse_message d ≢ panic
unfolding parse_message
parse_message-ne-panic d = elim (Bool-cases (shorter d 5)) [
  | inl h ↦ rw h (ground arith)
  | inr h ↦ let (a, r, e) = split_shorter 5 d h in rw e (ground arith)
]

parse_position_in-ne-panic : (d : List ℕ) → parse_position_in d ≢ panic
unfolding parse_position_in
parse_position_in-ne-panic d = elim (Bool-cases (shorter d 8)) [
  | inl h ↦ rw h (ground arith)
  | inr h ↦ let (a, r, e) = split_shorter 8 d h in rw e (ground arith)
]

parse_hello_in-ne-panic : (d : List ℕ) → parse_hello_in d ≢ panic
unfolding parse_hello_in
parse_hello_in-ne-panic d = elim (Bool-cases (shorter d 57)) [
  | inl h ↦ rw h (ground arith)
  | inr h ↦ let (a, r, e) = split_shorter 57 d h in rw e (ground arith)
]

parse_wal_in-ne-panic : (d : List ℕ) → parse_wal_in d ≢ panic
unfolding parse_wal_in
parse_wal_in-ne-panic d = elim (Bool-cases (shorter d 5)) [
  | inl h ↦ rw h (ground arith)
  | inr h ↦ let (a, r, e) = split_shorter 5 d h in rw e (ground arith)
]

parse_wal_item-ne-panic : (d : List ℕ) → parse_wal_item d ≢ panic
unfolding parse_wal_item
parse_wal_item-ne-panic d = elim (Bool-cases (shorter d 10)) [
  | inl h ↦ rw h (ground arith)
  | inr h ↦ let (a, r, e) = split_shorter 10 d h in rw e (ground arith)
]

parse_wal_event-ne-panic : (d : List ℕ) → parse_wal_event d ≢ panic
unfolding parse_wal_event
parse_wal_event-ne-panic d = elim (Bool-cases (shorter d 4)) [
  | inl h ↦ rw h (ground arith)
  | inr h ↦ let (a, r, e) = split_shorter 4 d h in rw e (ground arith)
]

parse_info_entrance-ne-panic : (d : List ℕ) → parse_info_entrance d ≢ panic
unfolding parse_info_entrance
parse_info_entrance-ne-panic d = elim (Bool-cases (shorter d 9)) [
  | inl h ↦ rw h (ground arith)
  | inr h ↦ let (a, r, e) = split_shorter 9 d h in rw e (ground arith)
]

-- No message of the game makes the parser of the message panic, nor that of its body, whatever the
-- bytes; the one for INFO_ITEM is not among them.
pub message_parsers-ne-panic :
    (d : List ℕ)
    → (parse_message d ≢ panic)
      × (parse_position_in d ≢ panic)
      × (parse_hello_in d ≢ panic)
      × (parse_wal_in d ≢ panic)
      × (parse_wal_item d ≢ panic)
      × (parse_wal_event d ≢ panic)
      × (parse_info_entrance d ≢ panic)
message_parsers-ne-panic d = (
  parse_message-ne-panic d,
  parse_position_in-ne-panic d,
  parse_hello_in-ne-panic d,
  parse_wal_in-ne-panic d,
  parse_wal_item-ne-panic d,
  parse_wal_event-ne-panic d,
  parse_info_entrance-ne-panic d,
)

parse_info_item-split :
    (a : ByteArray 6) (r : List ℕ)
    → (parse_info_item (bytes 6 a ++ r) ≡ panic) ↔ (length (bytes 6 a ++ r) ≡ 6)
unfolding parse_info_item
parse_info_item-split a [] = ground arith
parse_info_item-split a (x ∷ r) = ground arith

-- The parser of INFO_ITEM panics on the bodies of six bytes, and on no others.
pub parse_info_item-panic_iff : (d : List ℕ) → (parse_info_item d ≡ panic) ↔ (length d ≡ 6)
unfolding parse_info_item
parse_info_item-panic_iff d = elim (Bool-cases (shorter d 6)) [
  | inl h ↦ rw h (ground (arith, shorter-eq-ltb d 6))
  | inr h ↦ let (a, r, e) = split_shorter 6 d h in rw e (parse_info_item-split a r)
]
