-- ===== src/Protocol/Packet/Parsing.antt =====
-- Which bytes the parsers of the packets accept.
use multiplayer.Prelude.{List, Bool-cases, arith, inl, inr, panic, ℕ, ◌≢◌}
use multiplayer.Bytes.{shorter}
use multiplayer.Bytes.Laws.{split_shorter}
use multiplayer.Wal.Entry.Parsing.{parse-ne-panic}
use multiplayer.Protocol.Packet.{
  parse_client_hello, parse_client_position, parse_server_hello, parse_server_position,
  parse_server_wal,
}

parse_client_hello-ne-panic : (d : List ℕ) → parse_client_hello d ≢ panic
unfolding parse_client_hello
parse_client_hello-ne-panic d = elim (Bool-cases (shorter d 65)) [
  | inl h ↦ rw h (ground arith)
  | inr h ↦ let (a, r, e) = split_shorter 65 d h in rw e (ground arith)
]

parse_server_hello-ne-panic : (d : List ℕ) → parse_server_hello d ≢ panic
unfolding parse_server_hello
parse_server_hello-ne-panic d = elim (Bool-cases (shorter d 12)) [
  | inl h ↦ rw h (ground arith)
  | inr h ↦ let (a, r, e) = split_shorter 12 d h in rw e (ground arith)
]

parse_server_wal-ne-panic : (d : List ℕ) → parse_server_wal d ≢ panic
unfolding parse_server_wal
parse_server_wal-ne-panic d = elim (Bool-cases (shorter d 4)) [
  | inl h ↦ rw h (ground arith)
  | inr h ↦ let (a, r, e) = split_shorter 4 d h in rw e (ground (arith, parse-ne-panic r))
]

parse_client_position-ne-panic : (d : List ℕ) → parse_client_position d ≢ panic
unfolding parse_client_position
parse_client_position-ne-panic d = elim (Bool-cases (shorter d 8)) [
  | inl h ↦ rw h (ground arith)
  | inr h ↦ let (a, r, e) = split_shorter 8 d h in rw e (ground arith)
]

parse_server_position-ne-panic : (d : List ℕ) → parse_server_position d ≢ panic
unfolding parse_server_position
parse_server_position-ne-panic d = elim (Bool-cases (shorter d 34)) [
  | inl h ↦ rw h (ground arith)
  | inr h ↦ let (a, r, e) = split_shorter 34 d h in rw e (ground arith)
]

-- No packet, whatever bytes it carries, makes a parser of its body panic.
pub parsers-ne-panic :
    (d : List ℕ)
    → (parse_client_hello d ≢ panic)
      × (parse_server_hello d ≢ panic)
      × (parse_server_wal d ≢ panic)
      × (parse_client_position d ≢ panic)
      × (parse_server_position d ≢ panic)
parsers-ne-panic d = (
  parse_client_hello-ne-panic d,
  parse_server_hello-ne-panic d,
  parse_server_wal-ne-panic d,
  parse_client_position-ne-panic d,
  parse_server_position-ne-panic d,
)
