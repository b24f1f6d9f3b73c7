-- ===== src/Wal/Entry/Parsing.antt =====
-- Which bytes Parse accepts, and what Serialize makes of an entry that was parsed.
use multiplayer.Prelude.{
  All, List, if◌then◌else◌, ok, panic, take, ℕ, ◌==◌, ◌≡◌, ◌≢◌, Bool-cases, arith, inl, inr, ◌++◌,
  false, All-drop, ◌>>=◌, ◌⊎◌, err, event_too_short, item_too_short, true, ==_iff, All-take,
  too_short,
}
use multiplayer.Bytes.{IsByte, bytes, shorter, index, ByteArray}
use multiplayer.Bytes.Laws.{split_shorter}
use multiplayer.Bytes.Words.{le16_digits, le32_digits}
use multiplayer.Wal.Entry.{WalEntry, parse, serialize, wal_item, parse_event, parse_item, wal_event}

parse_item-ne-panic : (d : List ℕ) → parse_item d ≢ panic
unfolding parse_item
parse_item-ne-panic d = elim (Bool-cases (shorter d 40)) [
  | inl h ↦ rw h (ground arith)
  | inr h ↦ let (a, r, e) = split_shorter 40 d h in rw e (ground arith)
]

parse_event-ne-panic : (d : List ℕ) → parse_event d ≢ panic
unfolding parse_event
parse_event-ne-panic d = elim (Bool-cases (shorter d 30)) [
  | inl h ↦ rw h (ground arith)
  | inr h ↦ let (a, r, e) = split_shorter 30 d h in rw e (ground arith)
]

-- Parse does not panic, whatever the bytes.
pub parse-ne-panic : (d : List ℕ) → parse d ≢ panic
unfolding parse
parse-ne-panic d = elim (Bool-cases (shorter d 26)) [
  | inl h ↦ rw h (ground arith)
  | inr h ↦
      let (a, r, e) = split_shorter 26 d h in
      rw e (
        ground
          (arith, parse_item-ne-panic (bytes 26 a ++ r), parse_event-ne-panic (bytes 26 a ++ r)))
]

parse_short : (d : List ℕ) → shorter d 26 ≡ true → parse d ≡ err too_short
unfolding parse
parse_short d h = rw h

parse_item_short : (d : List ℕ) → shorter d 40 ≡ true → parse_item d ≡ err item_too_short
unfolding parse_item
parse_item_short d h = rw h

parse_event_short : (d : List ℕ) → shorter d 30 ≡ true → parse_event d ≡ err event_too_short
unfolding parse_event
parse_event_short d h = rw h

parse_long_cases :
    (a : ByteArray 26) (r : List ℕ) (e : WalEntry)
    → parse (bytes 26 a ++ r) ≡ ok e
    → ((e.type ≡ wal_item) × (a.0 ≡ wal_item) × (shorter (bytes 26 a ++ r) 40 ≡ false))
      ⊎ ((e.type ≡ wal_event) × (a.0 ≡ wal_event) × (shorter (bytes 26 a ++ r) 30 ≡ false))
unfolding parse
parse_long_cases a r e h =
    ground (arith, parse_item_short (bytes 26 a ++ r), parse_event_short (bytes 26 a ++ r))

-- Bytes that Parse accepts begin with a known type, and are long enough for it.
pub parse-ok_cases :
    (d : List ℕ) (e : WalEntry)
    → parse d ≡ ok e
    → ((e.type ≡ wal_item) × (index d 0 ≡ ok wal_item) × (shorter d 40 ≡ false))
      ⊎ ((e.type ≡ wal_event) × (index d 0 ≡ ok wal_event) × (shorter d 30 ≡ false))
unfolding index
parse-ok_cases d e h = elim (Bool-cases (shorter d 26)) [
  | inl s ↦ cc (parse_short d s)
  | inr s ↦
      let (a, r, q) = split_shorter 26 d s in
      rw q (ground (arith, parse_long_cases a r e (rw q at h)))
]

-- What Parse makes of forty bytes that begin with WalItem, Serialize turns into them again.
serialize-parse_item :
    (a : ByteArray 40) (r : List ℕ)
    → All IsByte (bytes 40 a)
    → a.0 ≡ wal_item
    → (parse (bytes 40 a ++ r) >>= serialize) ≡ ok (bytes 40 a)
unfolding serialize parse parse_item
serialize-parse_item a r v t =
    let w = All-drop IsByte 28 (bytes 40 a) v in
    rw t (
      simp (
        le16_digits _ _ w.0 w.1.0,
        le16_digits _ _ w.1.1.0 w.1.1.1.0,
        le32_digits _ _ _ _ w.1.1.1.1.0 w.1.1.1.1.1.0 w.1.1.1.1.1.1.0 w.1.1.1.1.1.1.1.0,
        le32_digits _ _ _ _ w.1.1.1.1.1.1.1.1.0 w.1.1.1.1.1.1.1.1.1.0 w.1.1.1.1.1.1.1.1.1.1.0
            w.1.1.1.1.1.1.1.1.1.1.1.0,
      ))

serialize-parse_event :
    (a : ByteArray 30) (r : List ℕ)
    → All IsByte (bytes 30 a)
    → a.0 ≡ wal_event
    → (parse (bytes 30 a ++ r) >>= serialize) ≡ ok (bytes 30 a)
unfolding serialize parse parse_event
serialize-parse_event a r v t =
    let w = All-drop IsByte 26 (bytes 30 a) v in
    rw t (simp (le32_digits _ _ _ _ w.0 w.1.0 w.1.1.0 w.1.1.1.0))

module _ (d : List ℕ) (e : WalEntry) (v : All IsByte d) (h : parse d ≡ ok e) where
  serialize_long_item :
      index d 0 ≡ ok wal_item → shorter d 40 ≡ false → serialize e ≡ ok (take 40 d)
  unfolding index
  serialize_long_item t l =
      let (a, r, q) = split_shorter 40 d l in
      rw q (
        rw (rw q at h) at (
          serialize-parse_item a r (All-take IsByte 40 (bytes 40 a ++ r) (rw q at v))
            (cc (rw q at t))))

  serialize_long_event :
      index d 0 ≡ ok wal_event → shorter d 30 ≡ false → serialize e ≡ ok (take 30 d)
  unfolding index
  serialize_long_event t l =
      let (a, r, q) = split_shorter 30 d l in
      rw q (
        rw (rw q at h) at (
          serialize-parse_event a r (All-take IsByte 30 (bytes 30 a ++ r) (rw q at v))
            (cc (rw q at t))))

event_not_item : (t : ℕ) → t ≡ wal_event → (t == wal_item) ≡ false
event_not_item t h = ground arith

-- Serialize gives back the bytes from which an entry was parsed, as many as its type takes.
pub serialize-parse :
    (d : List ℕ) (e : WalEntry)
    → All IsByte d
    → parse d ≡ ok e
    → serialize e ≡ ok (take (if e.type == wal_item then 40 else 30) d)
serialize-parse d e v h = elim (parse-ok_cases d e h) [
  | inl (t, i, l) ↦ rw ((==_iff _ _).1 t) (serialize_long_item d e v h i l)
  | inr (t, i, l) ↦
      let n : e.type ≡ wal_event = t in
      rw (event_not_item e.type n) (serialize_long_event d e v h i l)
]
