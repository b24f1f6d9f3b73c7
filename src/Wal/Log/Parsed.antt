-- ===== src/Wal/Log/Parsed.antt =====
-- What Parse returns is an entry that the log may hold.
use multiplayer.Prelude.{
  All, All-drop, All-take, List, arith, drop, inl, ok, ok-injective, refl, subst, ℕ, ◌++◌, ◌≡◌, inr,
  panic, ◌≢◌,
}
use multiplayer.Wal.Entry.{WalEntry, parse, parse_item, wal_item, parse_event, wal_event}
use multiplayer.Bytes.{bytes, IsByte, ByteArray, index}
use multiplayer.File.Laws.{OneFault}
use multiplayer.Wal.Log.Invariant.{
  IsStored, append_cases, serialize-IsStored, dedup_key-IsStored, IsWal,
}
use multiplayer.Wal.Entry.Parsing.{parse-ok_cases}
use multiplayer.Bytes.Laws.{split_shorter}
use multiplayer.Wal.Log.{append, Wal}

item-IsStored :
    (a : ByteArray 40) (r : List ℕ) (e : WalEntry)
    → All IsByte (bytes 40 a)
    → a.0 ≡ wal_item
    → parse (bytes 40 a ++ r) ≡ ok e
    → IsStored e
unfolding parse parse_item
item-IsStored a r e v t h =
    let x = All-drop IsByte 25 (bytes 40 a) v in
    subst IsStored (ok-injective (rw t at h)) (record {
      valid = record {
        player_id = All-take IsByte 16 (drop 1 (bytes 40 a)) v.1;
        player_name = All-take IsByte 8 (drop 17 (bytes 40 a)) (All-drop IsByte 17 (bytes 40 a) v);
        type = omega arith;
        from = x.0;
        to = x.1.0;
        game = x.1.1.0;
        gi = omega (arith, x.1.1.1.0, x.1.1.1.1.0);
        flags = omega (arith, x.1.1.1.1.1.0, x.1.1.1.1.1.1.0);
        key = omega (
          arith, x.1.1.1.1.1.1.1.0, x.1.1.1.1.1.1.1.1.0, x.1.1.1.1.1.1.1.1.1.0,
          x.1.1.1.1.1.1.1.1.1.1.0,
        );
        nonce = omega (
          arith, x.1.1.1.1.1.1.1.1.1.1.1.0, x.1.1.1.1.1.1.1.1.1.1.1.1.0,
          x.1.1.1.1.1.1.1.1.1.1.1.1.1.0, x.1.1.1.1.1.1.1.1.1.1.1.1.1.1.0,
        );
        id = omega arith;
      };
      typed = inl refl;
      is_active = refl;
    })

event-IsStored :
    (a : ByteArray 30) (r : List ℕ) (e : WalEntry)
    → All IsByte (bytes 30 a)
    → a.0 ≡ wal_event
    → parse (bytes 30 a ++ r) ≡ ok e
    → IsStored e
unfolding parse parse_event
event-IsStored a r e v t h =
    let x = All-drop IsByte 25 (bytes 30 a) v in
    subst IsStored (ok-injective (rw t at h)) (record {
      valid = record {
        player_id = All-take IsByte 16 (drop 1 (bytes 30 a)) v.1;
        player_name = All-take IsByte 8 (drop 17 (bytes 30 a)) (All-drop IsByte 17 (bytes 30 a) v);
        type = omega arith;
        from = x.0;
        to = omega arith;
        game = omega arith;
        gi = omega arith;
        flags = omega arith;
        key = omega arith;
        nonce = omega arith;
        id = omega (arith, x.1.0, x.1.1.0, x.1.1.1.0, x.1.1.1.1.0);
      };
      typed = inr refl;
      is_active = refl;
    })

-- An entry that Parse accepts from bytes has its fields in range, a known type, and zeros in the half
-- that its type does not use.
pub parse-IsStored : (d : List ℕ) (e : WalEntry) → All IsByte d → parse d ≡ ok e → IsStored e
unfolding index
parse-IsStored d e v h = elim (parse-ok_cases d e h) [
  | inl (t, i, l) ↦
      let (a, r, q) = split_shorter 40 d l in
      item-IsStored a r e (All-take IsByte 40 (bytes 40 a ++ r) (rw q at v)) (cc (rw q at i))
        (rw q at h)
  | inr (t, i, l) ↦
      let (a, r, q) = split_shorter 30 d l in
      event-IsStored a r e (All-take IsByte 30 (bytes 30 a ++ r) (rw q at v)) (cc (rw q at i))
        (rw q at h)
]

-- An entry that the log may hold does not make Append panic.
pub append-ne-panic :
    (w : Wal) (e : WalEntry)
    → IsWal w
    → OneFault w.file.outcomes
    → IsStored e
    → (append e w).0 ≢ panic
append-ne-panic w e v h s =
    let (d, q) = serialize-IsStored e s in
    let (k, t) = dedup_key-IsStored e s in
    elim (append_cases w e d k v h q t) [
      | inl (c, r) ↦ rw r (ground arith)
      | inr (inl (c, os, r, f)) ↦ rw r (ground arith)
      | inr (inr (c, r)) ↦ rw r (ground arith)
    ]
