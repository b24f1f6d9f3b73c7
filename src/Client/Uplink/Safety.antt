-- ===== src/Client/Uplink/Safety.antt =====
-- No packet that the server may send makes the client panic or spoils its log.
use multiplayer.Prelude.{
  All-right, ap, ok-injective, All, Result, arith, err, inl, inr, ok, panic, refl, ◌≡◌, ◌≢◌,
  Bool-cases, List, ℕ, ◌>>=◌,
}
use multiplayer.Protocol.Packet.{
  Packet, ServerWal, parse_server_wal, ServerPosition, parse_server_position,
}
use multiplayer.Wal.Entry.{WalEntry, parse}
use multiplayer.Client.Game.{Session, Handled}
use multiplayer.Client.Uplink.{
  after_append, clear_queue, on_server_wal, on_wal_ack, on_server_position, handle_uplink_packet,
}
use multiplayer.Wal.Log.{append, Wal}
use multiplayer.Wal.Log.Parsed.{append-ne-panic, parse-IsStored}
use multiplayer.Protocol.Packet.Parsing.{parsers-ne-panic}
use multiplayer.Bytes.{shorter, IsByte, ByteArray, bytes}
use multiplayer.Wal.Log.Invariant.{append-IsWal, dedup_key-IsStored, IsStored, IsWal}
use multiplayer.File.Laws.{OneFault}
use multiplayer.Wal.Key.{dedup_key}
use multiplayer.Bytes.Laws.{split_shorter}

-- A handler that has not panicked, and that leaves a log in good order.
abbrev Safe : Handled → Type 0
Safe h = (h.0 ≢ panic) × IsWal h.1.wal

parsed_entry :
    (n : ℕ) (o : Result WalEntry) (x : ServerWal)
    → (do e ← o; ok (record { index = n; entry = e })) ≡ ok x
    → o ≡ ok x.entry
parsed_entry n (ok e) x h = ap (λ (y : ServerWal). ok y.entry) (ok-injective h)
parsed_entry n (err c) x h = absurd (cc)
parsed_entry n panic x h = absurd (cc)

-- The entry of a packet is one that the log may hold.
parse_server_wal-IsStored :
    (d : List ℕ) (x : ServerWal) → All IsByte d → parse_server_wal d ≡ ok x → IsStored x.entry
unfolding parse_server_wal
parse_server_wal-IsStored d x b h = elim (Bool-cases (shorter d 4)) [
  | inl s ↦ absurd (ground (arith, rw s at h))
  | inr s ↦
      let (a, r, e) = split_shorter 4 d s in
      let c = All-right IsByte (bytes 4 a) r (rw e at b) in
      parse-IsStored r x.entry c (parsed_entry _ (parse r) x (rw e at h))
]

after_append-Safe :
    (e : WalEntry) (k : ByteArray 16) (s : Session) (o : Result (Unit {0}) × Wal)
    → dedup_key e ≡ ok k
    → o.0 ≢ panic
    → IsWal o.1
    → Safe (after_append e s o)
unfolding after_append clear_queue
after_append-Safe e k s (ok _, w) h n v = rw h (ground arith, v)
after_append-Safe e k s (err x, w) h n v = (ground arith, v)
after_append-Safe e k s (panic, w) h n v = absurd (n refl)

on_server_wal-Safe :
    (r : Result ServerWal) (s : Session)
    → IsWal s.wal
    → OneFault s.wal.file.outcomes
    → r ≢ panic
    → ((x : ServerWal) → r ≡ ok x → IsStored x.entry)
    → Safe (on_server_wal r s)
unfolding on_server_wal
on_server_wal-Safe (ok x) s v h n i =
    let t = i x refl in
    let (k, q) = dedup_key-IsStored x.entry t in
    after_append-Safe x.entry k s (append x.entry s.wal) q (append-ne-panic s.wal x.entry v h t)
      (append-IsWal s.wal x.entry v h t)
on_server_wal-Safe (err x) s v h n i = (ground arith, v)
on_server_wal-Safe panic s v h n i = absurd (n refl)

on_wal_ack-Safe : (d : List ℕ) (s : Session) → IsWal s.wal → Safe (on_wal_ack d s)
unfolding on_wal_ack
on_wal_ack-Safe d s v = ground (arith, v)

on_server_position-Safe :
    (r : Result ServerPosition) (s : Session)
    → IsWal s.wal
    → r ≢ panic
    → Safe (on_server_position r s)
unfolding on_server_position
on_server_position-Safe (ok p) s v n = (ground arith, v)
on_server_position-Safe (err e) s v n = (ground arith, v)
on_server_position-Safe panic s v n = absurd (n refl)

-- Whatever packet the server sends, with any code and any bytes, and while at most one of the calls on
-- the client's file of the log fails: handling it does not panic, and the client's log is in good order
-- afterwards if it was before.
pub handle_uplink_packet-IsWal :
    (pkt : Packet) (s : Session)
    → IsWal s.wal
    → OneFault s.wal.file.outcomes
    → All IsByte pkt.content
    → ((handle_uplink_packet pkt s).0 ≢ panic) × IsWal (handle_uplink_packet pkt s).1.wal
unfolding handle_uplink_packet
handle_uplink_packet-IsWal pkt s v h b =
    let (_, _, m, _, n) = parsers-ne-panic pkt.content in
    let wal =
      on_server_wal-Safe (parse_server_wal pkt.content) s v h m
        (λ x. parse_server_wal-IsStored pkt.content x b) in
    let ack = on_wal_ack-Safe pkt.content s v in
    let position = on_server_position-Safe (parse_server_position pkt.content) s v n in
    ground (arith, wal, ack, position, v)
