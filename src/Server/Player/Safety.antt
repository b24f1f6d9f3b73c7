-- ===== src/Server/Player/Safety.antt =====
-- No bytes that a player sends make the server panic or spoil the log.
use multiplayer.Prelude.{All, Result, arith, err, ok, panic, refl, ◌≡◌, ◌≢◌}
use multiplayer.Protocol.Packet.{Packet, ClientPosition, parse_client_position}
use multiplayer.Wal.Entry.{WalEntry, parse}
use multiplayer.Server.Player.{
  acknowledge, after_append, on_entry, on_position, Handled, Player, handle_packet,
}
use multiplayer.Bytes.{IsByte, ByteArray}
use multiplayer.Wal.Log.{append, Wal}
use multiplayer.Wal.Log.Invariant.{append-IsWal, dedup_key-IsStored, IsStored, IsWal}
use multiplayer.File.Laws.{OneFault}
use multiplayer.Wal.Key.{dedup_key}
use multiplayer.Protocol.Packet.Parsing.{parsers-ne-panic}
use multiplayer.Wal.Entry.Parsing.{parse-ne-panic}
use multiplayer.Wal.Log.Parsed.{parse-IsStored, append-ne-panic}

-- A handler that has not panicked, and that leaves a log in good order.
abbrev Safe : Handled → Type 0
Safe h = (h.0 ≢ panic) × IsWal h.1

after_append-Safe :
    (e : WalEntry) (k : ByteArray 16) (o : Result (Unit {0}) × Wal)
    → dedup_key e ≡ ok k
    → o.0 ≢ panic
    → IsWal o.1
    → Safe (after_append e o)
unfolding after_append acknowledge
after_append-Safe e k (ok _, w) h n v = rw h (ground arith, v)
after_append-Safe e k (err x, w) h n v = (ground arith, v)
after_append-Safe e k (panic, w) h n v = absurd (n refl)

on_entry-Safe :
    (r : Result WalEntry) (w : Wal)
    → IsWal w
    → OneFault w.file.outcomes
    → r ≢ panic
    → ((e : WalEntry) → r ≡ ok e → IsStored e)
    → Safe (on_entry r w)
unfolding on_entry
on_entry-Safe (ok e) w v h n s =
    let t = s e refl in
    let (k, q) = dedup_key-IsStored e t in
    after_append-Safe e k (append e w) q (append-ne-panic w e v h t) (append-IsWal w e v h t)
on_entry-Safe (err x) w v h n s = (ground arith, v)
on_entry-Safe panic w v h n s = absurd (n refl)

on_position-Safe :
    (p : Player) (r : Result ClientPosition) (w : Wal)
    → IsWal w
    → r ≢ panic
    → Safe (on_position p r w)
unfolding on_position
on_position-Safe p (ok pos) w v n = (ground arith, v)
on_position-Safe p (err e) w v n = (ground arith, v)
on_position-Safe p panic w v n = absurd (n refl)

-- Whatever packet a player sends, with any code and any bytes, and while at most one of the calls on
-- the log's file fails: handling it does not panic, and the log is in good order afterwards if it was
-- before.
pub handle_packet-IsWal :
    (p : Player) (pkt : Packet) (w : Wal)
    → IsWal w
    → OneFault w.file.outcomes
    → All IsByte pkt.content
    → ((handle_packet p pkt w).0 ≢ panic) × IsWal (handle_packet p pkt w).1
unfolding handle_packet
handle_packet-IsWal p pkt w v h b =
    let (_, _, _, n, _) = parsers-ne-panic pkt.content in
    let wal =
      on_entry-Safe (parse pkt.content) w v h (parse-ne-panic pkt.content)
        (λ e. parse-IsStored pkt.content e b) in
    let position = on_position-Safe p (parse_client_position pkt.content) w v n in
    ground (arith, wal, position, v)
