-- ===== src/Server/Player/Acks.antt =====
-- What an acknowledgement of the server promises.
use multiplayer.Prelude.{List, Result, [], err, ok, panic, refl, true, ◌∷◌, ◌≡◌}
use multiplayer.Protocol.Packet.{Packet, op_wal, op_wal_ack}
use multiplayer.Protocol.Packet
use multiplayer.Wal.Entry.{WalEntry, parse}
use multiplayer.Server.Player.{
  acknowledge, after_append, on_entry, Player, Sent, handle_packet, to_player,
}
use multiplayer.Bytes.{bytes, ByteArray}
use multiplayer.Wal.Log.{contains, append, Wal}
use multiplayer.Wal.Key.{dedup_key}
use multiplayer.Wal.Log.Keys.{contains-append_ok}

abbrev pub ack_packet : ByteArray 16 → Packet
ack_packet k = record { op = Packet.op_wal_ack; content = bytes 16 k }

acknowledge-ok :
    (r : Result (ByteArray 16)) (w w' : Wal) (l : List Sent)
    → acknowledge r w ≡ (ok l, w')
    → (k : ByteArray 16) × (r ≡ ok k) × (l ≡ to_player (ack_packet k) ∷ []) × (w ≡ w')
unfolding acknowledge
acknowledge-ok (ok k) w w' l h = (k, refl, cc, cc)
acknowledge-ok (err e) w w' l h = absurd (cc)
acknowledge-ok panic w w' l h = absurd (cc)

after_append-ok :
    (e : WalEntry) (v w' : Wal) (o : Result (Unit {0}) × Wal) (l : List Sent)
    → append e v ≡ o
    → after_append e o ≡ (ok l, w')
    → (k : ByteArray 16) × (dedup_key e ≡ ok k)
      × (l ≡ to_player (ack_packet k) ∷ [])
      × (contains k w'.set ≡ true)
unfolding after_append
after_append-ok e v w' (ok _, w) l a h =
    let (k, p, q, r) = acknowledge-ok (dedup_key e) w w' l h in
    (k, p, q, rw r at (contains-append_ok v w e k a p))
after_append-ok e v w' (err x, w) l a h = absurd (cc)
after_append-ok e v w' (panic, w) l a h = absurd (cc)

on_entry-ok :
    (r : Result WalEntry) (w w' : Wal) (l : List Sent)
    → on_entry r w ≡ (ok l, w')
    → (e : WalEntry) × (k : ByteArray 16) × (r ≡ ok e)
      × (dedup_key e ≡ ok k)
      × (l ≡ to_player (ack_packet k) ∷ [])
      × (contains k w'.set ≡ true)
unfolding on_entry
on_entry-ok (ok e) w w' l h =
    let (k, p, q, r) = after_append-ok e w w' (append e w) l refl h in (e, k, refl, p, q, r)
on_entry-ok (err x) w w' l h = absurd (cc)
on_entry-ok panic w w' l h = absurd (cc)

-- When the server has handled a packet WAL without an error, the packet carried an entry, the key of
-- that entry is in the set of the log, and the one thing sent is an acknowledgement of that key to
-- the player itself.
pub handle_packet-wal :
    (p : Player) (pkt : Packet) (w w' : Wal) (l : List Sent)
    → pkt.op ≡ Packet.op_wal
    → handle_packet p pkt w ≡ (ok l, w')
    → (e : WalEntry) × (k : ByteArray 16) × (parse pkt.content ≡ ok e)
      × (dedup_key e ≡ ok k)
      × (l ≡ to_player (ack_packet k) ∷ [])
      × (contains k w'.set ≡ true)
unfolding handle_packet
handle_packet-wal p pkt w w' l o h = on_entry-ok (parse pkt.content) w w' l (rw o at h)
