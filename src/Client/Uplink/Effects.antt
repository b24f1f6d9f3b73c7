-- ===== src/Client/Uplink/Effects.antt =====
-- What each kind of packet from the server changes.
use multiplayer.Prelude.{
  inl, inr, Result, [], arith, err, ok, panic, refl, ℕ, ◌≡◌, ◌≢◌, ◌⊎◌, ◌∙◌, List, if_case, not,
  length, ◌==◌,
}
use multiplayer.Protocol.Packet.{
  Packet, ServerPosition, ServerWal, op_wal, op_wal_ack, parse_server_position, parse_server_wal,
}
use multiplayer.Protocol.Packet
use multiplayer.Wal.Entry.{WalEntry}
use multiplayer.Client.Game.{Session, Handled}
use multiplayer.Client.SendQueue.{ack}
use multiplayer.Client.Uplink.{
  after_append, clear_queue, on_server_wal, on_wal_ack, on_server_position, handle_uplink_packet,
}
use multiplayer.Bytes.{bytes, ByteArray}
use multiplayer.Wal.Log.{Wal, append}
use multiplayer.Wal.Key.{dedup_key}

pub uplink_wal :
    (pkt : Packet) (i : ℕ) (e : WalEntry) (s : Session)
    → pkt.op ≡ Packet.op_wal
    → parse_server_wal pkt.content ≡ ok (record { index = i; entry = e })
    → handle_uplink_packet pkt s ≡ after_append e s (append e s.wal)
unfolding handle_uplink_packet on_server_wal
uplink_wal pkt i e s o h = rw o (rw h refl)

pub uplink_ack :
    (pkt : Packet) (k : ByteArray 16) (s : Session)
    → pkt.op ≡ Packet.op_wal_ack
    → pkt.content ≡ bytes 16 k
    → handle_uplink_packet pkt s ≡ (ok [], record s { send_q = ack k s.send_q })
unfolding handle_uplink_packet on_wal_ack
uplink_ack pkt k s o h = rw o (rw h refl)

-- Neither the log nor the queue.
abbrev pub Untouched : Session → Session → Type 0
Untouched s t = (t.wal ≡ s.wal) × (t.send_q ≡ s.send_q)

position-Untouched :
    (r : Result ServerPosition) (s : Session) → Untouched s (on_server_position r s).1
unfolding on_server_position
position-Untouched (ok p) s = (refl, refl)
position-Untouched (err e) s = (refl, refl)
position-Untouched panic s = (refl, refl)

pub uplink_other :
    (pkt : Packet) (s : Session)
    → pkt.op ≢ Packet.op_wal
    → pkt.op ≢ Packet.op_wal_ack
    → Untouched s (handle_uplink_packet pkt s).1
unfolding handle_uplink_packet
uplink_other pkt s a b = ground (arith, position-Untouched (parse_server_position pkt.content) s)

-- An entry whose key is known is cleared from the queue.
pub after_append-ok :
    (e : WalEntry) (k : ByteArray 16) (s : Session) (w : Wal)
    → dedup_key e ≡ ok k
    → after_append e s (ok tt, w) ≡ (ok [], record s { wal = w; send_q = ack k s.send_q })
unfolding after_append clear_queue
after_append-ok e k s w q = rw q refl

-- The queue after an entry of the server: as it was, or without that entry.
pub after_append-send_q :
    (e : WalEntry) (k : ByteArray 16) (s : Session) (r : Result (Unit {0}) × Wal)
    → dedup_key e ≡ ok k
    → ((after_append e s r).1.send_q ≡ s.send_q) ⊎ ((after_append e s r).1.send_q ≡ ack k s.send_q)
unfolding after_append clear_queue
after_append-send_q e k s (ok tt, w) q = inr (rw q refl)
after_append-send_q e k s (err x, w) q = inl refl
after_append-send_q e k s (panic, w) q = inl refl

-- A session of the same player in the same world.
abbrev pub IsSame : Session → Session → Type 0
IsSame s t =
    (t.player_id ≡ s.player_id) × (t.player_name ≡ s.player_name) × (t.world_id ≡ s.world_id)

pub IsSame-trans : (s t u : Session) → IsSame s t → IsSame t u → IsSame s u
IsSame-trans s t u (a, b, c) (d, e, f) = (d ∙ a, e ∙ b, f ∙ c)

same : (s : Session) → IsSame s s
same s = (refl, refl, refl)

clear_queue-IsSame : (r : Result (ByteArray 16)) (s : Session) → IsSame s (clear_queue r s).1
unfolding clear_queue
clear_queue-IsSame (ok k) s = (refl, refl, refl)
clear_queue-IsSame (err e) s = same s
clear_queue-IsSame panic s = same s

after_append-IsSame :
    (e : WalEntry) (s : Session) (r : Result (Unit {0}) × Wal) → IsSame s (after_append e s r).1
unfolding after_append
after_append-IsSame e s (ok x, w) = clear_queue-IsSame (dedup_key e) (record s { wal = w })
after_append-IsSame e s (err x, w) = (refl, refl, refl)
after_append-IsSame e s (panic, w) = (refl, refl, refl)

server_wal-IsSame : (r : Result ServerWal) (s : Session) → IsSame s (on_server_wal r s).1
unfolding on_server_wal
server_wal-IsSame (ok b) s = after_append-IsSame b.entry s (append b.entry s.wal)
server_wal-IsSame (err e) s = same s
server_wal-IsSame panic s = same s

wal_ack-IsSame : (d : List ℕ) (s : Session) → IsSame s (on_wal_ack d s).1
unfolding on_wal_ack
wal_ack-IsSame d s =
    if_case (λ (h : Handled). IsSame s h.1) (not (length d == 16)) (same s) (refl, refl, refl)

server_position-IsSame :
    (r : Result ServerPosition) (s : Session) → IsSame s (on_server_position r s).1
unfolding on_server_position
server_position-IsSame (ok p) s = (refl, refl, refl)
server_position-IsSame (err e) s = same s
server_position-IsSame panic s = same s

-- No packet of the server changes whose session it is.
pub handle_uplink_packet-IsSame :
    (pkt : Packet) (s : Session) → IsSame s (handle_uplink_packet pkt s).1
unfolding handle_uplink_packet
handle_uplink_packet-IsSame pkt s =
    let P = λ (h : Handled). IsSame s h.1 in
    if_case P (pkt.op == Packet.op_nop) (same s) (
      if_case P (pkt.op == Packet.op_wal) (server_wal-IsSame (parse_server_wal pkt.content) s) (
        if_case P (pkt.op == Packet.op_wal_ack) (wal_ack-IsSame pkt.content s) (
          if_case P (pkt.op == Packet.op_position)
            (server_position-IsSame (parse_server_position pkt.content) s) (same s))))
