-- ===== src/World/Receiving.antt =====
-- The server takes in what a client sends.
use multiplayer.Prelude.{
  All, Error, List, Result, [], ap, err, none, ok, ok-injective, panic, refl, some, subst, sym,
  true, ℕ, ◌++◌, ◌==◌, ◌∷◌, ◌≡◌, if_case,
}
use multiplayer.Protocol.Packet.{Packet, ClientPosition, parse_client_position}
use multiplayer.Protocol.Packet
use multiplayer.Wal.Entry.{WalEntry, parse}
use multiplayer.Wal.Log.Memory.{
  IsMemory, Further, Appended, known, grown, failed, crashed, append-Appended, append-IsMemory,
  same-Further, with_entry,
}
use multiplayer.Server.Player.{
  Player, Handled, acknowledge, after_append, on_entry, on_position, handle_packet,
  handle_position_update, Sent,
}
use multiplayer.World.{Link, World, received, answers, HasRoom}
use multiplayer.World.Flight.{Flight, acked, landed, Flight-behind}
use multiplayer.World.Consistent.{IsLinked, IsConsistent, longer-IsConsistent, link-IsConsistent}
use multiplayer.Bytes.{ByteArray, IsByte}
use multiplayer.Wal.Log.{append, contains, remember, Wal}
use multiplayer.Wal.Log.Parsed.{parse-IsStored}
use multiplayer.Wal.Key.{dedup_key}
use multiplayer.Wal.Log.Invariant.{dedup_key-IsStored}
use multiplayer.Wal.Log.Keys.{contains-snoc_self}

-- The log has gone on, and the answers to the player acknowledge only what it knows.
pub record Answered (w : Wal) (h : Handled) : Type 0 where
  pub memory : IsMemory h.1
  pub further : Further w h.1
  pub acks : (l : List Sent) → h.0 ≡ ok l → Flight h.1.set (answers l) []

-- A handler that has sent its player nothing, on a log that is the same in memory.
nothing_sent :
    (w v : Wal) (r : Result (List Sent))
    → IsMemory v
    → Further w v
    → ((l : List Sent) → r ≡ ok l → answers l ≡ [])
    → Answered w (r, v)
nothing_sent w v r m f n = record { memory = m; further = f; acks = λ l h. rw (n l h) landed }

no_answer : (w v : Wal) (x : Error) → IsMemory v → Further w v → Answered w (err x, v)
no_answer w v x m f = nothing_sent w v (err x) m f (λ l h. absurd (cc))

ack-Answered :
    (w v : Wal) (e : WalEntry) (k : ByteArray 16)
    → dedup_key e ≡ ok k
    → contains k v.set ≡ true
    → IsMemory v
    → Further w v
    → Answered w (after_append e (ok tt, v))
unfolding after_append acknowledge answers
ack-Answered w v e k d c m f = rw d (record {
  memory = m;
  further = f;
  acks = λ l h.
      let q = ok-injective h in
      subst (λ x. Flight v.set (answers x) []) q (acked _ k [] [] refl refl c landed);
})

after_append-Answered :
    (w : Wal) (e : WalEntry) (k : ByteArray 16) (r : Result (Unit {0}) × Wal)
    → dedup_key e ≡ ok k
    → Appended w e k r
    → IsMemory r.1
    → Further w r.1
    → Answered w (after_append e r)
unfolding after_append remember
after_append-Answered w e k _ d (known c) m f = ack-Answered w w e k d c m f
after_append-Answered w e k _ d (grown g c) m f =
    ack-Answered w (with_entry w e k g) e k d (contains-snoc_self k w.set) m f
after_append-Answered w e k _ d (failed x g c) m f = no_answer w (record w { file = g }) x m f
after_append-Answered w e k _ d (crashed g c) m f =
    nothing_sent w (record w { file = g }) panic m f (λ l h. absurd (cc))

on_entry-Answered :
    (w : Wal) (d : List ℕ) (r : Result WalEntry)
    → IsMemory w
    → HasRoom w
    → All IsByte d
    → parse d ≡ r
    → Answered w (on_entry r w)
unfolding on_entry
on_entry-Answered w d (ok e) m l b p =
    let s = parse-IsStored d e b p in
    let (k, q) = dedup_key-IsStored e s in
    let (n, f) = append-IsMemory w e m s l in
    after_append-Answered w e k (append e w) q (append-Appended w e k s q) n f
on_entry-Answered w d (err x) m l b p = no_answer w w x m (same-Further w w refl refl)
on_entry-Answered w d panic m l b p =
    nothing_sent w w panic m (same-Further w w refl refl) (λ l h. absurd (cc))

on_position-Answered :
    (w : Wal) (p : Player) (r : Result ClientPosition) → IsMemory w → Answered w (on_position p r w)
unfolding on_position handle_position_update answers
on_position-Answered w p (ok pos) m =
    nothing_sent w w (ok (handle_position_update p pos)) m (same-Further w w refl refl)
      (λ l h. ap answers (sym (ok-injective h)))
on_position-Answered w p (err x) m = no_answer w w x m (same-Further w w refl refl)
on_position-Answered w p panic m =
    nothing_sent w w panic m (same-Further w w refl refl) (λ l h. absurd (cc))

ignored : (w : Wal) → IsMemory w → Answered w (ok [], w)
unfolding answers
ignored w m =
    nothing_sent w w (ok []) m (same-Further w w refl refl)
      (λ l h. ap answers (sym (ok-injective h)))

pub handle_packet-Answered :
    (w : Wal) (p : Player) (pkt : Packet)
    → IsMemory w
    → HasRoom w
    → All IsByte pkt.content
    → Answered w (handle_packet p pkt w)
unfolding handle_packet
handle_packet-Answered w p pkt m l b =
    if_case (Answered w) (pkt.op == Packet.op_nop) (ignored w m) (
      if_case (Answered w) (pkt.op == Packet.op_wal)
        (on_entry-Answered w pkt.content (parse pkt.content) m l b refl)
        (if_case (Answered w) (pkt.op == Packet.op_position)
          (on_position-Answered w p (parse_client_position pkt.content) m) (ignored w m)))

taken-IsConsistent :
    (w : World) (l : Link) (up : List Packet) (h : Handled)
    → IsConsistent w
    → w.link ≡ some l
    → IsLinked w.server w.client.wal l
    → All (λ p. All IsByte p.content) up
    → Answered w.server h
    → IsConsistent (received w l up h)
unfolding received
taken-IsConsistent w l up (ok sent, s) v q h u a =
    let x = longer-IsConsistent w s v a.memory a.further in
    let g = rw q at x.link in
    link-IsConsistent (record w { server = s })
      (some (record l { down = l.down ++ answers sent; up = up })) x
      (record {
        flight = g.flight;
        ahead = g.ahead;
        entries = g.entries;
        down = Flight-behind g.down (a.acks sent refl);
        stream = g.stream;
        index = g.index;
        up = u;
      })
taken-IsConsistent w l up (err e, s) v q h u a =
    link-IsConsistent (record w { server = s }) none (longer-IsConsistent w s v a.memory a.further)
      tt
taken-IsConsistent w l up (panic, s) v q h u a =
    link-IsConsistent (record w { server = s }) none (longer-IsConsistent w s v a.memory a.further)
      tt

pub received-IsConsistent :
    (w : World) (l : Link) (p : Packet) (up : List Packet) (player : Player)
    → IsConsistent w
    → w.link ≡ some l
    → IsLinked w.server w.client.wal l
    → l.up ≡ p ∷ up
    → HasRoom w.server
    → IsConsistent (received w l up (handle_packet player p w.server))
received-IsConsistent w l p up player v q h e r =
    let u = rw e at h.up in
    taken-IsConsistent w l up (handle_packet player p w.server) v q h u.1
      (handle_packet-Answered w.server player p v.server r u.0)
