-- ===== src/World/Delivery.antt =====
-- A client takes in what is on its way.
use multiplayer.Prelude.{
  All, List, [], arith, err, false, length, length-append, none, ok, panic, some, suc, ◌++◌, ◌+◌,
  ◌∙◌, ◌∷◌, ◌≡◌, All-right, Result, ap, append_assoc, refl, sym, ◌-◌, ◌<◌, ◌^◌,
}
use multiplayer.Protocol.Packet.{Packet}
use multiplayer.Wal.Entry.{WalEntry}
use multiplayer.Client.SendQueue.{ack, SendQueue}
use multiplayer.Wal.Log.Memory.{
  Appended, known, grown, failed, crashed, same-IsMemory, with_entry, with_entry-IsMemory,
  append-Appended,
}
use multiplayer.Wal.Log.Prefixes.{contains-next}
use multiplayer.Client.Game.{Handled}
use multiplayer.World.{Link, World, delivered}
use multiplayer.World.Flight.{Flight, acked, entry, other}
use multiplayer.World.Consistent.{IsLinked, IsConsistent, client-IsConsistent, link-IsConsistent}
use multiplayer.Bytes.{ByteArray, IsByte}
use multiplayer.File.{File}
use multiplayer.Client.Uplink.{handle_uplink_packet, after_append}
use multiplayer.Wal.Log.{contains, append, Wal, remember}
use multiplayer.Wal.Log.Invariant.{dedup_key-IsStored, IsStored}
use multiplayer.Client.Uplink.Effects.{uplink_ack, uplink_wal, after_append-ok, uplink_other}
use multiplayer.Wal.Key.{dedup_key}

-- A handler that has left the log as it was.
delivered_same :
    (w : World) (l : Link) (down : List Packet) (r : Handled)
    → IsConsistent w
    → IsLinked w.server w.client.wal (record l { down = down })
    → r.1.wal ≡ w.client.wal
    → IsConsistent (delivered w l down r)
unfolding delivered
delivered_same w l down (ok sent, s) v h q =
    client-IsConsistent (record w { link = some (record l { down = down }) }) s
      (link-IsConsistent w (some (record l { down = down })) v h) q
delivered_same w l down (err e, s) v h q =
    client-IsConsistent (record w { link = none }) s (link-IsConsistent w none v tt) q
delivered_same w l down (panic, s) v h q =
    client-IsConsistent (record w { link = none }) s (link-IsConsistent w none v tt) q

-- A handler that has failed with the log as it was in memory.
failed-IsConsistent :
    (w : World) (f : File)
    → IsConsistent w
    → IsConsistent (record w {
      client = record w.client { wal = record w.client.wal { file = f } };
      link = none;
    })
failed-IsConsistent w f v = record {
  server = v.server;
  client = same-IsMemory w.client.wal f v.client;
  rest = v.rest;
  prefix = v.prefix;
  link = tt;
}

-- The entry that was first in flight is in the client's log.
grown-IsConsistent :
    (w : World) (l : Link) (down : List Packet) (e : WalEntry) (k : ByteArray 16) (f : File)
    (q : SendQueue) (es rest : List WalEntry)
    → IsConsistent w
    → IsStored e
    → dedup_key e ≡ ok k
    → contains k w.client.wal.set ≡ false
    → w.server.entries ≡ w.client.wal.entries ++ (e ∷ es) ++ rest
    → Flight w.server.set down es
    → l.feed.stream.index ≡ length w.client.wal.entries + suc (length es)
    → l.feed.wal_index ≡ length w.client.wal.entries + suc (length es)
    → All (λ p. All IsByte p.content) l.up
    → IsConsistent (record w {
      client = record w.client { wal = with_entry w.client.wal e k f; send_q = q };
      link = some (record l { down = down });
    })
unfolding remember
grown-IsConsistent w l down e k f q es rest v s d c h g i j u =
    let n = length-append w.client.wal.entries (e ∷ []) in
    let entries : w.server.entries ≡ w.client.wal.entries ++ (e ∷ []) ++ es ++ rest =
      h
      ∙ ap (λ (x : List WalEntry). x ++ rest)
          (sym (append_assoc w.client.wal.entries (e ∷ []) es)) in
    let room : length w.client.wal.entries < 2 ^ 32 - 1 = omega (
      arith,
      v.server.small,
      ap length h,
      length-append (w.client.wal.entries ++ (e ∷ es)) rest,
      length-append w.client.wal.entries (e ∷ es),
    ) in
    record {
      server = v.server;
      client = with_entry-IsMemory w.client.wal e k f v.client s d c room;
      rest = es ++ rest;
      prefix = entries ∙ append_assoc (w.client.wal.entries ++ e ∷ []) es rest;
      link = record {
        flight = es;
        ahead = rest;
        entries = entries;
        down = g;
        stream = omega (arith, i, n);
        index = omega (arith, j, n);
        up = u;
      };
    }

-- The packet of an entry, by what Append comes to.
appended-IsConsistent :
    (w : World) (l : Link) (down : List Packet) (e : WalEntry) (k : ByteArray 16)
    (es rest : List WalEntry) (r : Result (Unit {0}) × Wal)
    → IsConsistent w
    → IsStored e
    → dedup_key e ≡ ok k
    → contains k w.client.wal.set ≡ false
    → w.server.entries ≡ w.client.wal.entries ++ (e ∷ es) ++ rest
    → Flight w.server.set down es
    → l.feed.stream.index ≡ length w.client.wal.entries + suc (length es)
    → l.feed.wal_index ≡ length w.client.wal.entries + suc (length es)
    → All (λ p. All IsByte p.content) l.up
    → Appended w.client.wal e k r
    → IsConsistent (delivered w l down (after_append e w.client r))
unfolding delivered after_append
appended-IsConsistent w l down e k es rest _ v s d c h g i j u (known x) = absurd (cc)
appended-IsConsistent w l down e k es rest _ v s d c h g i j u (grown f x) =
    rw (after_append-ok e k w.client (with_entry w.client.wal e k f) d)
      (grown-IsConsistent w l down e k f (ack k w.client.send_q) es rest v s d c h g i j u)
appended-IsConsistent w l down e k es rest _ v s d c h g i j u (failed x f n) =
    failed-IsConsistent w f v
appended-IsConsistent w l down e k es rest _ v s d c h g i j u (crashed f n) =
    failed-IsConsistent w f v

-- A packet of any kind.
flight-IsConsistent :
    (w : World) (l : Link) (p : Packet) (down : List Packet) (es rest : List WalEntry)
    → IsConsistent w
    → w.server.entries ≡ w.client.wal.entries ++ es ++ rest
    → l.feed.stream.index ≡ length w.client.wal.entries + length es
    → l.feed.wal_index ≡ length w.client.wal.entries + length es
    → All (λ p. All IsByte p.content) l.up
    → Flight w.server.set (p ∷ down) es
    → IsConsistent (delivered w l down (handle_uplink_packet p w.client))
flight-IsConsistent w l p down _ rest v h i j u (entry _ n e _ es o c g) =
    let s =
      All-right IsStored w.client.wal.entries (e ∷ es ++ rest)
        (rw (h ∙ append_assoc w.client.wal.entries (e ∷ es) rest) at v.server.entries) in
    let (k, d) = dedup_key-IsStored e s.0 in
    let (a, b) =
      contains-next w.server w.client.wal e (es ++ rest) k v.server v.client
        (h ∙ append_assoc w.client.wal.entries (e ∷ es) rest) d in
    rw (uplink_wal p n e w.client o c) (
      appended-IsConsistent w l down e k es rest (append e w.client.wal) v s.0 d a h g i j u
        (append-Appended w.client.wal e k s.0 d))
flight-IsConsistent w l p down es rest v h i j u (acked _ k _ _ o c x g) =
    rw (uplink_ack p k w.client o c) (
      delivered_same w l down (ok [], record w.client { send_q = ack k w.client.send_q }) v
        (record { flight = es; ahead = rest; entries = h; down = g; stream = i; index = j; up = u })
        refl)
flight-IsConsistent w l p down es rest v h i j u (other _ _ _ a b g) =
    delivered_same w l down (handle_uplink_packet p w.client) v
      (record { flight = es; ahead = rest; entries = h; down = g; stream = i; index = j; up = u })
      (uplink_other p w.client a b).0

pub delivered-IsConsistent :
    (w : World) (l : Link) (p : Packet) (down : List Packet)
    → IsConsistent w
    → IsLinked w.server w.client.wal l
    → l.down ≡ p ∷ down
    → IsConsistent (delivered w l down (handle_uplink_packet p w.client))
delivered-IsConsistent w l p down v h q =
    flight-IsConsistent w l p down h.flight h.ahead v h.entries h.stream h.index h.up
      (rw q at h.down)
