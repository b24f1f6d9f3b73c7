-- ===== src/World/Progress.antt =====
-- A client that stays connected gets the whole log.
use multiplayer.Protocol.Packet.{op_wal, Packet, parse_server_wal}
use multiplayer.Protocol.Packet
use multiplayer.Wal.Log.Memory.{with_entry}
use multiplayer.Wal.Log.Prefixes.{contains-next}
use multiplayer.Wal.Log.Working.{append-quiet}
use multiplayer.Prelude.{
  [], refl, some, arith, List, Result, ap, append-nil, length, sym, ◌++◌, ◌∙◌, ◌∷◌, ◌≡◌, All-right,
  append_assoc, ok, subst, ℕ,
}
use multiplayer.File.Quiet.{IsQuiet}
use multiplayer.World.{Link, World, Reach, next, feed_log, deliver, fed, delivered, here}
use multiplayer.World.Flight.{Flight, landed, entry, acked, other}
use multiplayer.World.Consistent.{IsConsistent, IsLinked}
use multiplayer.World.Feeding.{moved, feed_ahead}
use multiplayer.World.Prefix.{linked, IsStart, Reach-IsConsistent, start-IsConsistent}
use multiplayer.Bytes.{ByteArray}
use multiplayer.Wal.Entry.{WalEntry}
use multiplayer.File.{File}
use multiplayer.Server.Join.{feed, Feed}
use multiplayer.Client.SendQueue.{ack}
use multiplayer.Client.Uplink.{handle_uplink_packet}
use multiplayer.Wal.Key.{dedup_key}
use multiplayer.Wal.Log.{append, remember, Wal}
use multiplayer.Wal.Log.Invariant.{dedup_key-IsStored, IsStored}
use multiplayer.Client.Uplink.Effects.{after_append-ok, uplink_wal}

-- The server feeds its log to the client, and the client takes in what arrives; nothing else happens.
pub data Flow (w : World) : World → Type 0 where
  still : Flow w w
  feeds :
      {u : World} (l : Link) (r : Result (List Packet) × Feed)
      → Flow w u
      → u.link ≡ some l
      → feed u.server l.feed ≡ some r
      → Flow w (fed u l r)
  delivers :
      {u : World} (l : Link) (p : Packet) (down : List Packet)
      → Flow w u
      → u.link ≡ some l
      → l.down ≡ p ∷ down
      → Flow w (delivered u l down (handle_uplink_packet p u.client))

Flow-Reach : {w u v : World} → Reach w u → Flow u v → Reach w v
Flow-Reach r still = r
Flow-Reach r (feeds l x f q h) = next (Flow-Reach r f) (feed_log l x q h)
Flow-Reach r (delivers l p down f q h) = next (Flow-Reach r f) (deliver l p down q h)

Flow-append : {w u v : World} → Flow w u → Flow u v → Flow w v
Flow-append f still = f
Flow-append f (feeds l x g q h) = feeds l x (Flow-append f g) q h
Flow-append f (delivers l p down g q h) = delivers l p down (Flow-append f g) q h

Flight-nil :
    {keys : List (ByteArray 16)} {ps : List Packet} {es : List WalEntry}
    → Flight keys ps es
    → ps ≡ []
    → es ≡ []
Flight-nil landed h = refl
Flight-nil (entry p i e ps es o c f) h = absurd (cc)
Flight-nil (acked p k ps es o c x f) h = absurd (cc)
Flight-nil (other p ps es a b f) h = absurd (cc)

-- A world with a connection on which nothing is on its way to the client, whose file works, and which
-- the server's log is some entries ahead of.
record IsIdle (w : World) (ahead : List WalEntry) : Type 0 where
  consistent : IsConsistent w
  link : Link
  connected : w.link ≡ some link
  down : link.down ≡ []
  quiet : IsQuiet w.client.wal.file
  entries : w.server.entries ≡ w.client.wal.entries ++ ahead

idle-IsLinked :
    (w : World) (rest : List WalEntry)
    → (i : IsIdle w rest) → (h : IsLinked w.server w.client.wal i.link) × (h.ahead ≡ rest)
idle-IsLinked w rest i =
    let h = linked w i.link i.consistent i.connected in
    let n : h.flight ≡ [] = Flight-nil h.down i.down in
    (
      record {
        flight = [];
        ahead = rest;
        entries =
            i.entries
            ∙ ap (λ (x : List WalEntry). x ++ rest) (sym (append-nil w.client.wal.entries));
        down = rw i.down landed;
        stream = omega (arith, h.stream, ap length n);
        index = omega (arith, h.index, ap length n);
        up = h.up;
      },
      refl,
    )

-- The world after one entry.
after_entry : World → Link → WalEntry → ByteArray 16 → File → World
after_entry w l e k f = record w {
  client = record w.client { wal = with_entry w.client.wal e k f; send_q = ack k w.client.send_q };
  link = some (record l { feed = moved l.feed; down = [] });
}

deliver_entry :
    (w : World) (l : Link) (p : Packet) (n : ℕ) (e : WalEntry) (k : ByteArray 16) (f : File)
    → dedup_key e ≡ ok k
    → p.op ≡ Packet.op_wal
    → parse_server_wal p.content ≡ ok (record { index = n; entry = e })
    → append e w.client.wal ≡ (ok tt, with_entry w.client.wal e k f)
    → delivered
        (record w { link = some (record l { feed = moved l.feed; down = p ∷ [] }) })
        (record l { feed = moved l.feed; down = p ∷ [] })
        []
        (handle_uplink_packet p w.client)
      ≡ after_entry w l e k f
unfolding delivered after_entry
deliver_entry w l p n e k f q o c a =
    rw (uplink_wal p n e w.client o c)
      (rw a (rw (after_append-ok e k w.client (with_entry w.client.wal e k f) q) refl))

-- One more entry, once the server has turned and the client has taken it in.
round :
    (w : World) (e : WalEntry) (es : List WalEntry)
    → IsIdle w (e ∷ es)
    → (u : World) × Flow w u × (u.server ≡ w.server) × IsIdle u es
unfolding fed after_entry remember
round w e es i =
    let v = i.consistent in
    let l = i.link in
    let (h, b) = idle-IsLinked w (e ∷ es) i in
    let (p, g, o, c) = feed_ahead w.server w.client.wal l v.server h e es b in
    let s = All-right IsStored w.client.wal.entries (e ∷ es) (rw i.entries at v.server.entries) in
    let (k, q) = dedup_key-IsStored e s.0 in
    let (x, _) = contains-next w.server w.client.wal e es k v.server v.client i.entries q in
    let (f, a, y) = append-quiet w.client.wal e k i.quiet s.0 q x in
    let d : l.down ++ p ∷ [] ≡ p ∷ [] = ap (λ (z : List Packet). z ++ p ∷ []) i.down in
    let m = record l { feed = moved l.feed; down = p ∷ [] } in
    let one : Flow w (record w { link = some m }) =
      subst (λ z. Flow w (record w { link = some (record l { feed = moved l.feed; down = z }) })) d
        (feeds l (ok (p ∷ []), moved l.feed) still i.connected g) in
    let two : Flow w (after_entry w l e k f) =
      subst (Flow w) (deliver_entry w l p l.feed.stream.index e k f q o c a)
        (delivers m p [] one refl refl) in
    (
      after_entry w l e k f,
      two,
      refl,
      record {
        consistent = Reach-IsConsistent v (Flow-Reach here two);
        link = record l { feed = moved l.feed; down = [] };
        connected = refl;
        down = refl;
        quiet = y;
        entries = i.entries ∙ sym (append_assoc w.client.wal.entries (e ∷ []) es);
      },
    )

catch_up :
    (es : List WalEntry) (w : World)
    → IsIdle w es
    → (u : World) × Flow w u × (u.server ≡ w.server) × (u.client.wal.entries ≡ w.server.entries)
catch_up [] w i = (w, still, refl, sym (i.entries ∙ append-nil w.client.wal.entries))
catch_up (e ∷ es) w i =
    let (u, f, s, j) = round w e es i in
    let (v, g, t, h) = catch_up es u j in
    (v, Flow-append f g, t ∙ s, h ∙ ap (λ (x : Wal). x.entries) s)

-- From wherever two logs as above and no connection may have led: on a connection with nothing on its
-- way to the client, and while the calls on the client's file work, the turns of the server that feed
-- its log and the arrival of what they send are enough to bring the client's log to the server's,
-- whatever else was on its way to the server; the server's log is as it was.
pub client_log-catches_up :
    (w u : World) (l : Link)
    → IsStart w
    → Reach w u
    → u.link ≡ some l
    → l.down ≡ []
    → IsQuiet u.client.wal.file
    → (v : World) × Flow u v × (v.server ≡ u.server) × (v.client.wal.entries ≡ u.server.entries)
client_log-catches_up w u l s r q d f =
    let v = Reach-IsConsistent (start-IsConsistent w s) r in
    catch_up v.rest u
      (record { consistent = v; link = l; connected = q; down = d; quiet = f; entries = v.prefix })
