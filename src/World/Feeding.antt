-- ===== src/World/Feeding.antt =====
-- The server feeds the log to a client: each entry in turn, once.
use multiplayer.Prelude.{
  All-right, List, Result, [], ap, append-nil, append_snoc, arith, get_elem?, get_elem?-append,
  length, length-append, ltb-false, none, ok, refl, some, suc, sym, ℕ, ◌++◌, ◌+◌, ◌-◌, ◌<◌, ◌^◌,
  ◌∙◌, ◌∷◌, ◌≡◌, subst,
}
use multiplayer.Protocol.Packet.{Packet, ServerWal, op_wal, parse_server_wal, serialize_server_wal}
use multiplayer.Protocol.Packet
use multiplayer.Wal.Entry.{WalEntry}
use multiplayer.Wal.Log.Memory.{IsMemory}
use multiplayer.Server.Join.{Feed, feed, feed_next, feed_entry, wal_packet}
use multiplayer.World.{Link, World, fed}
use multiplayer.World.Consistent.{IsLinked, IsConsistent, link-IsConsistent}
use multiplayer.Bytes.Words.{le32, IsU32}
use multiplayer.Wal.Log.{get, next_u32, Wal}
use multiplayer.World.Flight.{landed, entry, Flight-append}
use multiplayer.Wal.Log.Invariant.{serialize-IsStored, IsStored}
use multiplayer.Client.Game.Replies.{get-eq-get_elem?}
use multiplayer.Protocol.Packet.RoundTrip.{parse_server_wal-serialize, serialize_server_wal_lem}

-- The packet of an entry, and what a client reads in it.
pub server_wal_bytes :
    (i : ℕ) (e : WalEntry)
    → IsU32 i
    → IsStored e
    → (d : List ℕ) × (serialize_server_wal (record { index = i; entry = e }) ≡ ok d)
      × (parse_server_wal d ≡ ok (record { index = i; entry = e }))
server_wal_bytes i e l s =
    let (b, p) = serialize-IsStored e s in
    let x : ServerWal = record { index = i; entry = e } in
    let q = serialize_server_wal_lem x b p in
    (
      le32 i ++ b,
      q,
      ap parse_server_wal (sym (append-nil (le32 i ++ b)))
          ∙ parse_server_wal-serialize x (le32 i ++ b) [] l s.valid q
          ∙ ap (λ (y : WalEntry). ok (record { index = i; entry = y })) s.is_active,
    )

abbrev pub moved : Feed → Feed
moved f = record {
  stream = record f.stream { index = suc f.stream.index };
  wal_index = suc f.stream.index;
}

pub feed_entry_lem :
    (e : WalEntry) (d : List ℕ) (f : Feed)
    → f.wal_index ≡ f.stream.index
    → f.stream.index < 2 ^ 32 - 1
    → serialize_server_wal (record { index = f.stream.index; entry = e }) ≡ ok d
    → feed_next (some e) f ≡ some (ok (record { op = Packet.op_wal; content = d } ∷ []), moved f)
unfolding feed_next feed_entry wal_packet
feed_entry_lem e d f h l q =
    let n : next_u32 f.stream.index ≡ suc f.stream.index = omega arith in
    rw (h, n, ltb-false f.stream.index f.stream.index (omega arith), q) refl

-- The entry that a stream stands at, in a log that begins with some entries.
get-append :
    (w : Wal) (xs ys : List WalEntry) (n : ℕ)
    → IsMemory w
    → w.entries ≡ xs ++ ys
    → n ≡ length xs
    → get n w ≡ get_elem? ys 0
get-append w xs ys n m h l =
    get-eq-get_elem? n w m.count
    ∙ ap (λ (x : List WalEntry). get_elem? x n) h
    ∙ get_elem?-append xs ys n l

module _ (server client : Wal) (l : Link) (m : IsMemory server) (h : IsLinked server client l) where
  stream_at : l.feed.stream.index ≡ length (client.entries ++ h.flight)
  stream_at = omega (arith, h.stream, length-append client.entries h.flight)

  -- With nothing ahead the server waits; else it sends the next entry.
  pub feed_end : h.ahead ≡ [] → feed server l.feed ≡ none
  unfolding feed feed_next
  feed_end q =
      rw
        (get-append server (client.entries ++ h.flight) h.ahead l.feed.stream.index m h.entries
          stream_at)
        (rw q refl)

  pub feed_ahead :
      (e : WalEntry) (es : List WalEntry)
      → h.ahead ≡ e ∷ es
      → (p : Packet) × (feed server l.feed ≡ some (ok (p ∷ []), moved l.feed))
        × (p.op ≡ Packet.op_wal)
        × (parse_server_wal p.content ≡ ok (record { index = l.feed.stream.index; entry = e }))
  unfolding feed
  feed_ahead e es q =
      let entries : server.entries ≡ client.entries ++ h.flight ++ e ∷ es =
        h.entries ∙ ap (λ (x : List WalEntry). client.entries ++ h.flight ++ x) q in
      let s = All-right IsStored (client.entries ++ h.flight) (e ∷ es) (rw entries at m.entries) in
      let size : length server.entries ≡ length (client.entries ++ h.flight) + suc (length es) =
        ap length entries ∙ length-append (client.entries ++ h.flight) (e ∷ es) in
      let (d, a, b) =
        server_wal_bytes l.feed.stream.index e (omega (arith, stream_at, m.small)) s.0 in
      (
        record { op = Packet.op_wal; content = d },
        rw
            (get-append server (client.entries ++ h.flight) (e ∷ es) l.feed.stream.index m entries
              stream_at)
            (feed_entry_lem e d l.feed (h.index ∙ sym h.stream) (omega (arith, stream_at, m.small))
              a),
        refl,
        b,
      )

  -- The connection once the next entry has been sent.
  pub moved-IsLinked :
      (p : Packet) (i : ℕ) (e : WalEntry) (es : List WalEntry)
      → h.ahead ≡ e ∷ es
      → p.op ≡ Packet.op_wal
      → parse_server_wal p.content ≡ ok (record { index = i; entry = e })
      → IsLinked server client (record l { feed = moved l.feed; down = l.down ++ p ∷ [] })
  moved-IsLinked p i e es q o c = record {
    flight = h.flight ++ e ∷ [];
    ahead = es;
    entries =
        h.entries
        ∙ ap (λ (x : List WalEntry). client.entries ++ h.flight ++ x) q
        ∙ append_snoc client.entries h.flight es e;
    down = Flight-append h.down (entry p i e [] [] o c landed);
    stream = omega (arith, h.stream, length-append h.flight (e ∷ []));
    index = omega (arith, h.stream, length-append h.flight (e ∷ []));
    up = h.up;
  }

pub fed-IsConsistent :
    (w : World) (l : Link) (r : Result (List Packet) × Feed) (a : List WalEntry)
    → IsConsistent w
    → (h : IsLinked w.server w.client.wal l) → h.ahead ≡ a
    → feed w.server l.feed ≡ some r
    → IsConsistent (fed w l r)
unfolding fed
fed-IsConsistent w l r [] v h q f = absurd (cc (feed_end w.server w.client.wal l v.server h q))
fed-IsConsistent w l r (e ∷ es) v h q f =
    let (p, g, o, c) = feed_ahead w.server w.client.wal l v.server h e es q in
    let s : (ok (p ∷ []), moved l.feed) ≡ r = cc in
    subst (λ x. IsConsistent (fed w l x)) s
      (link-IsConsistent w (some (record l { feed = moved l.feed; down = l.down ++ p ∷ [] })) v
        (moved-IsLinked w.server w.client.wal l v.server h p l.feed.stream.index e es q o c))
