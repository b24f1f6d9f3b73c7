-- ===== src/Room/Turns.antt =====
-- A turn of a player's handleWalStream: it makes the packet of the next entry, and stops at the end.
use multiplayer.Prelude.{
  All, Bool, List, [], ap, append_assoc, arith, drop, length, length-append, sym, true, ℕ, ◌++◌,
  ◌+◌, ◌-◌, ◌∙◌, ◌∷◌, ◌≡◌, append-nil, All-drop, All-right, Result, get_elem?, get_elem?-append,
  get_elem?-drop_at, ok, refl, some, subst, length-drop, suc, none,
}
use multiplayer.Protocol.Packet.{Packet, parse_server_wal}
use multiplayer.Protocol.Packet
use multiplayer.Wal.Entry.{WalEntry}
use multiplayer.Wal.Log.{Wal, get}
use multiplayer.Wal.Log.Memory.{IsMemory}
use multiplayer.World.Feeding.{server_wal_bytes, feed_entry_lem, moved}
use multiplayer.Client.Game.Replies.{get-eq-get_elem?, get_elem?-short}
use multiplayer.Wal.Log.Invariant.{IsStored}
use multiplayer.Server.Join.{feed, Feed, feed_next}
use multiplayer.World.Flight.{entry, Flight, landed, Flight-nil}
use multiplayer.Room.Feeding.{IsFed}

-- With an entry of the log to come, a turn of handleWalStream makes a packet of it.
entry-feed :
    (w : Wal) (start : ℕ) (f : Feed) (sent : List WalEntry) (e : WalEntry) (es : List WalEntry)
    → IsMemory w
    → drop start w.entries ≡ sent ++ e ∷ es
    → f.stream.index ≡ start + length sent
    → f.wal_index ≡ f.stream.index
    → (d : List ℕ) × (feed w f
        ≡ some (ok (record { op = Packet.op_wal; content = d } ∷ []), moved f))
      × (parse_server_wal d ≡ ok (record { index = f.stream.index; entry = e }))
unfolding feed
entry-feed w start f sent e es m l i j =
    let at : get_elem? w.entries f.stream.index ≡ some e =
      ap (get_elem? w.entries) i
      ∙ get_elem?-drop_at start (length sent) w.entries
      ∙ ap (λ (z : List WalEntry). get_elem? z (length sent)) l
      ∙ get_elem?-append sent (e ∷ es) (length sent) refl in
    let s =
      All-right IsStored sent (e ∷ es)
        (subst (All IsStored) l (All-drop IsStored start w.entries m.entries)) in
    let u : length w.entries - start ≡ length sent + suc (length es) =
      sym (length-drop start w.entries) ∙ ap length l ∙ length-append sent (e ∷ es) in
    let (d, a, b) = server_wal_bytes f.stream.index e (omega (arith, u, i, m.small)) s.0 in
    let n = get-eq-get_elem? f.stream.index w m.count ∙ at in
    (d, ap (λ o. feed_next o f) n ∙ feed_entry_lem e d f j (omega (arith, u, i, m.small)) a, b)

entry-IsFed :
    (w : Wal) (start : ℕ) (alive : Bool) (f : Feed) (gone : List Packet) (sent : List WalEntry)
    (e : WalEntry) (es : List WalEntry) (x : Result (List Packet) × Feed)
    → IsMemory w
    → drop start w.entries ≡ sent ++ e ∷ es
    → Flight w.set gone sent
    → f.stream.index ≡ start + length sent
    → f.wal_index ≡ f.stream.index
    → feed w f ≡ some x
    → (p : Packet) × (g : Feed) × (x ≡ (ok (p ∷ []), g))
      × IsFed w start alive g gone (p ∷ [])
      × (p.op ≡ Packet.op_wal)
entry-IsFed w start alive f gone sent e es x m l h i j q =
    let (d, v, b) = entry-feed w start f sent e es m l i j in
    let t : (ok (record { op = Packet.op_wal; content = d } ∷ []), moved f) ≡ x = cc in
    (
      record { op = Packet.op_wal; content = d },
      moved f,
      sym t,
      record {
        sent = sent;
        held = e ∷ [];
        rest = es;
        slice = l ∙ sym (append_assoc sent (e ∷ []) es);
        sending = h;
        pending = entry _ f.stream.index e [] [] refl b landed;
        stream = λ y. omega (arith, i);
        index = λ y. refl;
      },
      refl,
    )

-- At the end of the log there is nothing to feed.
end-IsFed :
    (w : Wal) (start : ℕ) (f : Feed) (sent : List WalEntry)
    → IsMemory w
    → drop start w.entries ≡ sent
    → f.stream.index ≡ start + length sent
    → feed w f ≡ none
unfolding feed feed_next
end-IsFed w start f sent m l i =
    let n : get f.stream.index w ≡ none =
      get-eq-get_elem? f.stream.index w m.count
      ∙ ap (get_elem? w.entries) i
      ∙ get_elem?-drop_at start (length sent) w.entries
      ∙ ap (λ (z : List WalEntry). get_elem? z (length sent)) l
      ∙ get_elem?-short sent (length sent) (omega arith) in
    rw n refl

turn-IsFed :
    (w : Wal) (start : ℕ) (alive : Bool) (f : Feed) (gone : List Packet) (sent rest : List WalEntry)
    (x : Result (List Packet) × Feed)
    → IsMemory w
    → drop start w.entries ≡ sent ++ rest
    → Flight w.set gone sent
    → f.stream.index ≡ start + length sent
    → f.wal_index ≡ f.stream.index
    → feed w f ≡ some x
    → (p : Packet) × (g : Feed) × (x ≡ (ok (p ∷ []), g))
      × IsFed w start alive g gone (p ∷ [])
      × (p.op ≡ Packet.op_wal)
turn-IsFed w start alive f gone sent [] x m l h i j q =
    absurd (cc (end-IsFed w start f sent m (l ∙ append-nil sent) i))
turn-IsFed w start alive f gone sent (e ∷ es) x m l h i j q =
    entry-IsFed w start alive f gone sent e es x m l h i j q

-- With nothing to go, a turn of handleWalStream makes the packet of the next entry.
pub fed-IsFed :
    (w : Wal) (start : ℕ) (alive : Bool) (f : Feed) (gone : List Packet)
    (x : Result (List Packet) × Feed)
    → IsMemory w
    → IsFed w start alive f gone []
    → alive ≡ true
    → feed w f ≡ some x
    → (p : Packet) × (g : Feed) × (x ≡ (ok (p ∷ []), g))
      × IsFed w start alive g gone (p ∷ [])
      × (p.op ≡ Packet.op_wal)
fed-IsFed w start alive f gone x m h a q =
    let n = Flight-nil h.pending in
    turn-IsFed w start alive f gone h.sent h.rest x m
      (h.slice
        ∙ ap (λ (z : List WalEntry). h.sent ++ z ++ h.rest) n
        ∙ ap (λ (z : List WalEntry). z ++ h.rest) (append-nil h.sent))
      h.sending
      (h.stream a ∙ ap (λ (z : List WalEntry). start + length h.sent + length z) n ∙ omega arith)
      (h.index a) q

idle_rest :
    (w : Wal) (start : ℕ) (f : Feed) (sent rest : List WalEntry)
    → IsMemory w
    → drop start w.entries ≡ sent ++ rest
    → f.stream.index ≡ start + length sent
    → f.wal_index ≡ f.stream.index
    → feed w f ≡ none
    → drop start w.entries ≡ sent
idle_rest w start f sent [] m l i j q = l ∙ append-nil sent
idle_rest w start f sent (e ∷ es) m l i j q =
    absurd (cc ((entry-feed w start f sent e es m l i j).1))

-- With nothing to go and nothing to feed, all has been sent.
pub IsFed-idle :
    (w : Wal) (start : ℕ) (alive : Bool) (f : Feed) (gone : List Packet)
    → IsMemory w
    → IsFed w start alive f gone []
    → alive ≡ true
    → feed w f ≡ none
    → Flight w.set gone (drop start w.entries)
IsFed-idle w start alive f gone m h a q =
    let n = Flight-nil h.pending in
    let l =
      (h.slice
        ∙ ap (λ (z : List WalEntry). h.sent ++ z ++ h.rest) n
        ∙ ap (λ (z : List WalEntry). z ++ h.rest) (append-nil h.sent)) in
    let i =
      h.stream a ∙ ap (λ (z : List WalEntry). start + length h.sent + length z) n ∙ omega arith in
    subst (Flight w.set gone) (sym (idle_rest w start f h.sent h.rest m l i (h.index a) q))
      h.sending
