-- ===== src/Room/Feeding.antt =====
-- What a player of the session has been sent of the log, from the index on that it joined with.
use multiplayer.Prelude.{
  Bool, List, [], ap, append_assoc, arith, drop, drop-append_past, false, length, length-append,
  sym, true, ℕ, ◌++◌, ◌+◌, ◌-◌, ◌∙◌, ◌∷◌, ◌≡◌, append-nil,
}
use multiplayer.Protocol.Packet.{Packet}
use multiplayer.Wal.Entry.{WalEntry}
use multiplayer.Wal.Log.{Wal}
use multiplayer.Wal.Log.Memory.{Further}
use multiplayer.Server.Join.{Feed}
use multiplayer.World.Flight.{
  Flight, Flight-first, Flight-append, landed, Flight-more, Flight-append,
}

-- The entries in the packets that are gone, in those to go, and the ones to come are the log from an
-- index on, and a live stream stands behind those in the packets.
pub record IsFed (w : Wal) (start : ℕ) (alive : Bool) (f : Feed) (gone going : List Packet)
    : Type 0 where
  pub sent : List WalEntry
  pub held : List WalEntry
  pub rest : List WalEntry
  pub slice : drop start w.entries ≡ sent ++ held ++ rest
  pub sending : Flight w.set gone sent
  pub pending : Flight w.set going held
  pub stream : alive ≡ true → f.stream.index ≡ start + length sent + length held
  pub index : alive ≡ true → f.wal_index ≡ f.stream.index

-- The log has gone on.
pub longer-IsFed :
    (w v : Wal) (start : ℕ) (alive : Bool) (f : Feed) (gone going : List Packet)
    → Further w v
    → IsFed w start alive f gone going
    → IsFed v start alive f gone going
longer-IsFed w v start alive f gone going g h =
    let past : List WalEntry = drop (start - length w.entries) g.more in
    record {
      sent = h.sent;
      held = h.held;
      rest = h.rest ++ past;
      slice =
          ap (drop start) g.entries
          ∙ drop-append_past start w.entries g.more
          ∙ ap (λ (x : List WalEntry). x ++ past) h.slice
          ∙ append_assoc (h.sent ++ h.held) h.rest past;
      sending = Flight-more g.keys h.sending;
      pending = Flight-more g.keys h.pending;
      stream = h.stream;
      index = h.index;
    }

module _ (w : Wal) (start : ℕ) (alive : Bool) (f : Feed) (gone going : List Packet)
    (h : IsFed w start alive f gone going) where
  -- Packets without an entry.
  pub same-IsFed :
      (later : List Packet)
      → (Flight w.set gone h.sent → Flight w.set later h.sent)
      → IsFed w start alive f later going
  same-IsFed later g = record {
    sent = h.sent;
    held = h.held;
    rest = h.rest;
    slice = h.slice;
    sending = g h.sending;
    pending = h.pending;
    stream = h.stream;
    index = h.index;
  }

  -- A stream that lives at most as long.
  pub weaker-IsFed : (b : Bool) → (b ≡ true → alive ≡ true) → IsFed w start b f gone going
  weaker-IsFed b a = record {
    sent = h.sent;
    held = h.held;
    rest = h.rest;
    slice = h.slice;
    sending = h.sending;
    pending = h.pending;
    stream = λ q. h.stream (a q);
    index = λ q. h.index (a q);
  }

  pub dropped-IsFed : alive ≡ false → IsFed w start alive f gone []
  dropped-IsFed d = record {
    sent = h.sent;
    held = [];
    rest = h.held ++ h.rest;
    slice =
        h.slice
        ∙ append_assoc h.sent h.held h.rest
        ∙ ap (λ (x : List WalEntry). x ++ (h.held ++ h.rest)) (sym (append-nil h.sent));
    sending = h.sending;
    pending = landed;
    stream = λ q. absurd (cc);
    index = λ q. absurd (cc);
  }

-- The next packet of those to go is gone.
pub next-IsFed :
    (w : Wal) (start : ℕ) (alive : Bool) (f : Feed) (gone : List Packet) (q : Packet)
    (going : List Packet)
    → IsFed w start alive f gone (q ∷ going)
    → IsFed w start alive f (gone ++ q ∷ []) going
next-IsFed w start alive f gone q going h =
    let (a, b, x, y, e) = Flight-first h.pending in
    record {
      sent = h.sent ++ a;
      held = b;
      rest = h.rest;
      slice =
          h.slice
          ∙ ap (λ (z : List WalEntry). h.sent ++ z ++ h.rest) e
          ∙ ap (λ (z : List WalEntry). z ++ h.rest) (sym (append_assoc h.sent a b));
      sending = Flight-append h.sending x;
      pending = y;
      stream = λ q.
          h.stream q
          ∙ ap (λ (z : List WalEntry). start + length h.sent + length z) e
          ∙ omega (arith, length-append h.sent a, length-append a b);
      index = h.index;
    }
