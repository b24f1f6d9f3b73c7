-- ===== src/Room/Agreement.antt =====
-- What the players of a session have been sent of its log.
use multiplayer.Prelude.{
  List, Result, [], arith, drop, err, if◌then◌else◌, ok, panic, refl, ℕ, ◌++◌, ◌==◌, ◌∙◌, ◌∷◌, ◌≡◌,
  All, ap, append-nil, append_assoc, inl, inr, none, sym, true, ◌⊎◌, false,
}
use multiplayer.Protocol.Packet.{Packet, ServerWal, parse_server_wal}
use multiplayer.Protocol.Packet
use multiplayer.Wal.Entry.{WalEntry}
use multiplayer.Wal.Log.{Wal, contains}
use multiplayer.Wal.Log.Memory.{IsMemory}
use multiplayer.World.Flight.{Flight, landed, entry, acked, other, Flight-split}
use multiplayer.Bytes.{ByteArray, bytes}
use multiplayer.Room.{Room, Reach, open_room}
use multiplayer.Room.Seats.{active}
use multiplayer.Room.Turns.{IsFed-idle}
use multiplayer.Room.Invariant.{Reach-IsRoom, open_room-IsRoom}
use multiplayer.Server.Join.{feed}

unfoldable read_entry : Result ServerWal → List WalEntry → List WalEntry
read_entry (ok x) es = x.entry ∷ es
read_entry (err e) es = es
read_entry panic es = es

-- The entries that one reads in the packets of a connection.
unfoldable pub carried : List Packet → List WalEntry
unfolding read_entry
carried [] = []
carried (p ∷ ps) =
    let es = carried ps in
    if p.op == Packet.op_wal then read_entry (parse_server_wal p.content) es else es

Flight-carried :
    {keys : List (ByteArray 16)} {ps : List Packet} {es : List WalEntry}
    → Flight keys ps es
    → carried ps ≡ es
unfolding carried read_entry
Flight-carried landed = refl
Flight-carried (entry p i e ps es o c f) = rw (o, c, Flight-carried f) refl
Flight-carried (acked p k ps es o c h f) = rw (o, Flight-carried f) refl
Flight-carried (other p ps es o a f) = ground (arith, Flight-carried f)

-- A session is opened on a log whose entries, keys and count agree, and packets are handled only
-- while it has fewer than 2^32 - 1 entries; its players join and leave, and their goroutines take
-- their steps in any order, with any of them cancelled at any moment: the WAL entries in the
-- packets that have been written to a player's connection are, in their order, the first of the
-- entries of the log from the index on that the player has joined with, none left out and none
-- twice.
pub wire-carried :
    (w : Wal) (r : Room) (i : ℕ)
    → IsMemory w
    → Reach (open_room w) r
    → (rest : List WalEntry) × (drop (r.seats i).start r.wal.entries
        ≡ carried (r.seats i).wire ++ rest)
wire-carried w r i m g =
    let v = Reach-IsRoom (open_room w) r (open_room-IsRoom w m) g in
    let h = (v.seats i).fed in
    let s = r.seats i in
    let (a, b, x, y, e) =
      Flight-split s.wire (s.sending ++ s.out)
        (rw (append_assoc s.wire s.sending s.out) at h.sending) in
    let c = carried s.wire in
    (
      b ++ (h.held ++ h.rest),
      h.slice
          ∙ ap (λ (z : List WalEntry). z ++ h.held ++ h.rest)
              (e ∙ ap (λ (z : List WalEntry). z ++ b) (sym (Flight-carried x)))
          ∙ append_assoc (c ++ b) h.held h.rest
          ∙ append_assoc c b (h.held ++ h.rest),
    )

prefixes :
    {A : Type 0} (xs ys zs vs : List A)
    → xs ++ zs ≡ ys ++ vs
    → ((more : List A) × (xs ++ more ≡ ys)) ⊎ ((more : List A) × (ys ++ more ≡ xs))
prefixes [] ys zs vs h = inl (ys, refl)
prefixes (x ∷ xs) [] zs vs h = inr (x ∷ xs, refl)
prefixes (x ∷ xs) (y ∷ ys) zs vs h = elim (prefixes xs ys zs vs (cc)) [
  | inl (more, e) ↦ inl (more, cc)
  | inr (more, e) ↦ inr (more, cc)
]

-- A session is opened on a log whose entries, keys and count agree, and packets are handled only
-- while it has fewer than 2^32 - 1 entries; its players join and leave, and their goroutines take
-- their steps in any order, with any of them cancelled at any moment: of two players that have
-- joined with the same index, one has been sent the entries that the other has been sent, and
-- perhaps more.
pub players_agree :
    (w : Wal) (r : Room) (i j : ℕ)
    → IsMemory w
    → Reach (open_room w) r
    → (r.seats i).start ≡ (r.seats j).start
    → ((more : List WalEntry) × (carried (r.seats i).wire ++ more ≡ carried (r.seats j).wire))
      ⊎ ((more : List WalEntry) × (carried (r.seats j).wire ++ more ≡ carried (r.seats i).wire))
players_agree w r i j m g q =
    let (a, x) = wire-carried w r i m g in
    let (b, y) = wire-carried w r j m g in
    prefixes (carried (r.seats i).wire) (carried (r.seats j).wire) a b
      (sym x ∙ ap (λ n. drop n r.wal.entries) q ∙ y)

-- A session is opened on a log whose entries, keys and count agree, and packets are handled only
-- while it has fewer than 2^32 - 1 entries; its players join and leave, and their goroutines take
-- their steps in any order, with any of them cancelled at any moment: while a player's context
-- lives, and when nothing is left in its channel `out`, with its handleWalStream or in the hand of its
-- handleMsgOut, and its stream blocks, its connection has carried all the entries of the log from the index on that it has
-- joined with.
pub settled-carried :
    (w : Wal) (r : Room) (i : ℕ)
    → IsMemory w
    → Reach (open_room w) r
    → (r.seats i).alive ≡ true
    → (r.seats i).feeding ≡ []
    → (r.seats i).sending ≡ []
    → (r.seats i).out ≡ []
    → feed r.wal (r.seats i).feed ≡ none
    → carried (r.seats i).wire ≡ drop (r.seats i).start r.wal.entries
settled-carried w r i m g a e n o q =
    let v = Reach-IsRoom (open_room w) r (open_room-IsRoom w m) g in
    let s = r.seats i in
    let h = rw (e, n, o, append-nil s.wire, append-nil s.wire) at (v.seats i).fed in
    Flight-carried (IsFed-idle r.wal s.start (active s) s.feed s.wire v.memory h (rw a refl) q)

-- The keys that the packets of a connection acknowledge.
unfoldable pub acknowledged : List Packet → List (List ℕ)
acknowledged [] = []
acknowledged (p ∷ ps) =
    let ks = acknowledged ps in if p.op == Packet.op_wal_ack then p.content ∷ ks else ks

abbrev pub IsKnown : List (ByteArray 16) → List ℕ → Type 0
IsKnown keys d = (k : ByteArray 16) × (d ≡ bytes 16 k) × (contains k keys ≡ true)

Flight-acknowledged :
    {keys : List (ByteArray 16)} {ps : List Packet} {es : List WalEntry}
    → Flight keys ps es
    → All (IsKnown keys) (acknowledged ps)
unfolding acknowledged
Flight-acknowledged landed = tt
Flight-acknowledged (entry p i e ps es o c f) = rw o (Flight-acknowledged f)
Flight-acknowledged (acked p k ps es o c h f) = rw o ((k, c, h), Flight-acknowledged f)
Flight-acknowledged {keys} (other p ps es o a f) =
    let n : (p.op == Packet.op_wal_ack) ≡ false = ground arith in rw n (Flight-acknowledged f)

-- A session is opened on a log whose entries, keys and count agree, and packets are handled only
-- while it has fewer than 2^32 - 1 entries; its players join and leave, and their goroutines take
-- their steps in any order, with any of them cancelled at any moment: every acknowledgement that
-- has been written to a player's connection is the key of an entry that the log of the session has.
pub wire-acknowledged :
    (w : Wal) (r : Room) (i : ℕ)
    → IsMemory w
    → Reach (open_room w) r
    → All (IsKnown r.wal.set) (acknowledged (r.seats i).wire)
wire-acknowledged w r i m g =
    let v = Reach-IsRoom (open_room w) r (open_room-IsRoom w m) g in
    let s = r.seats i in
    let (a, b, x, y, e) =
      Flight-split s.wire (s.sending ++ s.out)
        (rw (append_assoc s.wire s.sending s.out) at (v.seats i).fed.sending) in
    Flight-acknowledged x
