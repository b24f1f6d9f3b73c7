-- ===== src/World/Flight.antt =====
-- The packets on their way to a client: which entries of the log they carry.
use multiplayer.Prelude.{
  List, [], append-nil, ok, sym, true, ℕ, ◌++◌, ◌∷◌, ◌≡◌, ◌≢◌, ap, append_assoc, refl, subst, ◌∙◌,
}
use multiplayer.Protocol.Packet.{Packet, op_wal, op_wal_ack, parse_server_wal}
use multiplayer.Protocol.Packet
use multiplayer.Wal.Entry.{WalEntry}
use multiplayer.Bytes.{bytes, ByteArray}
use multiplayer.Wal.Log.{contains}

-- Packets that carry these entries in their order, acknowledge only keys that the log knows, and have
-- nothing to do with the log otherwise.
pub data Flight (keys : List (ByteArray 16)) : List Packet → List WalEntry → Type 0 where
  landed : Flight keys [] []
  entry :
      (p : Packet) (i : ℕ) (e : WalEntry) (ps : List Packet) (es : List WalEntry)
      → p.op ≡ Packet.op_wal
      → parse_server_wal p.content ≡ ok (record { index = i; entry = e })
      → Flight keys ps es
      → Flight keys (p ∷ ps) (e ∷ es)
  acked :
      (p : Packet) (k : ByteArray 16) (ps : List Packet) (es : List WalEntry)
      → p.op ≡ Packet.op_wal_ack
      → p.content ≡ bytes 16 k
      → contains k keys ≡ true
      → Flight keys ps es
      → Flight keys (p ∷ ps) es
  other :
      (p : Packet) (ps : List Packet) (es : List WalEntry)
      → p.op ≢ Packet.op_wal
      → p.op ≢ Packet.op_wal_ack
      → Flight keys ps es
      → Flight keys (p ∷ ps) es

pub Flight-append :
    {keys : List (ByteArray 16)} {ps qs : List Packet} {es fs : List WalEntry}
    → Flight keys ps es
    → Flight keys qs fs
    → Flight keys (ps ++ qs) (es ++ fs)
Flight-append landed g = g
Flight-append (entry p i e ps es o c f) g = entry p i e _ _ o c (Flight-append f g)
Flight-append (acked p k ps es o c h f) g = acked p k _ _ o c h (Flight-append f g)
Flight-append (other p ps es o a f) g = other p _ _ o a (Flight-append f g)

-- Packets in flight stay what they are when the log has more keys.
pub Flight-more :
    {keys more : List (ByteArray 16)} {ps : List Packet} {es : List WalEntry}
    → ((k : ByteArray 16) → contains k keys ≡ true → contains k more ≡ true)
    → Flight keys ps es
    → Flight more ps es
Flight-more m landed = landed
Flight-more m (entry p i e ps es o c f) = entry p i e ps es o c (Flight-more m f)
Flight-more m (acked p k ps es o c h f) = acked p k ps es o c (m k h) (Flight-more m f)
Flight-more m (other p ps es o a f) = other p ps es o a (Flight-more m f)

-- Packets that carry no entry, behind the others.
pub Flight-behind :
    {keys : List (ByteArray 16)} {ps qs : List Packet} {es : List WalEntry}
    → Flight keys ps es
    → Flight keys qs []
    → Flight keys (ps ++ qs) es
Flight-behind {es = es} f g = rw (sym (append-nil es)) (Flight-append f g)

pub Flight-nil : {keys : List (ByteArray 16)} {es : List WalEntry} → Flight keys [] es → es ≡ []
Flight-nil landed = refl

-- The first packet, and the others.
pub Flight-first :
    {keys : List (ByteArray 16)} {p : Packet} {ps : List Packet} {es : List WalEntry}
    → Flight keys (p ∷ ps) es
    → (a : List WalEntry) × (b : List WalEntry) × Flight keys (p ∷ []) a
      × Flight keys ps b
      × (es ≡ a ++ b)
Flight-first (entry p i e ps es o c f) = (e ∷ [], es, entry p i e [] [] o c landed, f, refl)
Flight-first (acked p k ps es o c h f) = ([], es, acked p k [] [] o c h landed, f, refl)
Flight-first (other p ps es o a f) = ([], es, other p [] [] o a landed, f, refl)

-- Packets in flight, in two parts.
pub Flight-split :
    {keys : List (ByteArray 16)} (ps qs : List Packet) {es : List WalEntry}
    → Flight keys (ps ++ qs) es
    → (a : List WalEntry) × (b : List WalEntry) × Flight keys ps a
      × Flight keys qs b
      × (es ≡ a ++ b)
Flight-split [] qs {es} f = ([], es, landed, f, refl)
Flight-split (p ∷ ps) qs f =
    let (a, b, g, h, q) = Flight-first f in
    let (c, d, i, j, r) = Flight-split ps qs h in
    (a ++ c, d, Flight-append g i, j, q ∙ ap (◌++◌ a) r ∙ sym (append_assoc a c d))

append-eq-nil : {A : Type 0} (xs ys : List A) → [] ≡ xs ++ ys → (xs ≡ []) × (ys ≡ [])
append-eq-nil [] ys h = (refl, sym h)
append-eq-nil (x ∷ xs) ys h = absurd (cc)

-- A first packet that carries no entry, and the others.
pub Flight-next :
    {keys : List (ByteArray 16)} {p : Packet} {ps : List Packet}
    → Flight keys (p ∷ ps) []
    → Flight keys (p ∷ []) [] × Flight keys ps []
Flight-next {keys} {p} {ps} f =
    let (a, b, g, h, q) = Flight-first f in
    let (x, y) = append-eq-nil a b q in
    (subst (Flight keys (p ∷ [])) x g, subst (Flight keys ps) y h)

-- A packet that carries no entry, among the others.
pub Flight-insert :
    {keys : List (ByteArray 16)} (ps qs : List Packet) {q : Packet} {es : List WalEntry}
    → Flight keys (ps ++ qs) es
    → Flight keys (q ∷ []) []
    → Flight keys ((ps ++ q ∷ []) ++ qs) es
Flight-insert ps qs f g =
    let (a, b, x, y, e) = Flight-split ps qs f in rw e (Flight-append (Flight-behind x g) y)
