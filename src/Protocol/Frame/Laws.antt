-- ===== src/Protocol/Frame/Laws.antt =====
-- RecvRaw takes from the stream the packets that SendRaw put there, each whole and in their order.
use multiplayer.Prelude.{
  List, ok, [], arith, length, refl, suc, zero, ℕ, ◌++◌, ◌∷◌, ◌≡◌, drop-append, err, ltb-false,
  ltb-true, take-append, too_large, ◌%◌, ◌+◌, ◌<◌, ◌^◌, ok-injective, sym, ◌*◌, ◌/◌, ◌∙◌, >>=-eq-ok,
  All, eof, none, panic, some, ◌≢◌, Result, Error, Option, length-drop,
}
use multiplayer.Protocol.Frame.{read_bytes, recv_raw, send_raw, recv_loop, send_all, after_recv}
use multiplayer.Protocol.Packet.{Packet}
use multiplayer.Bytes.Laws.{shorter-append, overwrite-make, overwrite-nil, shorter-eq-ltb}
use multiplayer.Bytes.Words.{IsU8, le16}
use multiplayer.Bytes.{make_bytes}

pub read_bytes-append : (d r : List ℕ) {n : ℕ} → n ≡ length d → read_bytes n (d ++ r) ≡ ok (d, r)
unfolding read_bytes
read_bytes-append [] r {n = zero} h = refl
read_bytes-append [] r {n = suc n} h = absurd (omega arith)
read_bytes-append (x ∷ d) r {n = zero} h = absurd (omega arith)
read_bytes-append (x ∷ d) r {n = suc n} h =
    let e : n ≡ length d = omega arith in
    rw (shorter-append d r e, take-append d r e, drop-append d r e)

three_plus : (n : ℕ) → 3 + n ≡ suc (suc (suc n))
three_plus n = omega arith

-- What SendRaw writes: the header and the bytes.
send_raw_lem :
    (pkt : Packet)
    → length pkt.content < 65536
    → send_raw pkt ≡ ok (le16 (length pkt.content % 2 ^ 16) ++ pkt.op % 256 ∷ pkt.content)
unfolding send_raw le16
send_raw_lem pkt h =
    rw (ltb-false 65535 (length pkt.content) (omega arith), three_plus (length pkt.content))
      (rw (overwrite-nil (make_bytes (length pkt.content)), overwrite-make pkt.content) refl)

-- SendRaw refuses a packet whose length does not fit in its header.
pub send_raw-too_large : (pkt : Packet) → 65535 < length pkt.content → send_raw pkt ≡ err too_large
unfolding send_raw
send_raw-too_large pkt h = rw (ltb-true 65535 (length pkt.content) h)

send_raw-ok_short : (pkt : Packet) {d : List ℕ} → send_raw pkt ≡ ok d → length pkt.content < 65536
unfolding send_raw
send_raw-ok_short pkt h = ground arith

recv_raw-bytes :
    (op : ℕ) (c rest : List ℕ)
    → length c < 65536
    → IsU8 op
    → recv_raw ((le16 (length c % 2 ^ 16) ++ op % 256 ∷ c) ++ rest)
      ≡ ok (record { op = op; content = c }, rest)
unfolding recv_raw le16 read_bytes
recv_raw-bytes op c rest h o =
    let e : length c % 2 ^ 16 % 256 + length c % 2 ^ 16 / 256 % 256 * 256 ≡ length c =
      omega arith in
    let q : op % 256 ≡ op = omega arith in
    rw (e, q) (rw (read_bytes-append c rest {n = length c} refl) refl)

-- RecvRaw gives back the packet that SendRaw wrote without an error, and leaves what follows it
-- on the stream, if the opcode is a byte.
recv_raw-send_raw :
    (pkt : Packet) (d rest : List ℕ)
    → IsU8 pkt.op
    → send_raw pkt ≡ ok d
    → recv_raw (d ++ rest) ≡ ok (pkt, rest)
recv_raw-send_raw pkt d rest o h =
    let l = send_raw-ok_short pkt h in
    rw (ok-injective (sym h ∙ send_raw_lem pkt l)) (recv_raw-bytes pkt.op pkt.content rest l o)

recv_loop_ok :
    (n : ℕ) (s t : List ℕ) (pkt : Packet) (pkts : List Packet) (e : Error)
    → recv_raw s ≡ ok (pkt, t)
    → recv_loop n t ≡ some (pkts, e)
    → recv_loop (suc n) s ≡ some (pkt ∷ pkts, e)
unfolding recv_loop
recv_loop_ok n s t pkt pkts e p q = rw p (rw q refl)

send_all-eq-ok :
    (pkt : Packet) (pkts : List Packet) (d : List ℕ)
    → send_all (pkt ∷ pkts) ≡ ok d
    → (a : List ℕ) × (b : List ℕ) × (send_raw pkt ≡ ok a) × (send_all pkts ≡ ok b) × (d ≡ a ++ b)
unfolding send_all
send_all-eq-ok pkt pkts d h =
    let (a, p, q) = >>=-eq-ok (send_raw pkt) _ h in
    let (b, p', q') = >>=-eq-ok (send_all pkts) _ q in (a, b, p, p', sym (ok-injective q'))

-- The receiver's loop takes in the packets that were sent without an error, all of them and in
-- their order, and then sees the end of the stream, if their opcodes are bytes and the loop has
-- more rounds than there are packets.
pub recv_loop-send_all :
    (pkts : List Packet) (d : List ℕ) (n : ℕ)
    → All (λ pkt. IsU8 pkt.op) pkts
    → send_all pkts ≡ ok d
    → length pkts < n
    → recv_loop n d ≡ some (pkts, eof)
recv_loop-send_all pkts d zero o h l = absurd (omega arith)
recv_loop-send_all [] d (suc n) o h l =
    unfold send_all recv_loop recv_raw read_bytes in (rw (sym (ok-injective h)) refl)
recv_loop-send_all (pkt ∷ pkts) d (suc n) (o, os) h l =
    let (a, b, p, p', q) = send_all-eq-ok pkt pkts d h in
    rw q (
      recv_loop_ok n (a ++ b) b pkt pkts eof (recv_raw-send_raw pkt a b o p)
        (recv_loop-send_all pkts b n os p' (omega arith)))

read_bytes-length :
    (n : ℕ) (s : List ℕ) {d s' : List ℕ} → read_bytes n s ≡ ok (d, s') → length s' + n ≡ length s
unfolding read_bytes
read_bytes-length zero s {s' = s'} h = let e : s' ≡ s = cc in rw e (omega arith)
read_bytes-length (suc n) [] h = absurd (cc)
read_bytes-length (suc n) (b ∷ s) {s' = t} h = ground (arith, shorter-eq-ltb s n, length-drop n s)

read_bytes-ne-panic : (n : ℕ) (s : List ℕ) → read_bytes n s ≢ panic
unfolding read_bytes
read_bytes-ne-panic zero s = ground arith
read_bytes-ne-panic (suc n) [] = ground arith
read_bytes-ne-panic (suc n) (b ∷ s) = ground arith

-- A packet takes three bytes of the stream at least.
recv_raw-shrinks :
    (s : List ℕ) {pkt : Packet} {t : List ℕ} → recv_raw s ≡ ok (pkt, t) → length t < length s
unfolding recv_raw read_bytes
recv_raw-shrinks [] h = absurd (cc)
recv_raw-shrinks (a ∷ []) h = absurd (cc)
recv_raw-shrinks (a ∷ b ∷ []) h = absurd (cc)
recv_raw-shrinks (a ∷ b ∷ c ∷ s) {t = t} h =
    let ((d, u), p, q) = >>=-eq-ok (read_bytes (a + b * 256) s) _ h in
    ground (arith, read_bytes-length (a + b * 256) s p)

recv_raw-ne-panic : (s : List ℕ) → recv_raw s ≢ panic
unfolding recv_raw read_bytes
recv_raw-ne-panic [] = ground arith
recv_raw-ne-panic (a ∷ []) = ground arith
recv_raw-ne-panic (a ∷ b ∷ []) = ground arith
recv_raw-ne-panic (a ∷ b ∷ c ∷ s) = ground (arith, read_bytes-ne-panic (a + b * 256) s)

after_recv-ne-none :
    (again : List ℕ → Option (List Packet × Error)) (s : List ℕ) (r : Result (Packet × List ℕ))
    → recv_raw s ≡ r
    → ((t : List ℕ) → length t < length s → again t ≢ none)
    → after_recv again r ≢ none
unfolding after_recv
after_recv-ne-none again s (ok (pkt, t)) p h = ground (arith, h t (recv_raw-shrinks s p))
after_recv-ne-none again s (err e) p h = ground arith
after_recv-ne-none again s panic p h = absurd (recv_raw-ne-panic s p)

-- Whatever is on the stream, the receiver's loop ends within as many rounds as there are bytes,
-- and one more.
pub recv_loop-ne-none : (n : ℕ) (s : List ℕ) → length s < n → recv_loop n s ≢ none
unfolding recv_loop
recv_loop-ne-none zero s l = absurd (omega arith)
recv_loop-ne-none (suc n) s l =
    after_recv-ne-none (recv_loop n) s (recv_raw s) refl λ t k. recv_loop-ne-none n t (omega arith)
