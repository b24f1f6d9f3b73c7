-- ===== src/Protocol/Frame.antt =====
-- shared/protocol/io.go: packets on a byte stream. SendRaw writes a packet as its length in two bytes,
-- its opcode, and its bytes; RecvRaw reads one. The deadlines of the connection end in an error of the
-- call, as any other failure of it does. The stream is the list of the bytes still to be read.
pub mod Laws
use mathlib.Core.Option
use multiplayer.Prelude.{
  List, ok, Error, Option, Result, [], drop, eof, err, if◌then◌else◌, length, ltb, map, none, panic,
  some, suc, take, too_large, unexpected_eof, zero, ℕ, ◌%◌, ◌+◌, ◌>>=◌, ◌>>◌, ◌^◌, ◌∷◌, ◌++◌,
}
use multiplayer.Bytes.{index, make_bytes, shorter, slice, write_all}
use multiplayer.Bytes.Words.{le16, le_uint16}
use multiplayer.Protocol.Packet.{Packet}

-- The bytes that SendRaw hands to `conn.Write`, or its error.
unfoldable pub send_raw : Packet → Result (List ℕ)
send_raw pkt =
    let size = length pkt.content in
    if ltb 65535 size
    then err too_large
    else ok (
        write_all ((0, le16 (size % 2 ^ 16)) ∷ (2, pkt.op % 256 ∷ []) ∷ (3, pkt.content) ∷ [])
          (make_bytes (3 + size)))

-- io.ReadFull of n bytes from the connection: the bytes, and what is left of the stream.
unfoldable pub read_bytes : ℕ → List ℕ → Result (List ℕ × List ℕ)
read_bytes zero s = ok ([], s)
read_bytes (suc n) [] = err eof
read_bytes (suc n) (b ∷ s) =
    if shorter s n then err unexpected_eof else ok (take (suc n) (b ∷ s), drop n s)

-- func RecvRaw
unfoldable pub recv_raw : List ℕ → Result (Packet × List ℕ)
unfolding index slice le_uint16
recv_raw s = do
  (header, s1) ← read_bytes 3 s
  size ← le_uint16 (← slice header 0 2)
  (d, s2) ← read_bytes size s1
  op ← index header 2
  ok (record { op = op; content = d }, s2)

-- One packet after the other, until the stream ends: what the loops over RecvRaw take in. Each packet
-- takes three bytes at least.
after_recv :
    (List ℕ → Option (List Packet × Error))
    → Result (Packet × List ℕ)
    → Option (List Packet × Error)
after_recv again (ok (pkt, s)) = Option.map (λ r. (pkt ∷ r.0, r.1)) (again s)
after_recv again (err e) = some ([], e)
after_recv again panic = none

pub recv_loop : ℕ → List ℕ → Option (List Packet × Error)
unfolding after_recv
recv_loop zero s = none
recv_loop (suc n) s = after_recv (recv_loop n) (recv_raw s)

-- The packets of a sender, one after the other.
unfoldable pub send_all : List Packet → Result (List ℕ)
send_all [] = ok []
send_all (pkt ∷ pkts) = do d ← send_raw pkt; rest ← send_all pkts; ok (d ++ rest)
