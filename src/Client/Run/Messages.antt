-- ===== src/Client/Run/Messages.antt =====
-- handleMsgOut and handleMsgIn of client/internal/game/session.go: the messages to the game, each with its
-- number, as bytes, and the messages that the client makes of the bytes that a UnixConn receives.
use mathlib.Core.Option
use multiplayer.Prelude.{
  Bool, true, false, ok, err, List, ◌++◌, ◌>>=◌, length, refl, some, none, Error, Option, Result,
  [], panic, suc, zero, ℕ, ◌%◌, ◌+◌, ◌-◌, ◌<◌, ◌^◌, ◌∷◌, ◌≡◌, All, ap, arith, eof, sym, ◌∙◌,
}
use multiplayer.Client.Ipc.{Message, parse_message, serialize_message}
use multiplayer.Client.Ipc
use multiplayer.Client.Ipc.Unix.{unix_write, unix_read, unix_read-unix_write, unix_read-nil}
use multiplayer.Client.Ipc.RoundTrip.{
  serialize_message_lem, serialize_message-length, parse_message-serialize,
}
use multiplayer.Client.Run.{number}
use multiplayer.Bytes.Words.{IsU32, be32}
use multiplayer.Wal.Log.{next_u32}

-- What handleMsgOut gives to Conn.Write for the messages that it takes from its channel, as long as Write
-- returns without an error: `writes` says of its calls whether they do, and those behind do.
unfoldable pub msg_out : List Bool → ℕ → List Message → List (List ℕ)
msg_out writes seq_net [] = []
msg_out [] seq_net (m ∷ ms) =
    let (m', next) = number seq_net m in serialize_message m' ∷ msg_out [] next ms
msg_out (true ∷ writes) seq_net (m ∷ ms) =
    let (m', next) = number seq_net m in serialize_message m' ∷ msg_out writes next ms
msg_out (false ∷ writes) seq_net (m ∷ ms) = []

-- A round of handleMsgIn: Conn.Read and ParseMessage.
msg_read : List ℕ → Result (Message × List ℕ)
msg_read s = do (d, t) ← unix_read s; m ← Ipc.parse_message d; ok (m, t)

after_read :
    (List ℕ → Option (List Message × Error))
    → Result (Message × List ℕ)
    → Option (List Message × Error)
after_read again (ok (m, s)) = Option.map (λ r. (m ∷ r.0, r.1)) (again s)
after_read again (err e) = some ([], e)
after_read again panic = none

-- handleMsgIn, until a call fails; a round takes four bytes at least.
unfoldable pub msg_in : ℕ → List ℕ → Option (List Message × Error)
unfolding msg_read after_read
msg_in zero s = none
msg_in (suc n) s = after_read (msg_in n) (msg_read s)

-- The messages before the first one whose write fails.
abbrev pub before_failure : List Bool → List Message → List Message
before_failure writes [] = []
before_failure [] (m ∷ ms) = m ∷ before_failure [] ms
before_failure (true ∷ writes) (m ∷ ms) = m ∷ before_failure writes ms
before_failure (false ∷ writes) (m ∷ ms) = []

-- The bytes of messages: the one at position i has the i-th number from the first on, modulo 2^32.
abbrev pub numbered_bytes : ℕ → ℕ → List Message → List (List ℕ)
numbered_bytes first i [] = []
numbered_bytes first i (m ∷ ms) =
    (be32 ((first + i) % 2 ^ 32) ++ m.op ∷ m.payload) ∷ numbered_bytes first (suc i) ms

next_number : (first i : ℕ) → next_u32 ((first + i) % 2 ^ 32) ≡ (first + suc i) % 2 ^ 32
next_number first i = omega arith

msg_out-from :
    (writes : List Bool) (first i : ℕ) (ms : List Message)
    → msg_out writes ((first + i) % 2 ^ 32) ms ≡ numbered_bytes first i (before_failure writes ms)
unfolding msg_out number
msg_out-from writes first i [] = refl
msg_out-from [] first i (m ∷ ms) =
    rw (serialize_message_lem, next_number first i)
      (ap (◌∷◌ (be32 ((first + i) % 2 ^ 32) ++ m.op ∷ m.payload))
        (msg_out-from [] first (suc i) ms))
msg_out-from (true ∷ writes) first i (m ∷ ms) =
    rw (serialize_message_lem, next_number first i)
      (ap (◌∷◌ (be32 ((first + i) % 2 ^ 32) ++ m.op ∷ m.payload))
        (msg_out-from writes first (suc i) ms))
msg_out-from (false ∷ writes) first i (m ∷ ms) = refl

-- The messages to the game, whichever kind of connection it has: Write is given them one by one in their
-- order, up to the first call that fails, and none behind it; the bytes of the one at position i are the
-- number that the first would have, plus i, modulo 2^32, with the most significant byte first, then its
-- code, and then all of its payload.
pub msg_out_lem :
    (writes : List Bool) (seq_net : ℕ) (ms : List Message)
    → IsU32 seq_net
    → msg_out writes seq_net ms ≡ numbered_bytes seq_net 0 (before_failure writes ms)
msg_out_lem writes seq_net ms h =
    let e : (seq_net + 0) % 2 ^ 32 ≡ seq_net = omega arith in
    ap (λ x. msg_out writes x ms) (sym e) ∙ msg_out-from writes seq_net 0 ms

-- Messages, each with a length in front of it.
stream : List Message → List ℕ
stream [] = []
stream (m ∷ ms) = unix_write (serialize_message m) ++ stream ms

msg_in_ok :
    (n : ℕ) (s t : List ℕ) (m : Message) (ms : List Message) (e : Error)
    → msg_read s ≡ ok (m, t)
    → msg_in n t ≡ some (ms, e)
    → msg_in (suc n) s ≡ some (m ∷ ms, e)
unfolding msg_in after_read
msg_in_ok n s t m ms e p q = rw p (rw q refl)

msg_read-write :
    (m : Message) (rest : List ℕ)
    → IsU32 m.seq
    → length m.payload < 2 ^ 32 - 5
    → msg_read (unix_write (serialize_message m) ++ rest) ≡ ok (m, rest)
unfolding msg_read
msg_read-write m rest h l =
    let b : length (serialize_message m) < 2 ^ 32 = omega (arith, serialize_message-length m) in
    rw (unix_read-unix_write (serialize_message m) rest b) (rw (parse_message-serialize m h) refl)

msg_in-nil : (n : ℕ) → msg_in (suc n) [] ≡ some ([], eof)
unfolding msg_in msg_read after_read
msg_in-nil n = rw unix_read-nil refl

-- Messages with payloads shorter than 2^32 - 5 bytes, each framed as UnixConn frames them, are read one
-- by one, whole and in their order; then the reader sees the end of the stream, if its loop has more
-- rounds than there are messages.
msg_in-stream :
    (ms : List Message) (n : ℕ)
    → All (λ m. IsU32 m.seq × (length m.payload < 2 ^ 32 - 5)) ms
    → length ms < n
    → msg_in n (stream ms) ≡ some (ms, eof)
unfolding stream
msg_in-stream ms zero b l = absurd (omega arith)
msg_in-stream [] (suc n) b l = msg_in-nil n
msg_in-stream (m ∷ ms) (suc n) ((h, b), bs) l =
    msg_in_ok n (unix_write (serialize_message m) ++ stream ms) (stream ms) m ms eof
      (msg_read-write m (stream ms) h b) (msg_in-stream ms n bs (omega arith))
