-- ===== src/Client/Ipc/Unix.antt =====
-- client/internal/ipc/unixsock.go: `Read` and `Write` of UnixConn. The stream is the list of the bytes
-- still to be read; sockets and their paths are left out.
use multiplayer.Prelude.{
  ok, err, List, ◌++◌, ◌>>=◌, length, refl, eof, Result, [], append_assoc, arith, ℕ, ◌%◌, ◌<◌, ◌^◌,
  ◌≡◌,
}
use multiplayer.Protocol.Frame.{read_bytes}
use multiplayer.Protocol.Frame.Laws.{read_bytes-append}
use multiplayer.Bytes.Words.{le32, le_uint32, le_uint32-le32}

-- The bytes that Write hands to the connection.
unfoldable pub unix_write : List ℕ → List ℕ
unix_write d = le32 (length d % 2 ^ 32) ++ d

-- func (conn *UnixConn) Read
unfoldable pub unix_read : List ℕ → Result (List ℕ × List ℕ)
unix_read s = do (header, t) ← read_bytes 4 s; size ← le_uint32 header; read_bytes size t

-- Read gives back what Write wrote, if its length fits in 32 bits, and leaves what follows it.
pub unix_read-unix_write :
    (d rest : List ℕ) → length d < 2 ^ 32 → unix_read (unix_write d ++ rest) ≡ ok (d, rest)
unfolding unix_read unix_write
unix_read-unix_write d rest h =
    let e : length d % 2 ^ 32 ≡ length d = omega arith in
    rw (append_assoc (le32 (length d % 2 ^ 32)) d rest) (
      rw (read_bytes-append (le32 (length d % 2 ^ 32)) (d ++ rest) {n = 4} (unfold le32 in refl))
        (rw e (rw (le_uint32-le32 (length d) h) (read_bytes-append d rest {n = length d} refl))))

pub unix_read-nil : unix_read [] ≡ err eof
unfolding unix_read read_bytes
unix_read-nil = refl
