-- ===== src/Client/Run/Restart.antt =====
-- A session that is started again.
use multiplayer.Server.Join.Handshake.{handshake}
use multiplayer.Server.Join.{receive_hello}
use multiplayer.Client.Uplink.{hello_packet, magic, version}
use multiplayer.Protocol.Packet.{ClientHello}
use multiplayer.Bytes.Words.{IsU32}
use multiplayer.File.{opened, File}
use multiplayer.Prelude.{ok, refl, some, [], All, List, ℕ, ◌≡◌, ◌≢◌, ap, arith, ◌∙◌}
use multiplayer.Client.Info.{Info, InfoMode, single, coop, multi}
use multiplayer.Client.Ipc.{MessageBodyHelloIn}
use multiplayer.Client.Game.{Session}
use multiplayer.Client.SendQueue.Durable
use multiplayer.Client.SendQueue.Durable.{reopen-pending, Reach}
use multiplayer.Client.Run.{
  start_session, check_info, open_queue, is_single, on_queue, on_wal, on_check, from_file,
  new_session,
}
use multiplayer.Wal.Log.History.{restart, append_all, append_all-IsWal}
use multiplayer.Client.SendQueue.{open_send_queue, SendQueue, lookup}
use multiplayer.Wal.Log.{Wal}
use multiplayer.Wal.Entry.{WalEntry}
use multiplayer.Wal.Log.Load.{open_wal}
use multiplayer.Wal.Log.Invariant.{IsStored, IsWal}
use multiplayer.File.Laws.{OneFault}
use multiplayer.Bytes.{ByteArray}

open_queue-multi :
    (mode : InfoMode) (f : File) → mode ≢ single → open_queue mode (ok f) ≡ open_send_queue f
unfolding open_queue is_single from_file
open_queue-multi single f h = absurd (h refl)
open_queue-multi coop f h = refl
open_queue-multi multi f h = refl

start_session-opened :
    (info : Info) (h : MessageBodyHelloIn) (seq_game : ℕ) (a b : File) (q : SendQueue) (w : Wal)
    → info.mode ≢ single
    → check_info info h ≡ ok tt
    → open_send_queue a ≡ some (ok q)
    → open_wal b ≡ some (ok w)
    → start_session info h seq_game (ok tt) (ok a) (ok b)
      ≡ some (ok (new_session info h seq_game q w))
unfolding start_session on_queue on_wal on_check from_file
start_session-opened info h seq_game a b q w m c x y =
    rw c (rw (open_queue-multi info.mode a m) (rw x (rw y refl)))

-- The hello of a session, with the index that it asks for.
abbrev hello_from : Info → MessageBodyHelloIn → ℕ → ClientHello
hello_from info h n = record {
  magic = magic;
  version = version;
  session_id = info.session_id;
  session_secret = info.session_secret;
  player_id = h.player_id;
  player_name = h.player_name;
  world_id = info.world_id;
  wal_index = n;
}

-- A client of a game for several players, whose log was in good order, has taken in entries that it may
-- hold while at most one call on the log's file failed, and its queue has started on an empty file, with
-- calls of Add that returned without an error and calls of Ack. When it is started anew on the files as
-- they are, which can be opened and read, for a game with the ids of the patch file: the session starts, its log has the entries, the
-- keys and the count of the one that was in memory, each entry that was queued is queued again, and the
-- server reads in the bytes of the hello that the session sends it the ids of the patch file, the player
-- of the game, and the count as the index of the entries that it asks for.
pub start_session-restart :
    (info : Info) (h : MessageBodyHelloIn) (seq_game : ℕ) (sq : SendQueue) (w : Wal)
    (es : List WalEntry)
    → info.mode ≢ single
    → check_info info h ≡ ok tt
    → Durable.Reach sq
    → IsWal w
    → OneFault w.file.outcomes
    → All IsStored es
    → let now = append_all es w in
      (s : Session) × (start_session info h seq_game
          (ok tt)
          (ok (opened sq.file.content []))
          (ok (opened now.file.content []))
        ≡ some (ok s))
      × (s.wal.entries ≡ now.entries)
      × (s.wal.set ≡ now.set)
      × (receive_hello (hello_packet info s)
          ≡ ok (record {
            magic = magic;
            version = version;
            session_id = info.session_id;
            session_secret = info.session_secret;
            player_id = h.player_id;
            player_name = h.player_name;
            world_id = info.world_id;
            wal_index = now.count;
          }))
      × ((k : ByteArray 16) (d : List ℕ)
          → lookup k sq.entries ≡ some d
          → lookup k s.send_q.entries ≡ some d)
unfolding new_session
start_session-restart info h seq_game sq w es m c r v o s =
    let (q, a, b) = reopen-pending sq r in
    let (u, d, e, f, g) = restart w es v o s in
    let t = new_session info h seq_game q u in
    let z = (append_all-IsWal es w v o s).count in
    let small : IsU32 t.wal.count = omega (arith, g, z) in
    (
      new_session info h seq_game q u,
      start_session-opened info h seq_game (opened sq.file.content [])
          (opened (append_all es w).file.content []) q u m c a d,
      e,
      f,
      (handshake info t small).0 ∙ ap (λ n. ok (hello_from info h n)) g,
      b,
    )
