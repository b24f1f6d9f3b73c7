-- ===== src/Client/Run.antt =====
-- client/internal/app/app.go, `hello`, and client/internal/game/session.go, `Run`: how a game is let in,
-- and the session that is made for it. The texts that are printed, and what the daemon is told, are left
-- out.
pub mod Admission
pub mod Restart
pub mod Messages
pub mod Polling
mod Examples
use multiplayer.Prelude.{
  Option, Result, bad_magic, bad_op, bad_sequence, bad_session, bad_world, err, ok, none, some,
  panic, not, ◌==◌, ◌>>=◌, Bool, List, [], false, if◌then◌else◌, true, ℕ, ◌>>◌, ◌||◌,
}
use multiplayer.Client.Info.{Info, InfoMode, single, coop, multi}
use multiplayer.Client.Ipc.{
  Message, MessageBodyHelloIn, parse_message, serialize_hello_out, op_hello, parse_hello_in,
}
use multiplayer.Client.Ipc
use multiplayer.Client.Game.{Session}
use multiplayer.Client.SendQueue.{SendQueue, open_send_queue}
use multiplayer.Client.Positions.{create_position_system}
use multiplayer.Client.Uplink.{magic}
use multiplayer.Wal.Log.Load.{open_wal}
use multiplayer.Bytes.{array_eq}
use multiplayer.File.{File, opened}
use multiplayer.Wal.Log.{next_u32, Wal}

-- What `hello` asks of the first message.
unfoldable pub check_message : Message → Result (Unit {0})
check_message m =
    if not (m.op == Ipc.op_hello)
    then err bad_op
    else if not (m.seq == 0)
    then err bad_sequence
    else ok tt

unfoldable pub check_game : MessageBodyHelloIn → Result MessageBodyHelloIn
check_game h = if array_eq 8 h.magic magic then ok h else err bad_magic

-- func (app *App) hello, from the bytes that conn.Read gives.
unfoldable pub hello : List ℕ → Result MessageBodyHelloIn
unfolding check_message check_game
hello raw = do
  msg ← Ipc.parse_message raw
  check_message msg
  h ← Ipc.parse_hello_in msg.payload
  check_game h

-- The comparisons that Run starts with.
unfoldable pub check_info : Info → MessageBodyHelloIn → Result (Unit {0})
check_info info h =
    if not (array_eq 16 h.session_id info.session_id)
      || not (array_eq 8 h.session_secret info.session_secret)
    then err bad_session
    else if not (h.world_id == info.world_id)
    then err bad_world
    else ok tt

is_single : InfoMode → Bool
is_single single = true
is_single coop = false
is_single multi = false

-- In the mode for one player there is no queue, and no handler looks at it.
no_queue : SendQueue
no_queue = record { file = opened [] []; entries = [] }

-- What is made of a file, if os.OpenFile gives one.
from_file : {A : Type 0} → (File → Option (Result A)) → Result File → Option (Result A)
from_file load (ok f) = load f
from_file load (err e) = some (err e)
from_file load panic = some panic

open_queue : InfoMode → Result File → Option (Result SendQueue)
unfolding is_single no_queue from_file
open_queue mode f = if is_single mode then some (ok no_queue) else from_file open_send_queue f

new_session : Info → MessageBodyHelloIn → ℕ → SendQueue → Wal → Session
unfolding is_single
new_session info h seq_game q w = record {
  player_id = h.player_id;
  player_name = h.player_name;
  world_id = info.world_id;
  single = is_single info.mode;
  seq_game = seq_game;
  send_q = q;
  wal = w;
  positions = create_position_system;
}

on_wal : (Wal → Session) → Option (Result Wal) → Option (Result Session)
on_wal make none = none
on_wal make (some (ok w)) = some (ok (make w))
on_wal make (some (err e)) = some (err e)
on_wal make (some panic) = some panic

on_queue :
    (SendQueue → Wal → Session)
    → Option (Result Wal)
    → Option (Result SendQueue)
    → Option (Result Session)
unfolding on_wal
on_queue make w none = none
on_queue make w (some (ok q)) = on_wal (make q) w
on_queue make w (some (err e)) = some (err e)
on_queue make w (some panic) = some panic

on_check : Result (Unit {0}) → Option (Result Session) → Option (Result Session)
on_check (ok _) s = s
on_check (err e) s = some (err e)
on_check panic s = some panic

-- Run up to the session: `seq_game` is the random number, `dir` what makeDataDir comes to, and the files
-- are what os.OpenFile gives for the queue and the log. `none` is no outcome of the program: the fuel of a
-- loop over a file ran out.
unfoldable pub start_session :
    Info
    → MessageBodyHelloIn
    → ℕ
    → Result (Unit {0})
    → Result File
    → Result File
    → Option (Result Session)
unfolding check_info open_queue new_session on_queue on_check from_file
start_session info h seq_game dir queue_file wal_file = on_check (check_info info h) (
    on_check dir (
      on_queue (new_session info h seq_game) (from_file open_wal wal_file)
        (open_queue info.mode queue_file)))

-- The HELLO that Run answers with.
unfoldable pub hello_out : ℕ → ℕ → Message
hello_out seq_game seq_net = record {
  seq = 0;
  op = Ipc.op_hello;
  payload = serialize_hello_out (record { magic = magic; seq_game = seq_game; seq_net = seq_net });
}

-- handleMsgOut: a message gets the next number, modulo 2^32.
unfoldable pub number : ℕ → Message → Message × ℕ
number seq_net m = (record m { seq = seq_net }, next_u32 seq_net)
