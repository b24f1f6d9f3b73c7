-- ===== src/Server/App.antt =====
-- server/internal/app/app.go: the sessions that are open, each counted by the clients that use it.
pub mod Counting
pub mod Lookups
use mathlib.Core.Option
use multiplayer.Prelude.{
  List, Option, Result, [], bad_secret, err, if◌then◌else◌, leb, map, none, not, ok, panic, some, ℕ,
  ◌+◌, ◌-◌, ◌>>=◌, ◌∷◌,
}
use multiplayer.Wal.Log.{Wal, close_wal}
use multiplayer.Wal.Log.Load.{open_wal}
use multiplayer.File.{File}
use multiplayer.Bytes.{array_eq, ByteArray}

-- The fields Secret and wal of session.Session.
pub record Session : Type 0 where
  pub secret : ByteArray 8
  pub wal : Wal

-- `count` is an int that starts at 1; a session whose count reaches 0 is deleted.
pub record AppSession : Type 0 where
  pub session : Session
  pub count : ℕ

abbrev pub Sessions : Type 0
Sessions = List (ByteArray 16 × AppSession)

unfoldable pub find_session : ByteArray 16 → Sessions → Option AppSession
find_session k [] = none
find_session k ((j, a) ∷ l) = if array_eq 16 j k then some a else find_session k l

-- `appS.count = n` through the pointer in the map.
unfoldable pub set_count : ByteArray 16 → ℕ → Sessions → Sessions
set_count k n [] = []
set_count k n ((j, a) ∷ l) =
    if array_eq 16 j k then (j, record a { count = n }) ∷ l else (j, a) ∷ set_count k n l

-- `delete(app.sessions, k)`
unfoldable pub delete_session : ByteArray 16 → Sessions → Sessions
delete_session k [] = []
delete_session k ((j, a) ∷ l) =
    let rest = delete_session k l in if array_eq 16 j k then rest else (j, a) ∷ rest

-- session.OpenSession, from what os.MkdirAll and os.OpenFile come to for the path of the session: the
-- file of the log, or an error.
open_session : ByteArray 8 → Result File → Option (Result Session)
open_session secret (ok f) =
    Option.map (λ r. r >>= λ w. ok (record { secret = secret; wal = w })) (open_wal f)
open_session secret (err e) = some (err e)
open_session secret panic = some panic

on_open : ByteArray 16 → Sessions → Result Session → Result Session × Sessions
on_open id l (ok s) = (ok s, (id, record { session = s; count = 1 }) ∷ l)
on_open id l (err e) = (err e, l)
on_open id l panic = (panic, l)

on_found :
    ByteArray 16
    → ByteArray 8
    → Result File
    → Sessions
    → Option AppSession
    → Option (Result Session × Sessions)
unfolding open_session on_open
on_found id secret f l none = Option.map (on_open id l) (open_session secret f)
on_found id secret f l (some a) = some (
    if not (array_eq 8 a.session.secret secret)
    then (err bad_secret, l)
    else (ok a.session, set_count id (a.count + 1) l))

-- func (app *App) acquireSession. `none` is no outcome of the program: see `open_wal`.
unfoldable pub acquire_session :
    ByteArray 16 → ByteArray 8 → Result File → Sessions → Option (Result Session × Sessions)
unfolding on_found
acquire_session id secret f l = on_found id secret f l (find_session id l)

on_release : ByteArray 16 → Sessions → Option AppSession → Option Session × Sessions
on_release id l none = (none, l)
on_release id l (some a) =
    if leb (a.count - 1) 0
    then (some (record a.session { wal = close_wal a.session.wal }), delete_session id l)
    else (none, set_count id (a.count - 1) l)

-- func (app *App) releaseSession, with the session that it closes.
unfoldable pub release_session : ByteArray 16 → Sessions → Option Session × Sessions
unfolding on_release
release_session id l = on_release id l (find_session id l)
