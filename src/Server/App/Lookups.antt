-- ===== src/Server/App/Lookups.antt =====
-- The map of the sessions: what a new count and a deletion do to a lookup.
use multiplayer.Prelude.{Option, [], arith, if◌then◌else◌, none, some, ℕ, ◌∷◌, ◌≡◌}
use multiplayer.Server.App.{AppSession, Sessions, delete_session, find_session, set_count}
use multiplayer.Bytes.{array_eq, ByteArray}
use multiplayer.Bytes.Laws.{array_eq_comm, array_eq_left}

-- A session with another count.
unfoldable pub recounted : ℕ → Option AppSession → Option AppSession
recounted n none = none
recounted n (some a) = some (record a { count = n })

pub find-set_count :
    (k j : ByteArray 16) (n : ℕ) (l : Sessions)
    → find_session j (set_count k n l)
      ≡ (if array_eq 16 k j then recounted n (find_session j l) else find_session j l)
unfolding find_session set_count recounted
find-set_count k j n [] = ground arith
find-set_count k j n ((i, a) ∷ l) = ground (
  arith,
  find-set_count k j n l,
  array_eq_left 16 i k j,
  array_eq_left 16 i j k,
  array_eq_comm 16 k j,
)

pub find-delete_session :
    (k j : ByteArray 16) (l : Sessions)
    → find_session j (delete_session k l) ≡ (if array_eq 16 k j then none else find_session j l)
unfolding find_session delete_session
find-delete_session k j [] = ground arith
find-delete_session k j ((i, a) ∷ l) = ground (
  arith,
  find-delete_session k j l,
  array_eq_left 16 i k j,
  array_eq_left 16 i j k,
  array_eq_comm 16 k j,
)
