-- ===== src/Client/Daemon/Registry.antt =====
-- client/internal/daemon: the clients of the daemon of daemon.go, and the routes of http.go that look
-- them up. The IDs that newClient draws from crypto/rand are parameters.
pub mod Routes
pub mod Watchdog
mod Examples
use multiplayer.Prelude.{
  Bool, List, Option, [], false, if◌then◌else◌, none, some, true, ℕ, ◌∷◌, ◌++◌, ◌≡◌, suc,
}
use multiplayer.Bytes.{ByteArray, bytes, to_array, array_eq}
use multiplayer.Bytes.Hex.{encode_to_string, decode_string}
use multiplayer.Client.Daemon.{Client, new_client, subscribe}

abbrev pub Clients : Type 0
Clients = List (ByteArray 16 × Client)

unfoldable pub find_client : ByteArray 16 → Clients → Option Client
find_client k [] = none
find_client k ((j, c) ∷ cs) = if array_eq 16 j k then some c else find_client k cs

unfoldable pub delete_client : ByteArray 16 → Clients → Clients
delete_client k [] = []
delete_client k ((j, c) ∷ cs) =
    let rest = delete_client k cs in if array_eq 16 j k then rest else (j, c) ∷ rest

-- `m[k] = c` for the map of the clients.
unfoldable pub store_client : ByteArray 16 → Client → Clients → Clients
store_client k c [] = (k, c) ∷ []
store_client k c ((j, x) ∷ cs) =
    let rest = store_client k c cs in if array_eq 16 j k then (j, c) ∷ cs else (j, x) ∷ rest

unfoldable pub remove : ByteArray 16 → List (ByteArray 16) → List (ByteArray 16)
remove k [] = []
remove k (j ∷ js) = let rest = remove k js in if array_eq 16 j k then rest else j ∷ rest

-- type daemon. The context is `alive` until it is cancelled; `connections` are the clients that the
-- goroutines of handleConnection have, in their order, and `accepted` is how many connections have been
-- accepted whose goroutines have not yet put a client into the map.
pub record Daemon : Type 0 where
  pub clients : Clients
  pub alive : Bool
  pub accepted : ℕ
  pub connections : List (ByteArray 16)

-- The daemon that Run makes.
unfoldable pub new_daemon : Daemon
new_daemon = record { clients = []; alive = true; accepted = 0; connections = [] }

-- The start of handleConnection.
unfoldable pub register : ByteArray 16 → Daemon → Daemon
unfolding store_client
register id d = record d {
  clients = store_client id (new_client id) d.clients;
  connections = d.connections ++ id ∷ [];
}

-- The end of handleConnection.
unfoldable pub deregister : ByteArray 16 → Daemon → Daemon
unfolding delete_client remove
deregister id d = record d {
  clients = delete_client id d.clients;
  connections = remove id d.connections;
}

-- A turn of watchdog.
unfoldable pub watchdog : Daemon → Daemon
watchdog d = elim d.clients [ [] ↦ record d { alive = false } | c ∷ (cs → r) ↦ d ]

-- What httpRouteClientEvents answers, up to the upgrade to a websocket.
pub data Reply : Type 0 where
  bad_request not_found : Reply
  events : (channel : ℕ) → Reply

unfoldable pub events_of : ByteArray 16 → Option Client → Daemon → Reply × Daemon
unfolding store_client
events_of key none d = (not_found, d)
events_of key (some c) d =
    let (ch, c) = subscribe c in (events ch, record d { clients = store_client key c d.clients })

unfoldable pub route_events : Option (List ℕ) → Daemon → Reply × Daemon
unfolding events_of find_client
route_events none d = (bad_request, d)
route_events (some id) d = let key = to_array 16 id in events_of key (find_client key d.clients) d

-- func (d *daemon) httpRouteClientEvents, with the path value `id`
unfoldable pub http_route_client_events : List ℕ → Daemon → Reply × Daemon
unfolding route_events
http_route_client_events id d = route_events (decode_string id) d

-- func (d *daemon) httpRouteClients: the IDs of the answer
unfoldable pub http_route_clients : Clients → List (List ℕ)
http_route_clients [] = []
http_route_clients ((k, c) ∷ cs) = encode_to_string (bytes 16 c.id) ∷ http_route_clients cs

pub data Step (d : Daemon) : Daemon → Type 0 where
  -- A game connects.
  accepts : Step d (record d { accepted = suc d.accepted })
  -- Its goroutine starts. newClient draws an ID that no client has.
  registers :
      (n : ℕ) (id : ByteArray 16)
      → d.accepted ≡ suc n
      → find_client id d.clients ≡ none
      → Step d (register id (record d { accepted = n }))
  ends : (id : ByteArray 16) → Step d (deregister id d)
  ticks : Step d (watchdog d)
  -- A request for the events of a client.
  requests : (id : List ℕ) → Step d (http_route_client_events id d).1

pub data Reach (d : Daemon) : Daemon → Type 0 where
  here : Reach d d
  next_step : {u v : Daemon} → Reach d u → Step u v → Reach d v
