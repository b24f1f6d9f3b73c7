-- ===== src/Client/Daemon/Registry/Routes.antt =====
-- The IDs that the daemon lists are those under which it finds its clients.
use multiplayer.Prelude.{
  All, Bool-cases, List, ap, inl, inr, refl, some, suc, zero, ℕ, ◌∷◌, ◌≡◌, [], ◌∙◌, sym, subst,
  Option, none,
}
use multiplayer.Bytes.{ByteArray, bytes, to_array, array_eq, IsByte}
use multiplayer.Bytes.Laws.{array_eq_iff}
use multiplayer.Bytes.Hex.{decode_string, encode_to_string, decode_string-encode_to_string}
use multiplayer.Client.Daemon.{Client, subscribe, new_client}
use multiplayer.Client.Daemon.Registry.{
  Clients, Daemon, events, find_client, store_client, events_of, route_events,
  http_route_client_events, http_route_clients, delete_client, watchdog, Step, Reach, accepts,
  registers, ends, ticks, requests, here, next_step, register, deregister, new_daemon,
}

to_array-bytes : (n : ℕ) (a : ByteArray n) → to_array n (bytes n a) ≡ a
to_array-bytes zero a = refl
to_array-bytes (suc n) (x, a) = ap (λ (b : ByteArray n). (x, b)) (to_array-bytes n a)

-- A client of the daemon for an ID of the list, whose events one can subscribe to.
abbrev pub IsFound : Daemon → List ℕ → Type 0
IsFound d id =
    (k : ByteArray 16) × (c : Client) × (find_client k d.clients ≡ some c)
    × (id ≡ encode_to_string (bytes 16 k))
    × (http_route_client_events id d
        ≡ (events c.next, record d { clients = store_client k (subscribe c).1 d.clients }))

find_first :
    (k : ByteArray 16) (c : Client) (cs : Clients)
    → (x : Client) × (find_client k ((k, c) ∷ cs) ≡ some x)
unfolding find_client
find_first k c cs = (c, rw ((array_eq_iff 16 k k).1 refl) refl)

-- A client that is found behind another.
find_behind :
    (j k : ByteArray 16) (b c : Client) (cs : Clients)
    → find_client k cs ≡ some c
    → (x : Client) × (find_client k ((j, b) ∷ cs) ≡ some x)
unfolding find_client
find_behind j k b c cs h = elim (Bool-cases (array_eq 16 j k)) [
  | inl e ↦ (b, rw e refl)
  | inr e ↦ (c, rw e h)
]

found :
    (d : Daemon) (k : ByteArray 16) (c : Client)
    → All IsByte (bytes 16 k)
    → find_client k d.clients ≡ some c
    → IsFound d (encode_to_string (bytes 16 k))
unfolding http_route_client_events route_events events_of subscribe
found d k c b h =
    (k, c, h, refl, rw (decode_string-encode_to_string (bytes 16 k) b, to_array-bytes 16 k, h) refl)

-- The clients that some clients have in them.
abbrev Holds : Clients → Clients → Type 0
Holds cs xs = All (λ (x : ByteArray 16 × Client). (c : Client) × (find_client x.0 cs ≡ some c)) xs

Holds-behind :
    (j : ByteArray 16) (b : Client) (cs xs : Clients) → Holds cs xs → Holds ((j, b) ∷ cs) xs
Holds-behind j b cs [] h = tt
Holds-behind j b cs (x ∷ xs) ((c, f), h) = (find_behind j x.0 b c cs f, Holds-behind j b cs xs h)

Holds-self : (cs : Clients) → Holds cs cs
Holds-self [] = tt
Holds-self ((k, c) ∷ cs) = (find_first k c cs, Holds-behind k c cs cs (Holds-self cs))

-- Each client stands in the map under its own ID.
abbrev IsNamed : Clients → Type 0
IsNamed cs = All (λ (x : ByteArray 16 × Client). x.1.id ≡ x.0) cs

store-IsNamed :
    (k : ByteArray 16) (c : Client) (cs : Clients)
    → c.id ≡ k
    → IsNamed cs
    → IsNamed (store_client k c cs)
unfolding store_client
store-IsNamed k c [] h n = (h, tt)
store-IsNamed k c ((j, x) ∷ cs) h (a, n) = elim (Bool-cases (array_eq 16 j k)) [
  | inl e ↦ rw e (h ∙ sym ((array_eq_iff 16 j k).0 e), n)
  | inr e ↦ rw e (a, store-IsNamed k c cs h n)
]

delete-IsNamed : (k : ByteArray 16) (cs : Clients) → IsNamed cs → IsNamed (delete_client k cs)
unfolding delete_client
delete-IsNamed k [] n = tt
delete-IsNamed k ((j, x) ∷ cs) (a, n) = elim (Bool-cases (array_eq 16 j k)) [
  | inl e ↦ rw e (delete-IsNamed k cs n)
  | inr e ↦ rw e (a, delete-IsNamed k cs n)
]

find-IsNamed :
    (k : ByteArray 16) (c : Client) (cs : Clients)
    → IsNamed cs
    → find_client k cs ≡ some c
    → c.id ≡ k
unfolding find_client
find-IsNamed k c [] n h = absurd (cc)
find-IsNamed k c ((j, x) ∷ cs) (a, n) h = elim (Bool-cases (array_eq 16 j k)) [
  | inl e ↦
      let f : some x ≡ some c = rw e at h in
      let q : x ≡ c = cc in ap (λ (y : Client). y.id) (sym q) ∙ a ∙ (array_eq_iff 16 j k).0 e
  | inr e ↦ find-IsNamed k c cs n (rw e at h)
]

events_of-IsNamed :
    (k : ByteArray 16) (o : Option Client) (d : Daemon)
    → find_client k d.clients ≡ o
    → IsNamed d.clients
    → IsNamed (events_of k o d).1.clients
unfolding events_of subscribe
events_of-IsNamed k none d f n = n
events_of-IsNamed k (some c) d f n =
    store-IsNamed k (subscribe c).1 d.clients (find-IsNamed k c d.clients n f) n

requested-IsNamed :
    (o : Option (List ℕ)) (d : Daemon) → IsNamed d.clients → IsNamed (route_events o d).1.clients
unfolding route_events
requested-IsNamed none d n = n
requested-IsNamed (some id) d n =
    events_of-IsNamed (to_array 16 id) (find_client (to_array 16 id) d.clients) d refl n

watchdog-clients : (cs : Clients) (d : Daemon) → d.clients ≡ cs → (watchdog d).clients ≡ d.clients
unfolding watchdog
watchdog-clients [] d h = rw h refl
watchdog-clients (c ∷ cs) d h = rw h refl

Step-IsNamed : (d u : Daemon) → IsNamed d.clients → Step d u → IsNamed u.clients
unfolding register deregister http_route_client_events new_client
Step-IsNamed d _ n accepts = n
Step-IsNamed d _ n (registers m id e f) = store-IsNamed id (new_client id) d.clients refl n
Step-IsNamed d _ n (ends id) = delete-IsNamed id d.clients n
Step-IsNamed d _ n ticks = subst IsNamed (sym (watchdog-clients d.clients d refl)) n
Step-IsNamed d _ n (requests id) = requested-IsNamed (decode_string id) d n

Reach-IsNamed : (d u : Daemon) → IsNamed d.clients → Reach d u → IsNamed u.clients
Reach-IsNamed d _ n here = n
Reach-IsNamed d u n (next_step {u = x} g s) = Step-IsNamed x u (Reach-IsNamed d x n g) s

listed :
    (d : Daemon) (cs : Clients)
    → All (λ (x : ByteArray 16 × Client). All IsByte (bytes 16 x.0)) cs
    → IsNamed cs
    → Holds d.clients cs
    → All (IsFound d) (http_route_clients cs)
unfolding http_route_clients
listed d [] b n h = tt
listed d ((k, c) ∷ cs) (b, v) (e, n) ((x, f), h) = (rw e (found d k x b f), listed d cs v n h)

-- After connections, requests and turns of the watchdog, in any order: each ID in the answer to
-- `GET /clients` is the one of a client, and while the clients are the same, `GET /clients/{id}/events`
-- with it finds that client and subscribes to it: a new channel is made, and neither "Invalid client ID"
-- nor "Client not found" is answered. The IDs are made of bytes.
pub http_route_clients-IsFound :
    (d : Daemon)
    → Reach new_daemon d
    → All (λ (x : ByteArray 16 × Client). All IsByte (bytes 16 x.0)) d.clients
    → All (IsFound d) (http_route_clients d.clients)
unfolding new_daemon
http_route_clients-IsFound d g b =
    listed d d.clients b (Reach-IsNamed new_daemon d tt g) (Holds-self d.clients)
