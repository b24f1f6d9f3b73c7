-- ===== src/Client/Daemon/Registry/Watchdog.antt =====
-- The daemon stops by itself only when no game is in its map.
use multiplayer.Client.Daemon.Registry.{
  Step, Reach, Clients, Daemon, watchdog, find_client, delete_client, store_client, remove,
  events_of, route_events, accepts, registers, deregister, ends, here, http_route_client_events,
  new_daemon, next_step, register, requests, ticks,
}
use multiplayer.Prelude.{
  Bool, Bool-cases, List, Option, [], ap, inl, inr, none, refl, some, ℕ, ◌++◌, ◌∙◌, ◌∷◌, ◌≡◌, false,
  sym, true, ◌↔◌, subst,
}
use multiplayer.Bytes.{ByteArray, array_eq, to_array}
use multiplayer.Bytes.Hex.{decode_string}
use multiplayer.Client.Daemon.{Client, new_client, subscribe}

abbrev ids : Clients → List (ByteArray 16)
ids [] = []
ids (x ∷ cs) = x.0 ∷ ids cs

ids-delete : (k : ByteArray 16) (cs : Clients) → ids (delete_client k cs) ≡ remove k (ids cs)
unfolding delete_client remove
ids-delete k [] = refl
ids-delete k ((j, c) ∷ cs) = elim (Bool-cases (array_eq 16 j k)) [
  | inl e ↦ rw e (ids-delete k cs)
  | inr e ↦ rw e (ap (◌∷◌ j) (ids-delete k cs))
]

-- A client that the map has is stored in its place.
ids-store_old :
    (k : ByteArray 16) (b c : Client) (cs : Clients)
    → find_client k cs ≡ some b
    → ids (store_client k c cs) ≡ ids cs
unfolding find_client store_client
ids-store_old k b c [] h = absurd (cc)
ids-store_old k b c ((j, x) ∷ cs) h = elim (Bool-cases (array_eq 16 j k)) [
  | inl e ↦ rw e refl
  | inr e ↦
      let f : find_client k cs ≡ some b = rw e at h in rw e (ap (◌∷◌ j) (ids-store_old k b c cs f))
]

-- A new client is stored at the end.
ids-store_new :
    (k : ByteArray 16) (c : Client) (cs : Clients)
    → find_client k cs ≡ none
    → ids (store_client k c cs) ≡ ids cs ++ k ∷ []
unfolding find_client store_client
ids-store_new k c [] h = refl
ids-store_new k c ((j, x) ∷ cs) h = elim (Bool-cases (array_eq 16 j k)) [
  | inl e ↦ absurd (let n : some x ≡ none = rw e at h in cc)
  | inr e ↦
      let f : find_client k cs ≡ none = rw e at h in rw e (ap (◌∷◌ j) (ids-store_new k c cs f))
]

abbrev IsKept : Daemon → Type 0
IsKept d = ids d.clients ≡ d.connections

events_of-IsKept :
    (k : ByteArray 16) (o : Option Client) (d : Daemon)
    → find_client k d.clients ≡ o
    → IsKept d
    → IsKept (events_of k o d).1
unfolding events_of
events_of-IsKept k none d f h = h
events_of-IsKept k (some c) d f h = ids-store_old k c (subscribe c).1 d.clients f ∙ h

requested-IsKept : (o : Option (List ℕ)) (d : Daemon) → IsKept d → IsKept (route_events o d).1
unfolding route_events
requested-IsKept none d h = h
requested-IsKept (some id) d h =
    events_of-IsKept (to_array 16 id) (find_client (to_array 16 id) d.clients) d refl h

-- A turn of the watchdog leaves the clients as they are, and ends the daemon when there are none.
watchdog_cases :
    (cs : Clients) (alive : Bool) (n : ℕ) (l : List (ByteArray 16))
    → let v = watchdog (record { clients = cs; alive = alive; accepted = n; connections = l }) in
      (v.clients ≡ cs) × (v.connections ≡ l) × (alive ≡ true → (v.alive ≡ false) ↔ (ids cs ≡ []))
unfolding watchdog
watchdog_cases [] a n l = (refl, refl, λ h. (λ x. refl, λ x. refl))
watchdog_cases (c ∷ cs) a n l = (refl, refl, λ h. (λ x. absurd (cc), λ x. absurd (cc)))

Step-IsKept : (d u : Daemon) → IsKept d → Step d u → IsKept u
unfolding register deregister http_route_client_events
Step-IsKept d _ h accepts = h
Step-IsKept d _ h (registers n id e f) =
    ids-store_new id (new_client id) d.clients f ∙ ap (λ (l : List (ByteArray 16)). l ++ id ∷ []) h
Step-IsKept d _ h (ends id) = ids-delete id d.clients ∙ ap (remove id) h
Step-IsKept d _ h ticks =
    let (a, b, c) = watchdog_cases d.clients d.alive d.accepted d.connections in
    ap ids a ∙ h ∙ sym b
Step-IsKept d _ h (requests id) = requested-IsKept (decode_string id) d h

Reach-IsKept : (d u : Daemon) → IsKept d → Reach d u → IsKept u
Reach-IsKept d _ h here = h
Reach-IsKept d u h (next_step {u = x} g s) = Step-IsKept x u (Reach-IsKept d x h g) s

-- After games have connected and have been put into the map, each with an ID that no other has, and have
-- gone again, and after requests and turns of the watchdog, in any order: a turn of the watchdog ends a
-- daemon that runs if and only if no game is in the map, whatever connections have just been accepted.
pub watchdog-idle :
    (d : Daemon)
    → Reach new_daemon d
    → d.alive ≡ true
    → ((watchdog d).alive ≡ false) ↔ (d.connections ≡ [])
unfolding new_daemon
watchdog-idle d g a =
    let h = Reach-IsKept new_daemon d refl g in
    let (x, y, z) = watchdog_cases d.clients d.alive d.accepted d.connections in
    subst (λ l. ((watchdog d).alive ≡ false) ↔ (l ≡ [])) h (z a)
