-- ===== src/Client/Daemon/Registry/Examples.antt =====
-- Two games connect to the daemon, and a page asks for the events of the second.
use multiplayer.Client.Daemon.Registry.{
  Daemon, Reach, accepts, registers, here, next_step, new_daemon, register, watchdog, find_client,
  store_client, http_route_clients,
}
use multiplayer.Client.Daemon.{new_client}
use multiplayer.Client.Daemon.Registry.Routes.{http_route_clients-IsFound, IsFound}
use multiplayer.Client.Daemon.Registry.Watchdog.{watchdog-idle}
use multiplayer.Prelude.{All, [], arith, false, refl, true, ◌↔◌, ◌∷◌, ◌≡◌}
use multiplayer.Bytes.{to_array, ByteArray, array_eq}

abbrev first_id : ByteArray 16
first_id = to_array 16 (18 ∷ 171 ∷ [])

abbrev second_id : ByteArray 16
second_id = to_array 16 (1 ∷ 2 ∷ [])

abbrev two_clients : Daemon
two_clients = record {
  clients = (first_id, new_client first_id) ∷ (second_id, new_client second_id) ∷ [];
  alive = true;
  accepted = 0;
  connections = first_id ∷ second_id ∷ [];
}

two_clients-Reach : Reach new_daemon two_clients
unfolding new_daemon register find_client store_client array_eq
two_clients-Reach =
    let a = next_step (next_step here accepts) accepts in
    next_step (next_step a (registers 1 first_id refl refl)) (registers 0 second_id refl refl)

http_route_clients-IsFound_example :
    All (IsFound two_clients) (http_route_clients two_clients.clients)
http_route_clients-IsFound_example =
    http_route_clients-IsFound two_clients two_clients-Reach (ground arith)

watchdog-idle_example : ((watchdog two_clients).alive ≡ false) ↔ (two_clients.connections ≡ [])
watchdog-idle_example = watchdog-idle two_clients two_clients-Reach refl
