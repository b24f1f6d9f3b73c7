-- ===== src/Client/Daemon/Examples.antt =====
-- A client of the daemon that two pages listen to, and a message of two bytes.
use multiplayer.Prelude.{
  List, ℕ, ok, [], refl, ◌∷◌, true, Result, Bool, eof, err, false, suc, zero, ◌<◌, ◌≡◌,
}
use multiplayer.Client.Daemon.{
  Client, Reach, created, next, subscribed, closes, deregistered, unsubscribed, unsubscribe,
  subscribe, new_client, close_client, has, close_channel, delete,
}
use multiplayer.Bytes.{ByteArray, to_array}
use multiplayer.Client.Daemon.Channels.{Reach-closed}

abbrev some_id : ByteArray 16
some_id = to_array 16 (3 ∷ [])

abbrev two_pages : Client
two_pages = (subscribe (subscribe (new_client some_id)).1).1

abbrev one_page : Client
one_page = record {
  id = some_id;
  subs = 1 ∷ [];
  next = 2;
  closed = 0 ∷ [];
  done = false;
  registered = false;
}

one_page-Reach : Reach (ok one_page)
unfolding subscribe new_client unsubscribe has close_channel delete
one_page-Reach =
    next (next (next (next (created some_id) (subscribed refl)) (subscribed refl)) (unsubscribed 0))
      deregistered

Reach-closed_example :
    (c : Client) × (close_client one_page ≡ ok c)
    × (c.done ≡ true → (ch : ℕ) → ch < c.next → has ch c.closed ≡ true)
Reach-closed_example = Reach-closed (close_client one_page) (next one_page-Reach (closes refl refl))

-- Numbers below 2^32 as messages of one element.
abbrev marshal : Bool → Result (List ℕ)
marshal true = ok (1 ∷ [])
marshal false = ok (0 ∷ [])

abbrev unmarshal : List ℕ → Result Bool
unmarshal [] = err eof
unmarshal (zero ∷ d) = ok false
unmarshal (suc n ∷ d) = ok true
