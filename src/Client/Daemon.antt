-- ===== src/Client/Daemon.antt =====
-- client/internal/daemon: client.go, the subscriptions to the messages of a connection, and what
-- handleConnection of daemon.go and httpRouteClientEvents of http.go do with them; sendMsg and recvMsg of
-- msg.go. The listeners, the HTTP server and the websockets are left out.
pub mod Channels
pub mod Framing
pub mod Registry
mod Examples
use multiplayer.Prelude.{
  List, ℕ, Bool, Result, false, true, ok, panic, [], suc, ◌||◌, ◌>>=◌, ◌==◌, if◌then◌else◌, ◌>>◌,
  ◌∷◌, ◌≡◌,
}
use multiplayer.Bytes.{ByteArray}
use multiplayer.Client.Ipc.Unix.{unix_write, unix_read}

unfoldable pub has : ℕ → List ℕ → Bool
has c [] = false
has c (d ∷ ds) = d == c || has c ds

unfoldable pub delete : ℕ → List ℕ → List ℕ
delete c [] = []
delete c (d ∷ ds) = if d == c then delete c ds else d ∷ delete c ds

-- type client. The channels that subscribe has made are numbered; `closed` are those that are closed,
-- and `done` says that the channel of that name is. `registered` says that the daemon's map has it.
pub record Client : Type 0 where
  pub id : ByteArray 16
  pub subs : List ℕ
  pub next : ℕ
  pub closed : List ℕ
  pub done : Bool
  pub registered : Bool

-- newClient, in the map of the daemon; `id` is what rand.Read gives.
unfoldable pub new_client : ByteArray 16 → Client
new_client id = record {
  id = id;
  subs = [];
  next = 0;
  closed = [];
  done = false;
  registered = true;
}

-- func (c *client) subscribe
unfoldable pub subscribe : Client → ℕ × Client
subscribe c = (c.next, record c { subs = c.next ∷ c.subs; next = suc c.next })

-- `close(ch)`: a channel that is closed already makes Go panic.
unfoldable pub close_channel : ℕ → List ℕ → Result (List ℕ)
close_channel ch closed = if has ch closed then panic else ok (ch ∷ closed)

-- func (c *client) unsubscribe
unfoldable pub unsubscribe : ℕ → Client → Result Client
unfolding close_channel delete
unsubscribe ch c =
    if has ch c.subs
    then (do
      closed ← close_channel ch c.closed
      ok (record c { subs = delete ch c.subs; closed = closed }))
    else ok c

-- The loop of close: each channel of the map is closed, and taken out.
unfoldable pub close_all : List ℕ → List ℕ → Result (List ℕ)
unfolding close_channel
close_all [] closed = ok closed
close_all (ch ∷ chs) closed = do closed ← close_channel ch closed; close_all chs closed

-- func (c *client) close
unfoldable pub close_client : Client → Result Client
unfolding close_all
close_client c = do
  closed ← close_all c.subs c.closed
  if c.done then panic else ok (record c { subs = []; closed = closed; done = true })

-- func (c *client) broadcast: the channels that the message is offered to. A send on a closed channel
-- makes Go panic.
unfoldable pub broadcast : List ℕ → List ℕ → Result (List ℕ)
broadcast [] closed = ok []
broadcast (ch ∷ chs) closed =
    if has ch closed then panic else (do rest ← broadcast chs closed; ok (ch ∷ rest))

-- What happens to a client, and what it comes to: an operation may panic.
pub data Step (c : Client) : Result Client → Type 0 where
  -- httpRouteClientEvents finds the client in the map, and unsubscribes when it ends.
  subscribed : c.registered ≡ true → Step c (ok (subscribe c).1)
  unsubscribed : (ch : ℕ) → Step c (unsubscribe ch c)
  -- The loop of handleConnection.
  broadcasts : Step c (do offered ← broadcast c.subs c.closed; ok c)
  -- The end of handleConnection: it takes the client out of the map, and closes it once.
  deregistered : Step c (ok (record c { registered = false }))
  closes : c.registered ≡ false → c.done ≡ false → Step c (close_client c)

pub data Reach : Result Client → Type 0 where
  created : (id : ByteArray 16) → Reach (ok (new_client id))
  next : {c : Client} {r : Result Client} → Reach (ok c) → Step c r → Reach r

-- What sendMsg writes and what recvMsg reads; json.Marshal and json.Unmarshal are parameters.
module _ {Msg : Type 0} (marshal : Msg → Result (List ℕ)) (unmarshal : List ℕ → Result Msg) where
  unfoldable pub send_msg : Msg → Result (List ℕ)
  send_msg m = do d ← marshal m; ok (unix_write d)

  unfoldable pub recv_msg : List ℕ → Result (Msg × List ℕ)
  recv_msg s = do (d, t) ← unix_read s; m ← unmarshal d; ok (m, t)
