-- ===== src/Client/Run/Polling.antt =====
-- client/internal/app/app.go, `poll`: a pass over the places where a game may listen. Open and Read of a
-- place are parameters: whether it opens, and what its first Read gives; connections are numbered.
pub mod Passes
use multiplayer.Prelude.{
  List, Option, Result, [], err, io_error, none, ok, panic, some, ℕ, ◌++◌, ◌∷◌,
}
use multiplayer.Client.Ipc.{MessageBodyHelloIn}
use multiplayer.Client.Run.{hello}

-- A ConnFactory; `none` is an error of Open or of Read.
pub record Factory : Type 0 where
  pub conn : Option ℕ
  pub first : Option (List ℕ)

-- The connections that have been opened and closed, in their order.
pub record Conns : Type 0 where
  pub opened : List ℕ
  pub closed : List ℕ

abbrev pub Found : Type 0
Found = Option (ℕ × MessageBodyHelloIn)

abbrev pub Polled : Type 0
Polled = Result Found × Conns

-- `hello`, with the Read that it starts with.
unfoldable pub read_hello : Option (List ℕ) → Result MessageBodyHelloIn
read_hello none = err io_error
read_hello (some raw) = hello raw

unfoldable pub after_hello : ℕ → Result MessageBodyHelloIn → (Conns → Polled) → Conns → Polled
after_hello c (ok h) rest s = (ok (some (c, h)), s)
after_hello c (err e) rest s = rest (record s { closed = s.closed ++ c ∷ [] })
after_hello c panic rest s = (panic, s)

unfoldable pub after_open : Option ℕ → Option (List ℕ) → (Conns → Polled) → Conns → Polled
unfolding after_hello read_hello
after_open none first rest s = rest s
after_open (some c) first rest s =
    after_hello c (read_hello first) rest (record s { opened = s.opened ++ c ∷ [] })

-- func (app *App) poll, on the places that ipc.Poll finds
unfoldable pub poll : List Factory → Conns → Polled
unfolding after_open
poll [] s = (ok none, s)
poll (f ∷ fs) s = let rest = poll fs in after_open f.conn f.first rest s
