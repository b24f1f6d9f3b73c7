-- ===== src/World/Consistent.antt =====
-- The invariant of the world: what the client has, and what is on its way, is how the server's log
-- begins.
use multiplayer.Prelude.{
  All, List, Option, ap, append_assoc, length, none, some, subst, sym, ◌++◌, ◌+◌, ◌∙◌, ◌≡◌,
}
use multiplayer.Wal.Entry.{WalEntry}
use multiplayer.Wal.Log.Memory.{IsMemory, Further}
use multiplayer.World.{Link, World}
use multiplayer.Client.Game.{Session}
use multiplayer.Wal.Log.{Wal}
use multiplayer.World.Flight.{Flight-more, Flight}
use multiplayer.Bytes.{IsByte}

pub record IsLinked (server client : Wal) (l : Link) : Type 0 where
  pub flight : List WalEntry
  pub ahead : List WalEntry
  pub entries : server.entries ≡ client.entries ++ flight ++ ahead
  pub down : Flight server.set l.down flight
  pub stream : l.feed.stream.index ≡ length client.entries + length flight
  pub index : l.feed.wal_index ≡ length client.entries + length flight
  pub up : All (λ p. All IsByte p.content) l.up

abbrev pub Linked : Wal → Wal → Option Link → Type 0
Linked server client none = Unit {0}
Linked server client (some l) = IsLinked server client l

pub record IsConsistent (w : World) : Type 0 where
  pub server : IsMemory w.server
  pub client : IsMemory w.client.wal
  pub rest : List WalEntry
  pub prefix : w.server.entries ≡ w.client.wal.entries ++ rest
  pub link : Linked w.server w.client.wal w.link

longer-Linked :
    (server again client : Wal) (o : Option Link)
    → Further server again
    → Linked server client o
    → Linked again client o
longer-Linked server again client none f h = tt
longer-Linked server again client (some l) f h = record {
  flight = h.flight;
  ahead = h.ahead ++ f.more;
  entries =
      f.entries
      ∙ ap (λ (x : List WalEntry). x ++ f.more) h.entries
      ∙ append_assoc (client.entries ++ h.flight) h.ahead f.more;
  down = Flight-more f.keys h.down;
  stream = h.stream;
  index = h.index;
  up = h.up;
}

-- The server's log goes on.
pub longer-IsConsistent :
    (w : World) (s : Wal)
    → IsConsistent w
    → IsMemory s
    → Further w.server s
    → IsConsistent (record w { server = s })
longer-IsConsistent w s v m f = record {
  server = m;
  client = v.client;
  rest = v.rest ++ f.more;
  prefix =
      f.entries
      ∙ ap (λ (x : List WalEntry). x ++ f.more) v.prefix
      ∙ append_assoc w.client.wal.entries v.rest f.more;
  link = longer-Linked w.server s w.client.wal w.link f v.link;
}

-- Another connection, and a session with the same log.
pub link-IsConsistent :
    (w : World) (o : Option Link)
    → IsConsistent w
    → Linked w.server w.client.wal o
    → IsConsistent (record w { link = o })
link-IsConsistent w o v h = record {
  server = v.server;
  client = v.client;
  rest = v.rest;
  prefix = v.prefix;
  link = h;
}

pub client-IsConsistent :
    (w : World) (s : Session)
    → IsConsistent w
    → s.wal ≡ w.client.wal
    → IsConsistent (record w { client = s })
client-IsConsistent w s v h = record {
  server = v.server;
  client = subst IsMemory (sym h) v.client;
  rest = v.rest;
  prefix = v.prefix ∙ ap (λ (x : Wal). x.entries ++ v.rest) (sym h);
  link = subst (λ (x : Wal). Linked w.server x w.link) (sym h) v.link;
}
