-- ===== src/Client/Resend.antt =====
-- handleSendQueue of client/internal/game/session.go: a round of its loop, which sends what is pending.
use multiplayer.Prelude.{List, Result, [], ok, err, panic, ℕ, ◌∷◌}
use multiplayer.Protocol.Packet.{Packet, op_wal}
use multiplayer.Protocol.Packet
use multiplayer.Wal.Entry.{WalEntry, parse}
use multiplayer.Client.SendQueue.{pending}
use multiplayer.Client.Game.{Session}

-- A packet that carries the bytes of an entry.
abbrev pub entry_packet : List ℕ → Packet
entry_packet d = record { op = Packet.op_wal; content = d }

-- Bytes that are no entry end the loop; what has been sent before stays sent.
unfoldable pub on_pending :
    List ℕ → Result WalEntry → List Packet × Result (Unit {0}) → List Packet × Result (Unit {0})
on_pending d (ok e) (ps, r) = (entry_packet d ∷ ps, r)
on_pending d (err x) rest = ([], err x)
on_pending d panic rest = ([], panic)

unfoldable pub resend_each : List (List ℕ) → List Packet × Result (Unit {0})
unfolding on_pending
resend_each [] = ([], ok tt)
resend_each (d ∷ ds) = on_pending d (parse d) (resend_each ds)

-- The packets that a round of handleSendQueue sends, and how it ends.
unfoldable pub resend : Session → List Packet × Result (Unit {0})
unfolding resend_each
resend s = resend_each (pending s.send_q)
