-- ===== src/Client/Daemon/Framing.antt =====
-- A message to the daemon comes back from its bytes.
use multiplayer.Prelude.{
  List, ℕ, Result, ok, refl, length, ◌++◌, >>=-eq-ok, ok-injective, sym, ◌<◌, ◌^◌, ◌≡◌,
}
use multiplayer.Client.Daemon.{send_msg, recv_msg}
use multiplayer.Client.Ipc.Unix.{unix_read-unix_write}

module _ {Msg : Type 0} (marshal : Msg → Result (List ℕ)) (unmarshal : List ℕ → Result Msg) where
  -- recvMsg gives back the message that sendMsg wrote without an error, and leaves what follows it on the
  -- connection, if json.Unmarshal undoes json.Marshal and no message takes 2^32 bytes or more.
  pub recv_msg-send_msg :
      (m : Msg) (b rest : List ℕ)
      → ((x : Msg) (d : List ℕ) → marshal x ≡ ok d → (unmarshal d ≡ ok x) × (length d < 2 ^ 32))
      → send_msg marshal unmarshal m ≡ ok b
      → recv_msg marshal unmarshal (b ++ rest) ≡ ok (m, rest)
  unfolding send_msg recv_msg
  recv_msg-send_msg m b rest law h =
      let (d, p, q) = >>=-eq-ok (marshal m) _ h in
      let (u, l) = law m d p in
      rw (sym (ok-injective q)) (rw (unix_read-unix_write d rest l) (rw u refl))
