-- ===== src/Client/Uplink/Pumps/Order.antt =====
-- The packets of a connection keep their order on their way through the channels.
use multiplayer.Client.Uplink.Pumps.{Pumps, put_out}
use multiplayer.Prelude.{◌≡◌}
use multiplayer.Protocol.Packet.{Packet}
use multiplayer.Client.Game.{Session}
use multiplayer.Client.Info.{Info}
use multiplayer.Client.Uplink.Effects.{IsSame}
use multiplayer.Client.Uplink.Pumps.Running.{IsPumped, put_out-IsPumped}

module _ (info : Info) (owner : Session) where
  abbrev IsOwned : Pumps → Type 0
  IsOwned s = (s.info ≡ info) × IsSame owner s.session

  put :
      (s : Pumps) (q : Packet)
      → IsPumped info owner s.phase s
      → IsPumped info owner (put_out q s).phase (put_out q s)
  unfolding put_out
  put s q h = put_out-IsPumped info owner s.phase s q h
