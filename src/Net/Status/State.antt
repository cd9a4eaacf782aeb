-- ===== src/Net/Status/State.antt =====
-- src/net.rs: the constructors of `Status`.
use carrier_pigeon.Base.{ErrorKind}
use carrier_pigeon.Net.{Any}

pub data Status (V : Type 0) : Type 0 where
  connected : Status V
  disconnected : Any V → Status V
  closed : Status V
  dropped : ErrorKind → Status V
