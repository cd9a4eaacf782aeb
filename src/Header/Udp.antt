-- ===== src/Header/Udp.antt =====
-- src/header.rs: `UdpHeader`. The time stamp is taken and rebuilt by src/time.rs.
use carrier_pigeon.Base.{
  ℕ, List, ◌++◌, Io, ok, panic, ◌==◌, length, take, drop, if◌then◌else◌, ◌>>=◌,
}
use carrier_pigeon.Time.{Host, unix_millis, reconstruct_millis}
use carrier_pigeon.Header.{udp_header_len, u16_to_be_bytes, u16_from_be_bytes}

pub record UdpHeader : Type 0 where
  pub mid : ℕ
  pub time : ℕ

unfoldable pub new : Host → ℕ → UdpHeader
new h mid = record { mid = mid; time = unix_millis h }

unfoldable pub to_be_bytes : UdpHeader → List ℕ
unfolding u16_to_be_bytes
to_be_bytes h = u16_to_be_bytes h.mid ++ u16_to_be_bytes h.time

-- The `assert_eq!` comes first.
unfoldable pub from_be_bytes : Host → List ℕ → Io UdpHeader
unfolding u16_from_be_bytes
from_be_bytes h bytes =
    if length bytes == udp_header_len
    then (do
      mid ← u16_from_be_bytes (take 2 bytes)
      time_lsb ← u16_from_be_bytes (drop 2 bytes)
      time ← reconstruct_millis h time_lsb
      ok (record { mid = mid; time = time }))
    else panic
