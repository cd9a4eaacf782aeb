-- ===== src/Header/Tcp.antt =====
-- src/header.rs: `TcpHeader`.
use carrier_pigeon.Base.{
  ℕ, List, ◌++◌, Io, ok, panic, ◌==◌, length, take, drop, if◌then◌else◌, ◌>>=◌,
}
use carrier_pigeon.Header.{tcp_header_len, u16_to_be_bytes, u16_from_be_bytes}

pub record TcpHeader : Type 0 where
  pub mid : ℕ
  pub len : ℕ

unfoldable pub new : ℕ → ℕ → TcpHeader
new mid len = record { mid = mid; len = len }

unfoldable pub to_be_bytes : TcpHeader → List ℕ
unfolding u16_to_be_bytes
to_be_bytes h = u16_to_be_bytes h.mid ++ u16_to_be_bytes h.len

-- The `assert_eq!` comes first.
unfoldable pub from_be_bytes : List ℕ → Io TcpHeader
unfolding u16_from_be_bytes
from_be_bytes bytes =
    if length bytes == tcp_header_len
    then (do
      mid ← u16_from_be_bytes (take 2 bytes)
      len ← u16_from_be_bytes (drop 2 bytes)
      ok (record { mid = mid; len = len }))
    else panic
