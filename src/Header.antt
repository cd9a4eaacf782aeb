-- ===== src/Header.antt =====
-- src/header.rs: the four bytes in front of a message.
pub mod Tcp
pub mod Udp
pub mod Laws
use carrier_pigeon.Base.{ℕ, ◌+◌, ◌*◌, ◌/◌, ◌%◌, ◌^◌, List, [], ◌∷◌, Io, ok, panic}

abbrev pub tcp_header_len : ℕ
tcp_header_len = 4

abbrev pub udp_header_len : ℕ
udp_header_len = 4

-- `(n as u16).to_be_bytes()`.
unfoldable pub u16_to_be_bytes : ℕ → List ℕ
u16_to_be_bytes n = (n % 2 ^ 16 / 256) ∷ (n % 256) ∷ []

-- `u16::from_be_bytes(bytes.try_into().unwrap())`, which wants two bytes.
unfoldable pub u16_from_be_bytes : List ℕ → Io ℕ
u16_from_be_bytes (hi ∷ lo ∷ []) = ok (hi * 256 + lo)
u16_from_be_bytes bytes = panic
