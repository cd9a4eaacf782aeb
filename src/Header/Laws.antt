-- ===== src/Header/Laws.antt =====
-- Writing and reading the headers of src/header.rs.
use carrier_pigeon.Base.{
  ℕ, ◌+◌, ◌*◌, ◌/◌, ◌%◌, ◌^◌, ◌≤◌, ◌<◌, ◌≡◌, refl, ◌⊎◌, false, List, [], ◌∷◌, ok, All, length,
  arith,
}
use carrier_pigeon.Time.{Host, unix_millis}
use carrier_pigeon.Time.Laws.{reconstruct_millis_exact}
use carrier_pigeon.Header.Tcp
use carrier_pigeon.Header.Tcp.{TcpHeader}
use carrier_pigeon.Header.Udp
use carrier_pigeon.Header.Udp.{UdpHeader}

-- What is read back is the header with both fields reduced to 16 bits.
pub tcp_from-to_be_bytes :
    (h : TcpHeader)
    → Tcp.from_be_bytes (Tcp.to_be_bytes h)
      ≡ ok (record { mid = h.mid % 2 ^ 16; len = h.len % 2 ^ 16 })
unfolding Tcp.from_be_bytes Tcp.to_be_bytes
tcp_from-to_be_bytes h = ground arith

-- Four bytes are read as a header that is written as those bytes.
tcp_to-from_be_bytes :
    (bytes : List ℕ)
    → All (λ b. b < 256) bytes
    → length bytes ≡ 4
    → (h : TcpHeader) × (Tcp.from_be_bytes bytes ≡ ok h) × (Tcp.to_be_bytes h ≡ bytes)
unfolding Tcp.from_be_bytes Tcp.to_be_bytes
tcp_to-from_be_bytes (a ∷ b ∷ c ∷ d ∷ []) small len =
    (record { mid = a * 256 + b; len = c * 256 + d }, refl, ground arith)
tcp_to-from_be_bytes [] small len = absurd (omega arith)
tcp_to-from_be_bytes (a ∷ []) small len = absurd (omega arith)
tcp_to-from_be_bytes (a ∷ b ∷ []) small len = absurd (omega arith)
tcp_to-from_be_bytes (a ∷ b ∷ c ∷ []) small len = absurd (omega arith)
tcp_to-from_be_bytes (a ∷ b ∷ c ∷ d ∷ e ∷ bytes) small len = absurd (omega arith)

-- The two bytes of the stamp are the low 16 bits of the sender's clock.
stamp :
    (h : Host) (sent : ℕ)
    → let s = unix_millis (record h { millis = sent }) in
      s % 2 ^ 16 / 256 * 256 + s % 256 ≡ sent % 2 ^ 16
unfolding unix_millis
stamp h sent = omega arith

-- A header with a 16-bit number that was written at `sent` and is read less than 2 ^ 16 ms later is
-- read as it was, with the sender's clock, whenever the build wraps or the receiver's clock has its
-- upper half above zero.
pub udp_from-to_be_bytes :
    (h : Host) (sent mid : ℕ)
    → mid < 2 ^ 16
    → sent ≤ h.millis
    → h.millis < sent + 2 ^ 16
    → (h.overflow_checks ≡ false) ⊎ (2 ^ 16 ≤ unix_millis h)
    → let header = Udp.new (record h { millis = sent }) mid in
      Udp.from_be_bytes h (Udp.to_be_bytes header) ≡ ok header
unfolding Udp.from_be_bytes Udp.to_be_bytes Udp.new
udp_from-to_be_bytes h sent mid small past near safe =
    ground (arith, stamp h sent, reconstruct_millis_exact h sent past near safe)
