-- ===== src/Time.antt =====
-- src/time.rs: the 16 low bits of the clock that a datagram carries, and the clock rebuilt from them.
--
-- The host's clock is an argument: milliseconds since the Unix epoch. (Before the epoch the source
-- panics; such a clock is not modelled.) `overflow_checks` says how the crate was built: with the
-- checks a subtraction below zero panics, without them it wraps.
pub mod Laws
mod Tests
use carrier_pigeon.Base.{
  ℕ, ◌+◌, ◌-◌, ◌*◌, ◌/◌, ◌%◌, ◌^◌, Bool, Io, ok, panic, ltb, leb, if◌then◌else◌, ◌>>=◌,
}

-- What a call reads of the machine that it runs on.
pub record Host : Type 0 where
  pub overflow_checks : Bool
  pub millis : ℕ

-- `millis & 0xFFFF_FFFF`.
unfoldable pub unix_millis : Host → ℕ
unix_millis h = h.millis % 2 ^ 32

-- `a -= b` on a `u32`.
unfoldable pub sub_u32 : Bool → ℕ → ℕ → Io ℕ
sub_u32 checks a b = if leb b a then ok (a - b) else if checks then panic else ok (a + 2 ^ 32 - b)

-- The masks are written as arithmetic: `now & 0xFFFF` is `now % 2 ^ 16`, `now & 0xFFFF_0000` is
-- `now / 2 ^ 16 * 2 ^ 16`, and `msb | lsb` is a sum, since the low 16 bits of `msb` are zero.
unfoldable pub reconstruct_millis_inner : Bool → ℕ → ℕ → Io ℕ
unfolding sub_u32
reconstruct_millis_inner checks now lsb =
    let now_lsb = now % 2 ^ 16 in
    let now_msb = now / 2 ^ 16 * 2 ^ 16 in
    do msb ← if ltb now_lsb lsb then sub_u32 checks now_msb 0x1_0000 else ok now_msb; ok (msb + lsb)

unfoldable pub reconstruct_millis : Host → ℕ → Io ℕ
unfolding reconstruct_millis_inner unix_millis
reconstruct_millis h lsb = reconstruct_millis_inner h.overflow_checks (unix_millis h) lsb
