-- ===== src/Time/Laws.antt =====
-- Rebuilding the time stamp of src/time.rs.
use carrier_pigeon.Base.{ℕ, ◌+◌, ◌%◌, ◌^◌, ◌≤◌, ◌<◌, ◌≡◌, ◌↔◌, ◌⊎◌, true, false, ok, panic, arith}
use carrier_pigeon.Time.{Host, unix_millis, reconstruct_millis}

-- A stamp that was taken at `sent` and is rebuilt less than 2 ^ 16 ms later is the sender's
-- `unix_millis`, whenever the build wraps or the receiver's clock has its upper half above zero.
pub reconstruct_millis_exact :
    (h : Host) (sent : ℕ)
    → sent ≤ h.millis
    → h.millis < sent + 2 ^ 16
    → (h.overflow_checks ≡ false) ⊎ (2 ^ 16 ≤ unix_millis h)
    → reconstruct_millis h (sent % 2 ^ 16) ≡ ok (unix_millis (record h { millis = sent }))
unfolding reconstruct_millis
reconstruct_millis_exact h sent past near safe = ground arith

-- Rebuilding panics exactly when the build checks overflow, the receiver's clock is below 2 ^ 16,
-- and the stamp is above it.
pub reconstruct_millis_panics :
    (h : Host) (lsb : ℕ)
    → (reconstruct_millis h lsb ≡ panic)
      ↔ ((h.overflow_checks ≡ true) × (unix_millis h < 2 ^ 16) × (unix_millis h < lsb))
unfolding reconstruct_millis
reconstruct_millis_panics h lsb = ground arith
