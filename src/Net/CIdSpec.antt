-- ===== src/Net/CIdSpec.antt =====
-- src/net.rs: `CIdSpec`, which connections an operation is for.
pub mod Overlap
use carrier_pigeon.Base.{ℕ, Bool, true, false, not, ◌==◌}
use carrier_pigeon.Net.{CId}

pub data CIdSpec : Type 0 where
  all none : CIdSpec
  except only : CId → CIdSpec

unfoldable pub matches : CIdSpec → CId → Bool
matches all cid = true
matches none cid = false
matches (except o) cid = not (cid == o)
matches (only o) cid = cid == o

unfoldable pub overlaps : CIdSpec → CIdSpec → Bool
overlaps none other = false
overlaps all none = false
overlaps (except e) none = false
overlaps (only o) none = false
overlaps all other = true
overlaps (except e) all = true
overlaps (only o) all = true
overlaps (except e) (except f) = true
overlaps (only o) (only p) = o == p
overlaps (only o) (except e) = not (o == e)
overlaps (except e) (only o) = not (o == e)
