-- ===== src/Net/Tests.antt =====
-- Specifications of src/net.rs at concrete connections.
use carrier_pigeon.Base.{◌≡◌, ◌↔◌, true, arith}
use carrier_pigeon.Net.CIdSpec.{except, only, overlaps}
use carrier_pigeon.Net.CIdSpec.Overlap.{Shared, overlaps_iff}

overlaps_iff_example : (overlaps (except 3) (only 4) ≡ true) ↔ Shared (except 3) (only 4)
overlaps_iff_example = overlaps_iff (except 3) (only 4) (omega arith) (omega arith)
