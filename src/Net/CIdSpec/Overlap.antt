-- ===== src/Net/CIdSpec/Overlap.antt =====
-- What `CIdSpec::overlaps` means for `CIdSpec::matches`.
use carrier_pigeon.Base.{◌^◌, ◌<◌, ◌≡◌, ◌↔◌, true, ◌||◌, ◌==◌, if◌then◌else◌, arith}
use carrier_pigeon.Net.{CId}
use carrier_pigeon.Net.CIdSpec.{CIdSpec, all, none, except, only, matches, overlaps}

-- A `CId` is a `u32`.
abbrev pub InRange : CIdSpec → Type 0
InRange all = Unit
InRange none = Unit
InRange (except o) = o < 2 ^ 32
InRange (only o) = o < 2 ^ 32

abbrev pub Shared : CIdSpec → CIdSpec → Type 0
Shared s t = (cid : CId) × (cid < 2 ^ 32) × (matches s cid ≡ true) × (matches t cid ≡ true)

-- The least number that is neither of two.
other_than : CId → CId → CId
other_than a b = if 0 == a || 0 == b then (if 1 == a || 1 == b then 2 else 1) else 0

overlaps→Shared : (s t : CIdSpec) → InRange s → InRange t → overlaps s t ≡ true → Shared s t
unfolding overlaps matches other_than
overlaps→Shared all all p q h = (0, ground arith, ground arith, ground arith)
overlaps→Shared all none p q h = cc
overlaps→Shared all (except f) p q h = (other_than f f, ground arith, ground arith, ground arith)
overlaps→Shared all (only f) p q h = (f, ground arith, ground arith, ground arith)
overlaps→Shared none t p q h = cc
overlaps→Shared (except e) all p q h = (other_than e e, ground arith, ground arith, ground arith)
overlaps→Shared (except e) none p q h = cc
overlaps→Shared (except e) (except f) p q h =
    (other_than e f, ground arith, ground arith, ground arith)
overlaps→Shared (except e) (only f) p q h = (f, ground arith, ground arith, ground arith)
overlaps→Shared (only e) all p q h = (e, ground arith, ground arith, ground arith)
overlaps→Shared (only e) none p q h = cc
overlaps→Shared (only e) (except f) p q h = (e, ground arith, ground arith, ground arith)
overlaps→Shared (only e) (only f) p q h = (e, ground arith, ground arith, ground arith)

matches→overlaps :
    (s t : CIdSpec) (cid : CId) → matches s cid ≡ true → matches t cid ≡ true → overlaps s t ≡ true
unfolding overlaps matches
matches→overlaps all all cid p q = ground arith
matches→overlaps all none cid p q = ground arith
matches→overlaps all (except f) cid p q = ground arith
matches→overlaps all (only f) cid p q = ground arith
matches→overlaps none t cid p q = ground arith
matches→overlaps (except e) all cid p q = ground arith
matches→overlaps (except e) none cid p q = ground arith
matches→overlaps (except e) (except f) cid p q = ground arith
matches→overlaps (except e) (only f) cid p q = ground arith
matches→overlaps (only e) all cid p q = ground arith
matches→overlaps (only e) none cid p q = ground arith
matches→overlaps (only e) (except f) cid p q = ground arith
matches→overlaps (only e) (only f) cid p q = ground arith

-- Two specifications over `u32` connections overlap exactly when some `u32` connection matches both.
pub overlaps_iff : (s t : CIdSpec) → InRange s → InRange t → (overlaps s t ≡ true) ↔ Shared s t
overlaps_iff s t p q = (overlaps→Shared s t p q, λ w. matches→overlaps s t w.0 w.2 w.3)
