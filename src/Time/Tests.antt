-- ===== src/Time/Tests.antt =====
-- The test points of src/time.rs, and the theorems at concrete clocks.
use carrier_pigeon.Base.{
  ◌+◌, ◌-◌, ◌%◌, ◌^◌, ◌<◌, ◌≡◌, refl, ◌↔◌, inl, true, false, ok, panic, arith,
}
use carrier_pigeon.Time.{Host, unix_millis, reconstruct_millis, reconstruct_millis_inner}
use carrier_pigeon.Time.Laws.{reconstruct_millis_exact, reconstruct_millis_panics}

point_1 : reconstruct_millis_inner true 0x3F11_9035 0x7904 ≡ ok 0x3F11_7904
unfolding reconstruct_millis_inner
point_1 = refl

point_2 : reconstruct_millis_inner true 0x183A_4039 0x8183 ≡ ok 0x1839_8183
unfolding reconstruct_millis_inner
point_2 = refl

abbrev wrapped : Host
wrapped = record { overflow_checks = true; millis = 2 ^ 32 + 5 }

abbrev wrapping : Host
wrapping = record { overflow_checks = false; millis = 2 ^ 32 + 5 }

reconstruct_millis_exact_example :
    reconstruct_millis wrapping ((2 ^ 32 - 9) % 2 ^ 16)
    ≡ ok (unix_millis (record wrapping { millis = 2 ^ 32 - 9 }))
reconstruct_millis_exact_example =
    reconstruct_millis_exact wrapping (2 ^ 32 - 9) (omega arith) (omega arith) (inl refl)

reconstruct_millis_panics_example :
    (reconstruct_millis wrapped 0xfff7 ≡ panic)
    ↔ ((true ≡ true) × (unix_millis wrapped < 2 ^ 16) × (unix_millis wrapped < 0xfff7))
reconstruct_millis_panics_example = reconstruct_millis_panics wrapped 0xfff7
