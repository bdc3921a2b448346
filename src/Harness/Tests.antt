-- ===== src/Harness/Tests.antt =====
-- The reference vectors of SplitMix64 for the seed 0.
use replog.Prelude.{◌≡◌, refl}
use replog.Harness.Rng.{next_u64, wrapping_add, wrapping_mul}

first_draw : (next_u64 0).1 ≡ 0xE220_A839_7B1D_CDAF
unfolding next_u64 wrapping_add wrapping_mul
first_draw = refl

second_draw : (next_u64 (next_u64 0).0).1 ≡ 0x6E78_9E6A_A1B9_65F4
unfolding next_u64 wrapping_add wrapping_mul
second_draw = refl

third_draw : (next_u64 (next_u64 (next_u64 0).0).0).1 ≡ 0x06C4_5D18_8009_454F
unfolding next_u64 wrapping_add wrapping_mul
third_draw = refl
