-- ===== src/Prelude/Int.antt =====
-- Signed integers over the native numbers, and their two's complement words.
use Prim.Native.Nat.{ℕ, ◌-◌, ◌%◌, ◌<◌, ◌*◌}
use mathlib.Core.Path.{◌≡◌}
use mathlib.Core.Bool.{Bool, true, false}
use native.Mathlib.Omega.{arith}
use replog.Prelude.Tests.{ltb, if◌then◌else◌}

-- `negsuc n` is -(n + 1).
pub data ℤ : Type 0 where
  pos : ℕ → ℤ
  negsuc : ℕ → ℤ

-- The w-bit pattern of an integer, and the integer of a w-bit pattern; `half` is 2 ^ (w - 1).
abbrev pub to_word : ℕ → ℤ → ℕ
to_word half (pos n) = n % (2 * half)
to_word half (negsuc n) = 2 * half - 1 - n % (2 * half)

abbrev pub of_word : ℕ → ℕ → ℤ
of_word half n = if ltb n half then pos n else negsuc (2 * half - 1 - n)

-- The range of a signed word.
abbrev pub InRange : ℕ → ℤ → Type 0
InRange half (pos n) = n < half
InRange half (negsuc n) = n < half

small_mod : (half n : ℕ) → n < half → n % (2 * half) ≡ n
small_mod half n h = grind arith

pub of_word-to_word : (half : ℕ) (z : ℤ) → InRange half z → of_word half (to_word half z) ≡ z
of_word-to_word half (pos n) h = rw (small_mod half n h) (ground arith)
of_word-to_word half (negsuc n) h = rw (small_mod half n h) (ground arith)

pub to_word-lt : (half : ℕ) (z : ℤ) → 0 < half → to_word half z < 2 * half
to_word-lt half (pos n) h = grind arith
to_word-lt half (negsuc n) h = grind arith

abbrev pub is_negative : ℤ → Bool
is_negative (pos n) = false
is_negative (negsuc n) = true
