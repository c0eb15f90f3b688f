-- ===== src/Prelude/Int.antt =====
-- Signed integers over the native numbers, and their two's-complement words.
use Prim.Native.Nat.{ℕ, ◌-◌, ◌%◌, ◌^◌, ◌<◌}
use mathlib.Core.Path.{◌≡◌}
use native.Mathlib.Omega.{arith}
use technosoft_tml_motor.Prelude.Tests.{ltb, if◌then◌else◌}

-- `negsuc n` is -(n + 1).
pub data ℤ : Type 0 where
  pos : ℕ → ℤ
  negsuc : ℕ → ℤ

-- `(uint32_t)(int32_t)z` and `(WORD)z`.
unfoldable pub to_word32 : ℤ → ℕ
to_word32 (pos n) = n % 2 ^ 32
to_word32 (negsuc n) = 2 ^ 32 - 1 - n % 2 ^ 32

unfoldable pub to_word16 : ℤ → ℕ
to_word16 (pos n) = n % 2 ^ 16
to_word16 (negsuc n) = 2 ^ 16 - 1 - n % 2 ^ 16

-- `(int32_t)w` and `(short)w`: the number that a bit pattern stands for.
unfoldable pub signed32 : ℕ → ℤ
signed32 w = if ltb w (2 ^ 31) then pos w else negsuc (2 ^ 32 - w - 1)

unfoldable pub signed16 : ℕ → ℤ
signed16 w = if ltb w (2 ^ 15) then pos w else negsuc (2 ^ 16 - w - 1)

-- The values of an `int32_t` and of a `short`.
abbrev pub IsInt32 : ℤ → Type 0
IsInt32 (pos n) = n < 2 ^ 31
IsInt32 (negsuc n) = n < 2 ^ 31

abbrev pub IsInt16 : ℤ → Type 0
IsInt16 (pos n) = n < 2 ^ 15
IsInt16 (negsuc n) = n < 2 ^ 15

pub signed32-to_word32 : (z : ℤ) → IsInt32 z → signed32 (to_word32 z) ≡ z
unfolding signed32 to_word32
signed32-to_word32 (pos n) h = ground arith
signed32-to_word32 (negsuc n) h = ground arith

pub signed16-to_word16 : (z : ℤ) → IsInt16 z → signed16 (to_word16 z) ≡ z
unfolding signed16 to_word16
signed16-to_word16 (pos n) h = ground arith
signed16-to_word16 (negsuc n) h = ground arith

pub to_word32-lt : (z : ℤ) → to_word32 z < 2 ^ 32
unfolding to_word32
to_word32-lt (pos n) = omega arith
to_word32-lt (negsuc n) = omega arith

pub to_word16-lt : (z : ℤ) → to_word16 z < 2 ^ 16
unfolding to_word16
to_word16-lt (pos n) = omega arith
to_word16-lt (negsuc n) = omega arith
