-- ===== src/Base/Int.antt =====
-- Signed integers over the native numbers, under the library's names (its ℤ stands on the unary ℕ),
-- and the conversions between an `int16_t` and its bit pattern.
use Prim.Native.Nat.{ℕ, ◌-◌, ◌%◌, ◌^◌, ◌<◌}
use mathlib.Core.Path.{◌≡◌}
use native.Mathlib.Omega.{arith}
use wii_sec_u.Base.Tests.{ltb, if◌then◌else◌}

-- `negsuc n` is -(n + 1).
pub data ℤ : Type 0 where
  pos : ℕ → ℤ
  negsuc : ℕ → ℤ

-- The values of an `int16_t`.
abbrev pub IsI16 : ℤ → Type 0
IsI16 (pos n) = n < 2 ^ 15
IsI16 (negsuc n) = n < 2 ^ 15

-- `(uint16_t)v`
abbrev pub to_u16 : ℤ → ℕ
to_u16 (pos n) = n % 2 ^ 16
to_u16 (negsuc n) = 2 ^ 16 - 1 - n % 2 ^ 16

-- `(int16_t)w` of a `uint16_t`
abbrev pub to_i16 : ℕ → ℤ
to_i16 w = if ltb w (2 ^ 15) then pos w else negsuc (2 ^ 16 - 1 - w)

pub to_i16-to_u16 : (v : ℤ) → IsI16 v → to_i16 (to_u16 v) ≡ v
to_i16-to_u16 (pos n) h = ground arith
to_i16-to_u16 (negsuc n) h = ground arith

pub to_u16-lt : (v : ℤ) → to_u16 v < 2 ^ 16
to_u16-lt (pos n) = omega arith
to_u16-lt (negsuc n) = omega arith
