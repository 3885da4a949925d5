-- ===== src/Base/Word.antt =====
-- Unsigned machine words as native numbers below a power of two: the wrap-around is written out.
use Prim.Native.Nat.{ℕ, ◌+◌, ◌-◌, ◌%◌, ◌^◌}

-- `a - b` on `uint32_t`
abbrev pub sub32 : ℕ → ℕ → ℕ
sub32 a b = (a + 2 ^ 32 - b) % 2 ^ 32

-- `x++` and `a + b` on `uint32_t`
abbrev pub add32 : ℕ → ℕ → ℕ
add32 a b = (a + b) % 2 ^ 32

-- `seq++` on a `uint16_t`
abbrev pub next16 : ℕ → ℕ
next16 s = (s + 1) % 2 ^ 16
