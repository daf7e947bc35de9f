-- ===== src/Common/Word.antt =====
-- `u64` and `u32` arithmetic of a release build, which wraps around.
use Prim.Native.Nat.{ℕ, ◌+◌, ◌-◌, ◌*◌, ◌/◌, ◌%◌, ◌^◌, min}

abbrev pub u64_mod : ℕ
u64_mod = 2 ^ 64

abbrev pub u32_mod : ℕ
u32_mod = 2 ^ 32

-- `a + b`, `a - b`, `a * b`
abbrev pub add64 : ℕ → ℕ → ℕ
add64 a b = (a + b) % 2 ^ 64

abbrev pub sub64 : ℕ → ℕ → ℕ
sub64 a b = (a + 2 ^ 64 - b) % 2 ^ 64

abbrev pub mul64 : ℕ → ℕ → ℕ
mul64 a b = a * b % 2 ^ 64

-- `a.saturating_add(b)`
abbrev pub saturating_add64 : ℕ → ℕ → ℕ
saturating_add64 a b = min (a + b) (2 ^ 64 - 1)

-- `a as u32`
abbrev pub as_u32 : ℕ → ℕ
as_u32 a = a % 2 ^ 32

-- `a.div_ceil(b)`: the quotient, and one more where a remainder is left.
abbrev pub div_ceil : ℕ → ℕ → ℕ
div_ceil a b = a / b + min (a % b) 1
