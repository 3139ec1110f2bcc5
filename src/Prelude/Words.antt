-- ===== src/Prelude/Words.antt =====
-- Unsigned words: the arithmetic of uint32_t and of uint64_t (also size_t), wrapped around.
use Prim.Native.Nat.{ℕ, ◌+◌, ◌-◌, ◌*◌, ◌/◌, ◌%◌, ◌^◌}

abbrev pub u32_mod : ℕ
u32_mod = 2 ^ 32

abbrev pub u64_mod : ℕ
u64_mod = 2 ^ 64

-- static_cast<uint32_t>(x).
abbrev pub u32 : ℕ → ℕ
u32 x = x % u32_mod

abbrev pub u64 : ℕ → ℕ
u64 x = x % u64_mod

-- a - b on uint32_t and on uint64_t, both below the modulus.
abbrev pub sub32 : ℕ → ℕ → ℕ
sub32 a b = (a + u32_mod - b) % u32_mod

abbrev pub sub64 : ℕ → ℕ → ℕ
sub64 a b = (a + u64_mod - b) % u64_mod

-- fbl::round_up(a, b) and fbl::round_down(a, b) for b > 0.
abbrev pub round_up : ℕ → ℕ → ℕ
round_up a b = (a + b - 1) / b * b

abbrev pub round_down : ℕ → ℕ → ℕ
round_down a b = a / b * b
