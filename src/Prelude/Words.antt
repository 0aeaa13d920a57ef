-- ===== src/Prelude/Words.antt =====
-- Machine words. A word is a native number; what wraps or saturates in the source does so here.
use Prim.Native.Nat.{ℕ, ◌+◌, ◌*◌, ◌%◌, ◌^◌, ◌-◌, min}

abbrev pub u32_mod : ℕ
u32_mod = 2 ^ 32

abbrev pub u64_mod : ℕ
u64_mod = 2 ^ 64

abbrev pub u128_mod : ℕ
u128_mod = 2 ^ 128

-- `x as u64`
abbrev pub as_u64 : ℕ → ℕ
as_u64 x = x % u64_mod

-- `saturating_add` of `u64` and of `u128`, and `saturating_mul` of `u128`.
abbrev pub sat_add64 : ℕ → ℕ → ℕ
sat_add64 a b = min (a + b) (u64_mod - 1)

abbrev pub sat_add128 : ℕ → ℕ → ℕ
sat_add128 a b = min (a + b) (u128_mod - 1)

abbrev pub sat_mul128 : ℕ → ℕ → ℕ
sat_mul128 a b = min (a * b) (u128_mod - 1)
