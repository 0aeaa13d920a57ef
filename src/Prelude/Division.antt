-- ===== src/Prelude/Division.antt =====
-- Floor division by a positive number.
use Prim.Native.Nat.{ℕ, ◌+◌, ◌*◌, ◌/◌, ◌<◌, ◌≤◌}
use native.Mathlib.Nat.{le-div_iff_mul-le, div-lt_iff_lt-mul, div-mul-le_self, add-mul}
use native.Mathlib.Omega.{arith}

pub le_div : (q n d : ℕ) → 0 < d → q * d ≤ n → q ≤ n / d
le_div q n d pos h = (le-div_iff_mul-le pos).1 h

pub mul_le_of_le_div : (q n d : ℕ) → 0 < d → q ≤ n / d → q * d ≤ n
mul_le_of_le_div q n d pos h = (le-div_iff_mul-le pos).0 h

pub div_lt : (q n d : ℕ) → 0 < d → n < q * d → n / d < q
div_lt q n d pos h = (div-lt_iff_lt-mul pos).1 h

pub lt_mul_of_div_lt : (q n d : ℕ) → 0 < d → n / d < q → n < q * d
lt_mul_of_div_lt q n d pos h = (div-lt_iff_lt-mul pos).0 h

pub div_mono : (m n d : ℕ) → 0 < d → m ≤ n → m / d ≤ n / d
div_mono m n d pos h = le_div (m / d) n d pos (omega (arith, div-mul-le_self m d))

-- Two floors add up to no more than the floor of the sum.
pub div-add-le : (m n d : ℕ) → 0 < d → m / d + n / d ≤ (m + n) / d
div-add-le m n d pos =
    le_div (m / d + n / d) (m + n) d pos
      (omega (arith, div-mul-le_self m d, div-mul-le_self n d, add-mul (m / d) (n / d) d))
