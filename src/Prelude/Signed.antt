-- ===== src/Prelude/Signed.antt =====
-- Signed numbers over the native ones, as differences of two of them.
use Prim.Native.Nat.{ℕ, zero, suc, ◌+◌, ◌-◌}
use mathlib.Core.Path.{◌≡◌}
use native.Mathlib.Omega.{arith}
use solver.Prelude.Tests.{leb, if◌then◌else◌}

pub data ℤ : Type 0 where
  pos : ℕ → ℤ
  negsuc : ℕ → ℤ

-- `a - b`
unfoldable pub diff : ℕ → ℕ → ℤ
diff a b = if leb b a then pos (a - b) else negsuc (b - a - 1)

infixl 6 ◌+ℤ◌
unfoldable pub ◌+ℤ◌ : ℤ → ℤ → ℤ
pos a +ℤ pos b = pos (a + b)
pos a +ℤ negsuc b = diff a (suc b)
negsuc a +ℤ pos b = diff b (suc a)
negsuc a +ℤ negsuc b = negsuc (suc (a + b))

unfoldable pub neg : ℕ → ℤ
neg zero = pos 0
neg (suc n) = negsuc n

infixl 6 ◌-ℤ◌
unfoldable pub ◌-ℤ◌ : ℤ → ℕ → ℤ
z -ℤ n = z +ℤ neg n

pub add-diff : (c d n : ℕ) → diff c d +ℤ pos n ≡ diff (c + n) d
unfolding diff ◌+ℤ◌
add-diff c d n = ground arith

pub sub-diff : (c d n : ℕ) → diff c d -ℤ n ≡ diff c (d + n)
unfolding diff ◌+ℤ◌ ◌-ℤ◌ neg
sub-diff c d zero = ground arith
sub-diff c d (suc n) = ground arith
