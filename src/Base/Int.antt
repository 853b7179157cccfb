-- ===== src/Base/Int.antt =====
-- Go's int, with no bound: the indexes that the errors carry may be negative.
use Prim.Native.Nat.{ℕ}
use mathlib.Core.Path.{◌≡◌}
use mathlib.Core.Bool.{Bool, true, false}
use native.Mathlib.Omega.{arith}
use go_tpm.Base.Tests.{◌==◌, leb}

-- `negsuc n` is -(n + 1).
pub data ℤ : Type 0 where
  pos : ℕ → ℤ
  negsuc : ℕ → ℤ

-- `i == j`
abbrev pub eq_ℤ : ℤ → ℤ → Bool
eq_ℤ (pos n) (pos m) = n == m
eq_ℤ (negsuc n) (negsuc m) = n == m
eq_ℤ (pos n) (negsuc m) = false
eq_ℤ (negsuc n) (pos m) = false

-- `0 <= i && i <= m`
abbrev pub in_range : ℤ → ℕ → Bool
in_range (pos n) m = leb n m
in_range (negsuc n) m = false

-- The value of an int that is known not to be negative.
abbrev pub magnitude : ℤ → ℕ
magnitude (pos n) = n
magnitude (negsuc n) = 0

pub eq_ℤ-refl : (i : ℤ) → eq_ℤ i i ≡ true
eq_ℤ-refl (pos n) = ground arith
eq_ℤ-refl (negsuc n) = ground arith
