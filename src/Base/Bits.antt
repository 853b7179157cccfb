-- ===== src/Base/Bits.antt =====
-- Laws of the bit operations at variables, from the digit recursion that they stand for.
use Prim.Native.Nat.{
  ℕ, zero, suc, ◌+◌, ◌*◌, ◌/◌, ◌%◌, ◌≤◌, ◌<◌, min, bit_and, digits, bitwise, bit_and-bitwise,
}
use mathlib.Core.Bool.{Bool, true, ◌&&◌}
use mathlib.Core.Path.{◌≡◌, refl, sym, ap, ◌∙◌}
use native.Mathlib.Omega.{arith}

module _ (z : ℕ → ℕ) (f : ℕ → ℕ → ℕ) where
  digits-zero : (n b : ℕ) → digits z f n 0 b ≡ z b
  digits-zero zero b = refl
  digits-zero (suc n) b = refl

  -- Any two counts of digits that cover the first number give one result.
  digits_count : (a b n m : ℕ) → a ≤ n → a ≤ m → digits z f n a b ≡ digits z f m a b
  digits_count zero b n m hn hm = digits-zero n b ∙ sym (digits-zero m b)
  digits_count (suc a) b zero m hn hm = absurd (omega arith)
  digits_count (suc a) b n zero hn hm = absurd (omega arith)
  digits_count (suc a) b (suc n) (suc m) hn hm =
      ap (λ above. above * 2 + f (suc a % 2) (b % 2))
        (digits_count (suc a / 2) (b / 2) n m (omega arith) (omega arith))

  -- The lowest digit of an operation that, at 0, puts its own digits together.
  pub lowest_digit :
      ((b : ℕ) → z b ≡ z (b / 2) * 2 + f 0 (b % 2))
      → (a b : ℕ) → bitwise z f a b ≡ bitwise z f (a / 2) (b / 2) * 2 + f (a % 2) (b % 2)
  lowest_digit at_zero zero b = at_zero b
  lowest_digit at_zero (suc a) b =
      ap (λ above. above * 2 + f (suc a % 2) (b % 2))
        (digits_count (suc a / 2) (b / 2) a (suc a / 2) (omega arith) (omega arith))

pub bit_and_step : (a b : ℕ) → bit_and a b ≡ bit_and (a / 2) (b / 2) * 2 + min (a % 2) (b % 2)
bit_and_step a b =
    rw (bit_and-bitwise a b, bit_and-bitwise (a / 2) (b / 2))
      (lowest_digit (λ c. zero) min (λ c. omega arith) a b)

none_with_zero : (most a : ℕ) → a ≤ most → bit_and a 0 ≡ 0
none_with_zero most zero h = bit_and-bitwise 0 0
none_with_zero zero (suc a) h = absurd (omega arith)
none_with_zero (suc most) (suc a) h =
    let above = none_with_zero most (suc a / 2) (omega arith) in
    omega (arith, bit_and_step (suc a) 0, above)

pub bit_and-zero : (a : ℕ) → bit_and a 0 ≡ 0
bit_and-zero a = none_with_zero a a (omega arith)

-- A mask of low ones is a remainder, and a single bit is a digit.
pub mask_1 : (a : ℕ) → bit_and a 1 ≡ a % 2
mask_1 a = omega (arith, bit_and_step a 1, bit_and-zero (a / 2))

pub mask_2 : (a : ℕ) → bit_and a 3 ≡ a % 4
mask_2 a = omega (arith, bit_and_step a 3, mask_1 (a / 2))

pub mask_3 : (a : ℕ) → bit_and a 7 ≡ a % 8
mask_3 a = omega (arith, bit_and_step a 7, mask_2 (a / 2))

pub mask_4 : (a : ℕ) → bit_and a 15 ≡ a % 16
mask_4 a = omega (arith, bit_and_step a 15, mask_3 (a / 2))

pub mask_5 : (a : ℕ) → bit_and a 31 ≡ a % 32
mask_5 a = omega (arith, bit_and_step a 31, mask_4 (a / 2))

pub mask_6 : (a : ℕ) → bit_and a 63 ≡ a % 64
mask_6 a = omega (arith, bit_and_step a 63, mask_5 (a / 2))

pub mask_7 : (a : ℕ) → bit_and a 127 ≡ a % 128
mask_7 a = omega (arith, bit_and_step a 127, mask_6 (a / 2))

pub bit_0 : (a : ℕ) → bit_and a 1 ≡ a / 1 % 2 * 1
bit_0 a = omega (arith, bit_and_step a 1, bit_and-zero (a / 2))

pub bit_1 : (a : ℕ) → bit_and a 2 ≡ a / 2 % 2 * 2
bit_1 a = omega (arith, bit_and_step a 2, bit_0 (a / 2))

pub bit_2 : (a : ℕ) → bit_and a 4 ≡ a / 4 % 2 * 4
bit_2 a = omega (arith, bit_and_step a 4, bit_1 (a / 2))

pub bit_3 : (a : ℕ) → bit_and a 8 ≡ a / 8 % 2 * 8
bit_3 a = omega (arith, bit_and_step a 8, bit_2 (a / 2))

pub bit_4 : (a : ℕ) → bit_and a 16 ≡ a / 16 % 2 * 16
bit_4 a = omega (arith, bit_and_step a 16, bit_3 (a / 2))

pub bit_5 : (a : ℕ) → bit_and a 32 ≡ a / 32 % 2 * 32
bit_5 a = omega (arith, bit_and_step a 32, bit_4 (a / 2))

pub bit_6 : (a : ℕ) → bit_and a 64 ≡ a / 64 % 2 * 64
bit_6 a = omega (arith, bit_and_step a 64, bit_5 (a / 2))

pub bit_7 : (a : ℕ) → bit_and a 128 ≡ a / 128 % 2 * 128
bit_7 a = omega (arith, bit_and_step a 128, bit_6 (a / 2))

pub bit_8 : (a : ℕ) → bit_and a 256 ≡ a / 256 % 2 * 256
bit_8 a = omega (arith, bit_and_step a 256, bit_7 (a / 2))

pub bit_9 : (a : ℕ) → bit_and a 512 ≡ a / 512 % 2 * 512
bit_9 a = omega (arith, bit_and_step a 512, bit_8 (a / 2))

pub bit_10 : (a : ℕ) → bit_and a 1024 ≡ a / 1024 % 2 * 1024
bit_10 a = omega (arith, bit_and_step a 1024, bit_9 (a / 2))

pub bit_11 : (a : ℕ) → bit_and a 2048 ≡ a / 2048 % 2 * 2048
bit_11 a = omega (arith, bit_and_step a 2048, bit_10 (a / 2))

-- Four ones above low zeroes.
nibble_1 : (a : ℕ) → bit_and a 30 ≡ a / 2 % 16 * 2
nibble_1 a = omega (arith, bit_and_step a 30, mask_4 (a / 2))

nibble_2 : (a : ℕ) → bit_and a 60 ≡ a / 4 % 16 * 4
nibble_2 a = omega (arith, bit_and_step a 60, nibble_1 (a / 2))

nibble_3 : (a : ℕ) → bit_and a 120 ≡ a / 8 % 16 * 8
nibble_3 a = omega (arith, bit_and_step a 120, nibble_2 (a / 2))

nibble_4 : (a : ℕ) → bit_and a 240 ≡ a / 16 % 16 * 16
nibble_4 a = omega (arith, bit_and_step a 240, nibble_3 (a / 2))

nibble_5 : (a : ℕ) → bit_and a 480 ≡ a / 32 % 16 * 32
nibble_5 a = omega (arith, bit_and_step a 480, nibble_4 (a / 2))

nibble_6 : (a : ℕ) → bit_and a 960 ≡ a / 64 % 16 * 64
nibble_6 a = omega (arith, bit_and_step a 960, nibble_5 (a / 2))

nibble_7 : (a : ℕ) → bit_and a 1920 ≡ a / 128 % 16 * 128
nibble_7 a = omega (arith, bit_and_step a 1920, nibble_6 (a / 2))

pub nibble_8 : (a : ℕ) → bit_and a 3840 ≡ a / 256 % 16 * 256
nibble_8 a = omega (arith, bit_and_step a 3840, nibble_7 (a / 2))

-- Check every value below a bound by evaluation.
unfoldable pub check_below : ℕ → (ℕ → Bool) → Bool
check_below zero p = true
check_below (suc n) p = check_below n p && p n

pub check_below-at : (n : ℕ) (p : ℕ → Bool) (x : ℕ) → check_below n p ≡ true → x < n → p x ≡ true
unfolding check_below
check_below-at zero p x all below = absurd (omega arith)
check_below-at (suc n) p x all below = ground (arith, check_below-at n p x)
