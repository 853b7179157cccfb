-- ===== src/Base/Digits.antt =====
-- Binary digits, and what the bit operations do to them.
use Prim.Native.Nat.{
  ℕ, zero, suc, ◌+◌, ◌*◌, ◌/◌, ◌%◌, ◌^◌, ◌<◌, ◌≤◌, max, differ, bit_and, bit_or, bit_xor,
  bit_and-bitwise, bit_or-bitwise, bit_xor-bitwise,
}
use mathlib.Core.Path.{◌≡◌, refl, ap, ◌∙◌}
use mathlib.Core.Bool.{Bool, true, false, not, ◌&&◌, ◌||◌}
use native.Mathlib.Omega.{arith}
use native.Mathlib.Nat.{pow-suc}
use go_tpm.Base.Tests.{◌==◌}
use go_tpm.Base.Bits.{bit_and_step, mask_1, lowest_digit}

-- Whether digit c of a number is 1.
unfoldable pub bit : ℕ → ℕ → Bool
bit zero a = a % 2 == 1
bit (suc c) a = bit c (a / 2)

bit_or_step : (a b : ℕ) → bit_or a b ≡ bit_or (a / 2) (b / 2) * 2 + max (a % 2) (b % 2)
bit_or_step a b =
    rw (bit_or-bitwise a b, bit_or-bitwise (a / 2) (b / 2))
      (lowest_digit (λ c. c) max (λ c. omega arith) a b)

bit_xor_step : (a b : ℕ) → bit_xor a b ≡ bit_xor (a / 2) (b / 2) * 2 + differ (a % 2) (b % 2)
bit_xor_step a b =
    rw (bit_xor-bitwise a b, bit_xor-bitwise (a / 2) (b / 2))
      (lowest_digit (λ c. c) differ (λ c. omega arith) a b)

pub bit-bit_or : (c a b : ℕ) → bit c (bit_or a b) ≡ bit c a || bit c b
unfolding bit
bit-bit_or zero a b = ground (arith, bit_or_step a b)
bit-bit_or (suc c) a b =
    let half : bit_or a b / 2 ≡ bit_or (a / 2) (b / 2) = omega (arith, bit_or_step a b) in
    rw (half, bit-bit_or c (a / 2) (b / 2))

pub bit-bit_and : (c a b : ℕ) → bit c (bit_and a b) ≡ bit c a && bit c b
unfolding bit
bit-bit_and zero a b = ground (arith, bit_and_step a b)
bit-bit_and (suc c) a b =
    let half : bit_and a b / 2 ≡ bit_and (a / 2) (b / 2) = omega (arith, bit_and_step a b) in
    rw (half, bit-bit_and c (a / 2) (b / 2))

differ_digits : (x y : ℕ) → x < 2 → y < 2 → differ x y < 2
differ_digits zero zero hx hy = omega arith
differ_digits zero (suc zero) hx hy = omega arith
differ_digits (suc zero) zero hx hy = omega arith
differ_digits (suc zero) (suc zero) hx hy = omega arith
differ_digits (suc (suc x)) y hx hy = absurd (omega arith)
differ_digits zero (suc (suc y)) hx hy = absurd (omega arith)
differ_digits (suc zero) (suc (suc y)) hx hy = absurd (omega arith)

differ_below : (a m : ℕ) → differ (a % 2) (m % 2) < 2
differ_below a m = differ_digits (a % 2) (m % 2) (omega arith) (omega arith)

pub bit-zero : (c : ℕ) → bit c 0 ≡ false
unfolding bit
bit-zero zero = refl
bit-zero (suc c) = bit-zero c

pub bit-bit_xor : (c a m : ℕ) → bit c m ≡ true → bit c (bit_xor a m) ≡ not (bit c a)
unfolding bit
bit-bit_xor zero a m h = ground (arith, bit_xor_step a m)
bit-bit_xor (suc c) a m h =
    let half : bit_xor a m / 2 ≡ bit_xor (a / 2) (m / 2) =
      omega (arith, bit_xor_step a m, differ_below a m) in
    rw (half, bit-bit_xor c (a / 2) (m / 2) h)

pub bit-power : (c d : ℕ) → bit c (2 ^ d) ≡ (c == d)
unfolding bit
bit-power zero zero = refl
bit-power zero (suc d) = ground (arith, pow-suc 2 d)
bit-power (suc c) zero = rw (bit-zero c) (ground arith)
bit-power (suc c) (suc d) =
    let half : 2 ^ suc d / 2 ≡ 2 ^ d = omega (arith, pow-suc 2 d) in
    rw (half, bit-power c d) (ground arith)

-- `a & (1 << c) == 0`
pub bit-test : (c a : ℕ) → (bit_and a (2 ^ c) == 0) ≡ not (bit c a)
unfolding bit
bit-test zero a = ground (arith, mask_1 a)
bit-test (suc c) a =
    let half : 2 ^ suc c / 2 ≡ 2 ^ c = omega (arith, pow-suc 2 c) in
    let step : bit_and a (2 ^ suc c) ≡ bit_and (a / 2) (2 ^ c) * 2 =
      omega (arith, bit_and_step a (2 ^ suc c), ap (λ x. bit_and (a / 2) x) half, pow-suc 2 c) in
    rw step (ground (arith, bit-test c (a / 2)))

below_one : (a : ℕ) → a < 1 → a ≡ 0
below_one a h = omega arith

pub bit_or_below : (n a b : ℕ) → a < 2 ^ n → b < 2 ^ n → bit_or a b < 2 ^ n
bit_or_below zero a b ha hb = omega (
  arith,
  bit_or-bitwise 0 0,
  ap (λ x. bit_or x 0) (below_one a ha),
  ap (λ x. bit_or a x) (below_one b hb),
)
bit_or_below (suc n) a b ha hb = omega (
  arith,
  bit_or_step a b,
  pow-suc 2 n,
  bit_or_below n (a / 2) (b / 2) (omega (arith, pow-suc 2 n)) (omega (arith, pow-suc 2 n)),
)

pub bit_and_below : (n a b : ℕ) → a < 2 ^ n → bit_and a b < 2 ^ n
bit_and_below zero a b ha = omega (
  arith,
  bit_and_step a b,
  bit_and-bitwise 0 (b / 2),
  ap (λ x. bit_and x (b / 2)) (below_one (a / 2) (omega arith)),
)
bit_and_below (suc n) a b ha = omega (
  arith,
  bit_and_step a b,
  pow-suc 2 n,
  bit_and_below n (a / 2) (b / 2) (omega (arith, pow-suc 2 n)),
)

-- Numbers of n digits with the same digits are equal.
pub bits_determine :
    (n a b : ℕ) → a < 2 ^ n → b < 2 ^ n → ((c : ℕ) → c < n → bit c a ≡ bit c b) → a ≡ b
unfolding bit
bits_determine zero a b ha hb h = omega arith
bits_determine (suc n) a b ha hb h =
    let low : (a % 2 == 1) ≡ (b % 2 == 1) = h 0 (omega arith) in
    ground (
      arith,
      bits_determine n (a / 2) (b / 2) (omega (arith, pow-suc 2 n)) (omega (arith, pow-suc 2 n))
          (λ c lt. h (suc c) (omega arith)),
    )

below_power : (n : ℕ) → n < 2 ^ n
below_power zero = omega arith
below_power (suc n) = omega (arith, pow-suc 2 n, below_power n)

-- Bits that are set are set.
pub bit_or_again : (a m : ℕ) → bit_or (bit_or a m) m ≡ bit_or a m
bit_or_again a m =
    bits_determine n (bit_or (bit_or a m) m) (bit_or a m) (bit_or_below n (bit_or a m) m once small)
      once (λ c h. rw (bit-bit_or c (bit_or a m) m, bit-bit_or c a m) (twice (bit c a) (bit c m)))
  where
    n : ℕ
    n = a + m

    small : m < 2 ^ n
    small = omega (arith, below_power (a + m))

    once : bit_or a m < 2 ^ n
    once = bit_or_below n a m (omega (arith, below_power (a + m))) small

    twice : (x y : Bool) → ((x || y) || y) ≡ (x || y)
    twice x y = ground arith

differ_twice : (x y : ℕ) → x < 2 → y < 2 → differ (differ x y) y ≡ x
differ_twice zero zero hx hy = refl
differ_twice zero (suc zero) hx hy = refl
differ_twice (suc zero) zero hx hy = refl
differ_twice (suc zero) (suc zero) hx hy = refl
differ_twice (suc (suc x)) y hx hy = absurd (omega arith)
differ_twice zero (suc (suc y)) hx hy = absurd (omega arith)
differ_twice (suc zero) (suc (suc y)) hx hy = absurd (omega arith)

xor_again : (n a m : ℕ) → a + m ≤ n → bit_xor (bit_xor a m) m ≡ a
xor_again zero a m h =
    let a0 : a ≡ 0 = omega arith in
    let m0 : m ≡ 0 = omega arith in rw (a0, m0, bit_xor-bitwise 0 0, bit_xor-bitwise 0 0) refl
xor_again (suc n) a m h =
    let c : ℕ = bit_xor a m in
    let step : c ≡ bit_xor (a / 2) (m / 2) * 2 + differ (a % 2) (m % 2) = bit_xor_step a m in
    let below = differ_below a m in
    let half : c / 2 ≡ bit_xor (a / 2) (m / 2) = omega arith in
    let low : c % 2 ≡ differ (a % 2) (m % 2) = omega arith in
    let again : bit_xor c m ≡ (a / 2) * 2 + a % 2 =
      bit_xor_step c m
      ∙ ap (λ k. bit_xor k (m / 2) * 2 + differ (c % 2) (m % 2)) half
      ∙ ap (λ k. bit_xor (bit_xor (a / 2) (m / 2)) (m / 2) * 2 + differ k (m % 2)) low
      ∙ ap (λ k. k * 2 + differ (differ (a % 2) (m % 2)) (m % 2))
          (xor_again n (a / 2) (m / 2) (omega arith))
      ∙ ap (λ k. a / 2 * 2 + k) (differ_twice (a % 2) (m % 2) (omega arith) (omega arith)) in
    omega arith

-- A bit operation that is undone by itself.
pub bit_xor_again : (a m : ℕ) → bit_xor (bit_xor a m) m ≡ a
bit_xor_again a m = xor_again (a + m) a m (omega arith)
