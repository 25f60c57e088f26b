-- ===== src/Base/Bits.antt =====
-- Laws of the bit operations at variables. `bit a k` is bit `k` of `a`.
use Prim.Native.Nat.{ℕ, zero, suc, ◌+◌, ◌-◌, ◌*◌, ◌/◌, ◌%◌, ◌^◌, ◌≤◌, ◌<◌, min, max, differ}
use Prim.Native.Nat.{bit_and, bit_or, bit_xor, digits, bitwise}
use Prim.Native.Nat.{bit_and-bitwise, bit_or-bitwise, bit_xor-bitwise}
use native.Mathlib.Nat.{le_refl, pow-suc}
use mathlib.Core.Path.{◌≡◌, refl, ap, ◌∙◌}
use native.Mathlib.Omega.{arith}

-- The native operations run on fuel. Fuel beyond the first number changes nothing.
module _ (z : ℕ → ℕ) (f : ℕ → ℕ → ℕ) where
  one_more : (n a b : ℕ) → a ≤ n → digits z f (suc n) a b ≡ digits z f n a b
  one_more zero zero b h = refl
  one_more (suc n) zero b h = refl
  one_more zero (suc a) b h = absurd (omega arith)
  one_more (suc n) (suc a) b h =
      ap (λ r. r * 2 + f (suc a % 2) (b % 2)) (one_more n (suc a / 2) (b / 2) (omega arith))

  spare : (extra n a b : ℕ) → a ≤ n → digits z f (extra + n) a b ≡ digits z f n a b
  spare zero n a b h = ap (λ m. digits z f m a b) (omega arith)
  spare (suc extra) n a b h =
      let next : suc extra + n ≡ suc (extra + n) = omega arith in
      ap (λ m. digits z f m a b) next ∙ one_more (extra + n) a b (omega arith) ∙ spare extra n a b h

  -- An operation whose rule for 0 goes digit by digit does so everywhere.
  by_digit :
      ((b : ℕ) → z b ≡ z (b / 2) * 2 + f 0 (b % 2))
      → (a b : ℕ) → bitwise z f a b ≡ bitwise z f (a / 2) (b / 2) * 2 + f (a % 2) (b % 2)
  by_digit rule zero b = rule b
  by_digit rule (suc a) b =
      let half = suc a / 2 in
      let fuel : a ≡ a - half + half = omega arith in
      ap (λ r. r * 2 + f (suc a % 2) (b % 2))
        (ap (λ n. digits z f n half (b / 2)) fuel
          ∙ spare (a - half) half half (b / 2) (le_refl half))

pub bit_or_step : (a b : ℕ) → bit_or a b ≡ bit_or (a / 2) (b / 2) * 2 + max (a % 2) (b % 2)
bit_or_step a b = simp bit_or-bitwise (by_digit (λ y. y) max (λ y. omega arith) a b)

pub bit_and_step : (a b : ℕ) → bit_and a b ≡ bit_and (a / 2) (b / 2) * 2 + min (a % 2) (b % 2)
bit_and_step a b = simp bit_and-bitwise (by_digit (λ y. 0) min (λ y. omega arith) a b)

differ-digits : (a b : ℕ) → a < 2 → b < 2 → differ a b ≡ (a + b) % 2
differ-digits zero b p q = omega arith
differ-digits (suc zero) zero p q = refl
differ-digits (suc zero) (suc zero) p q = refl
differ-digits (suc zero) (suc (suc b)) p q = absurd (omega arith)
differ-digits (suc (suc a)) b p q = absurd (omega arith)

pub bit_xor_step : (a b : ℕ) → bit_xor a b ≡ bit_xor (a / 2) (b / 2) * 2 + (a + b) % 2
bit_xor_step a b = simp bit_xor-bitwise (
    by_digit (λ y. y) differ (λ y. omega (arith, differ-digits 0 (y % 2))) a b
    ∙ omega (arith, differ-digits (a % 2) (b % 2) (omega arith) (omega arith)))

-- Bit `k` of `a`.
abbrev pub bit : ℕ → ℕ → ℕ
bit a zero = a % 2
bit a (suc k) = bit (a / 2) k

-- The low `k` bits, the rest, `a` moved up by `k` bits, and `k` ones, all by recursion on `k`.
abbrev pub low : ℕ → ℕ → ℕ
low a zero = 0
low a (suc k) = low (a / 2) k * 2 + a % 2

abbrev pub high : ℕ → ℕ → ℕ
high a zero = a
high a (suc k) = high (a / 2) k

abbrev pub scale : ℕ → ℕ → ℕ
scale a zero = a
scale a (suc k) = scale a k * 2

abbrev pub ones : ℕ → ℕ
ones zero = 0
ones (suc k) = ones k * 2 + 1

bit-high : (a k : ℕ) → high a k % 2 ≡ bit a k
bit-high a zero = refl
bit-high a (suc k) = bit-high (a / 2) k

pub bit-lt : (a k : ℕ) → bit a k < 2
bit-lt a zero = omega arith
bit-lt a (suc k) = bit-lt (a / 2) k

pub bit-bit_or : (a b k : ℕ) → bit (bit_or a b) k ≡ max (bit a k) (bit b k)
bit-bit_or a b zero = omega (arith, bit_or_step a b)
bit-bit_or a b (suc k) = rw (half a b) (bit-bit_or (a / 2) (b / 2) k)
  where
    half : (a b : ℕ) → bit_or a b / 2 ≡ bit_or (a / 2) (b / 2)
    half a b = omega (arith, bit_or_step a b)

pub bit-bit_and : (a b k : ℕ) → bit (bit_and a b) k ≡ min (bit a k) (bit b k)
bit-bit_and a b zero = omega (arith, bit_and_step a b)
bit-bit_and a b (suc k) = rw (half a b) (bit-bit_and (a / 2) (b / 2) k)
  where
    half : (a b : ℕ) → bit_and a b / 2 ≡ bit_and (a / 2) (b / 2)
    half a b = omega (arith, bit_and_step a b)

pub bit-bit_xor : (a b k : ℕ) → bit (bit_xor a b) k ≡ (bit a k + bit b k) % 2
bit-bit_xor a b zero = omega (arith, bit_xor_step a b)
bit-bit_xor a b (suc k) = rw (half a b) (bit-bit_xor (a / 2) (b / 2) k)
  where
    half : (a b : ℕ) → bit_xor a b / 2 ≡ bit_xor (a / 2) (b / 2)
    half a b = omega (arith, bit_xor_step a b)

pub bit_and-zero : (a n : ℕ) → a ≤ n → bit_and a 0 ≡ 0
bit_and-zero zero n h = bit_and-bitwise 0 0
bit_and-zero (suc a) zero h = absurd (omega arith)
bit_and-zero (suc a) (suc n) h =
    omega (arith, bit_and_step (suc a) 0, bit_and-zero (suc a / 2) n (omega arith))

pub bit_or-zero : (a n : ℕ) → a ≤ n → bit_or a 0 ≡ a
bit_or-zero zero n h = bit_or-bitwise 0 0
bit_or-zero (suc a) zero h = absurd (omega arith)
bit_or-zero (suc a) (suc n) h =
    omega (arith, bit_or_step (suc a) 0, bit_or-zero (suc a / 2) n (omega arith))

pub bit_and-ones : (a k : ℕ) → bit_and a (ones k) ≡ low a k
bit_and-ones a zero = bit_and-zero a a (le_refl _)
bit_and-ones a (suc k) =
    let half : (ones k * 2 + 1) / 2 ≡ ones k = omega arith in
    let step = bit_and_step a (ones k * 2 + 1) in
    omega (arith, rw half at step, bit_and-ones (a / 2) k)

pub bit_and-scale : (a m k : ℕ) → bit_and a (scale m k) ≡ scale (bit_and (high a k) m) k
bit_and-scale a m zero = refl
bit_and-scale a m (suc k) =
    let half : scale m k * 2 / 2 ≡ scale m k = omega arith in
    let step = bit_and_step a (scale m k * 2) in
    omega (arith, rw half at step, bit_and-scale (a / 2) m k)

pub bit_or-scale : (a b k : ℕ) → b < 2 ^ k → bit_or (scale a k) b ≡ scale a k + b
bit_or-scale a b zero h =
    let e : b ≡ 0 = omega arith in rw e (omega (arith, bit_or-zero a a (le_refl _)))
bit_or-scale a b (suc k) h =
    let half : scale a k * 2 / 2 ≡ scale a k = omega arith in
    let step = bit_or_step (scale a k * 2) b in
    omega (arith, rw half at step, pow-suc 2 k, bit_or-scale a (b / 2) k)

pub bit_or_low-scale : (a b k : ℕ) → b < 2 ^ k → bit_or b (scale a k) ≡ scale a k + b
bit_or_low-scale a b zero h = let e : b ≡ 0 = omega arith in rw (e, bit_or-bitwise) (omega arith)
bit_or_low-scale a b (suc k) h =
    let half : scale a k * 2 / 2 ≡ scale a k = omega arith in
    let step = bit_or_step b (scale a k * 2) in
    omega (arith, rw half at step, pow-suc 2 k, bit_or_low-scale a (b / 2) k)

-- No operation makes a number wider.
pub bit_or-lt : (a b k : ℕ) → a < 2 ^ k → b < 2 ^ k → bit_or a b < 2 ^ k
bit_or-lt zero b k p q = rw bit_or-bitwise q
bit_or-lt (suc a) b zero p q = absurd (omega arith)
bit_or-lt (suc a) b (suc k) p q = omega (
  arith,
  pow-suc 2 k,
  bit_or_step (suc a) b,
  bit_or-lt (suc a / 2) (b / 2) k (omega (arith, pow-suc 2 k)) (omega (arith, pow-suc 2 k)),
)

pub bit_xor-lt : (a b k : ℕ) → a < 2 ^ k → b < 2 ^ k → bit_xor a b < 2 ^ k
bit_xor-lt zero b k p q = rw bit_xor-bitwise q
bit_xor-lt (suc a) b zero p q = absurd (omega arith)
bit_xor-lt (suc a) b (suc k) p q = omega (
  arith,
  pow-suc 2 k,
  bit_xor_step (suc a) b,
  bit_xor-lt (suc a / 2) (b / 2) k (omega (arith, pow-suc 2 k)) (omega (arith, pow-suc 2 k)),
)

pub bit_and-le : (a b : ℕ) (n : ℕ) → a ≤ n → bit_and a b ≤ a
bit_and-le zero b n h = rw bit_and-bitwise (omega arith)
bit_and-le (suc a) b zero h = absurd (omega arith)
bit_and-le (suc a) b (suc n) h =
    omega (arith, bit_and_step (suc a) b, bit_and-le (suc a / 2) (b / 2) n (omega arith))

pub bit_and-lt : (a b k : ℕ) → a < k → bit_and a b < k
bit_and-lt a b k h = omega (arith, bit_and-le a b a (le_refl _))

scale-eq : (a k : ℕ) → scale a k ≡ a * 2 ^ k
scale-eq a zero = omega arith
scale-eq a (suc k) = omega (arith, scale-eq a k, ap (λ (t : ℕ). a * t) (pow-suc 2 k))

-- The laws again, over `* 2 ^ k`.
pub bit_or-mul : (a b k : ℕ) → b < 2 ^ k → bit_or (a * 2 ^ k) b ≡ a * 2 ^ k + b
bit_or-mul a b k h = rw (← scale-eq a k) (bit_or-scale a b k h)

pub bit_or_low-mul : (a b k : ℕ) → b < 2 ^ k → bit_or b (a * 2 ^ k) ≡ a * 2 ^ k + b
bit_or_low-mul a b k h = rw (← scale-eq a k) (bit_or_low-scale a b k h)

pub bit_and-mul : (a m k : ℕ) → bit_and a (m * 2 ^ k) ≡ bit_and (high a k) m * 2 ^ k
bit_and-mul a m k = rw (← scale-eq m k, ← scale-eq (bit_and (high a k) m) k) (bit_and-scale a m k)

-- The masks of the program.
pub bit_and-one : (a : ℕ) → bit_and a 1 ≡ a % 2
bit_and-one a = omega (arith, bit_and-ones a 1)

pub bit_and-byte : (a : ℕ) → bit_and a 0xFF ≡ a % 0x100
bit_and-byte a = omega (arith, bit_and-ones a 8)

pub bit_and-word : (a : ℕ) → bit_and a 0xFFFF ≡ a % 0x1_0000
bit_and-word a = omega (arith, bit_and-ones a 16)

pub bit_and-high_byte : (a : ℕ) → bit_and a 0xFF00 ≡ a / 0x100 % 0x100 * 0x100
bit_and-high_byte a = omega (arith, bit_and-mul a 0xFF 8, bit_and-byte (high a 8))

-- A mask of one bit.
pub bit_and-pow : (a k : ℕ) → bit_and a (2 ^ k) ≡ bit a k * 2 ^ k
bit_and-pow a k = omega (
  arith,
  rw (one-mul) at (bit_and-mul a 1 k),
  ap (λ (t : ℕ). t * 2 ^ k) (bit_and-one (high a k)),
  ap (λ (t : ℕ). t * 2 ^ k) (bit-high a k),
)
  where
    one-mul : 1 * 2 ^ k ≡ 2 ^ k
    one-mul = omega arith
