-- ===== src/Base/Masks.antt =====
-- Bits of masks, of complements and of truncated numbers.
use Prim.Native.Nat.{ℕ, zero, suc, ◌+◌, ◌-◌, ◌*◌, ◌/◌, ◌^◌, ◌<◌, bit_and}
use mathlib.Core.Path.{◌≡◌, refl, ◌∙◌}
use native.Mathlib.Nat.{pow-suc}
use native.Mathlib.Omega.{arith}
use huxley.Base.Tests.{◌==◌, is_set, to_int}
use huxley.Base.Words.{u16}
use huxley.Base.Bits.{bit, ones, bit-lt, bit-bit_and, bit_and-pow, bit_and-word}

pub pow_pos : (k : ℕ) → 0 < 2 ^ k
pow_pos zero = omega arith
pow_pos (suc k) = omega (arith, pow-suc 2 k, pow_pos k)

pub pow-lt : (k n : ℕ) → k < n → 2 ^ k < 2 ^ n
pow-lt k zero h = absurd (omega arith)
pow-lt zero (suc n) h = omega (arith, pow-suc 2 n, pow_pos n)
pow-lt (suc k) (suc n) h = omega (arith, pow-suc 2 n, pow-suc 2 k, pow-lt k n (omega arith))

zero-bit : (j : ℕ) → bit 0 j ≡ 0
zero-bit zero = refl
zero-bit (suc j) = zero-bit j

-- Bit `j` of the mask of bit `k`.
pub bit-pow : (k j : ℕ) → bit (2 ^ k) j ≡ to_int (j == k)
bit-pow zero zero = refl
bit-pow zero (suc j) = zero-bit j ∙ ground arith
bit-pow (suc k) zero = rw pow-suc (grind arith)
bit-pow (suc k) (suc j) =
    let half : 2 ^ suc k / 2 ≡ 2 ^ k = omega (arith, pow-suc 2 k) in
    rw half (bit-pow k j ∙ ground arith)

pub ones-pow : (n : ℕ) → ones n + 1 ≡ 2 ^ n
ones-pow zero = refl
ones-pow (suc n) = omega (arith, ones-pow n, pow-suc 2 n)

-- The complement in `n` bits.
pub bit-ones_sub : (n a j : ℕ) → a < 2 ^ n → j < n → bit (ones n - a) j ≡ 1 - bit a j
bit-ones_sub zero a j h k = absurd (omega arith)
bit-ones_sub (suc n) a zero h k = omega (arith, ones-pow n, pow-suc 2 n)
bit-ones_sub (suc n) a (suc j) h k =
    let half : (ones n * 2 + 1 - a) / 2 ≡ ones n - a / 2 = omega (arith, ones-pow n, pow-suc 2 n) in
    rw half (bit-ones_sub n (a / 2) j (omega (arith, pow-suc 2 n)) (omega arith))

pub bit-u16 : (a j : ℕ) → j < 16 → bit (u16 a) j ≡ bit a j
bit-u16 a j h =
    let all_ones = bit-ones_sub 16 0 j (omega arith) h in
    rw (← bit_and-word a, bit-bit_and a 0xFFFF j) (omega (arith, all_ones, zero-bit j, bit-lt a j))

-- The test `x & 2 ^ k` is bit `k`.
pub mask_test : (a k : ℕ) → to_int (is_set (bit_and a (2 ^ k))) ≡ bit a k
mask_test a k = rw (bit_and-pow a k) (ground (arith, bit-lt a k, pow_pos k))
