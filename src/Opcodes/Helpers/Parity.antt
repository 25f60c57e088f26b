-- ===== src/Opcodes/Helpers/Parity.antt =====
-- `parity8` and `sign_of` against plain arithmetic.
use huxley.Base.{ℕ, zero, suc, ◌+◌, ◌%◌, ◌<◌, ◌≤◌, ◌≡◌, refl, arith, ◌==◌, leb, Bool, true}
use huxley.Base.{◌&&◌, to_int, ==-eq}
use huxley.Base.Bits.{bit}
use huxley.Base.Masks.{mask_test}
use huxley.Opcodes.Helpers.{parity8, sign_of, mask, top_bit}

-- How many of the low eight bits are 1.
abbrev pub ones_count : ℕ → ℕ
ones_count n = bit n 0 + bit n 1 + bit n 2 + bit n 3 + bit n 4 + bit n 5 + bit n 6 + bit n 7

abbrev pub is_even : ℕ → Bool
is_even n = ones_count n % 2 == 0

all_below : ℕ → (ℕ → Bool) → Bool
all_below zero p = true
all_below (suc n) p = p n && all_below n p

all_below_holds : (n : ℕ) (p : ℕ → Bool) (x : ℕ) → all_below n p ≡ true → x < n → p x ≡ true
unfolding all_below
all_below_holds zero p x h lt = absurd (omega arith)
all_below_holds (suc n) p x h lt = ground (arith, all_below_holds n p x)

parity_table : all_below 256 (λ n. parity8 n == to_int (is_even n)) ≡ true
unfolding all_below parity8
parity_table = refl

-- On every byte `parity8` is 1 when the number of one bits is even, and 0 otherwise.
pub parity8_lem : (n : ℕ) → n < 256 → parity8 n ≡ to_int (is_even n)
parity8_lem n h = ==-eq _ _ (all_below_holds 256 _ n parity_table h)

-- The sign bit is set from the half of the range on.
pub sign_of_lem : (n w : ℕ) → w < 2 → n ≤ mask w → sign_of n w ≡ to_int (leb (top_bit w) n)
unfolding sign_of
sign_of_lem n zero hw h = ground (arith, mask_test n 7)
sign_of_lem n (suc zero) hw h = ground (arith, mask_test n 15)
sign_of_lem n (suc (suc w)) hw h = absurd (omega arith)
