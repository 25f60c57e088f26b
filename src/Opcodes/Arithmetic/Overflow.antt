-- ===== src/Opcodes/Arithmetic/Overflow.antt =====
-- Carry, half carry and signed overflow of sums and differences: the bit tests of the flag groups
-- against plain arithmetic.
use huxley.Base.{ℕ, zero, suc, ◌+◌, ◌/◌, ◌%◌, ◌<◌, ◌≡◌, ◌∙◌, arith}
use huxley.Base.{bit_and, bit_xor, ◌||◌, Bool, is_set, to_int, if◌then◌else◌}
use huxley.Base.{sub32}
use huxley.Base.Signed.{ℤ, pos, negsuc, int8, int16, ◌+ℤ◌, ◌-ℤ◌, ltb_ℤ}
use huxley.Base.Bits.{bit, bit-bit_and, bit-bit_xor}
use huxley.Base.Masks.{mask_test}
use huxley.Opcodes.Helpers.{top_bit}

-- One more than the largest operand, and the signed reading of an operand.
abbrev pub modulus : ℕ → ℕ
modulus w = if is_set w then 0x1_0000 else 0x100

abbrev pub signed : ℕ → ℕ → ℤ
signed w n = if is_set w then int16 n else int8 n

-- The integer is outside the signed range of the width.
abbrev pub overflows : ℕ → ℤ → Bool
overflows w n =
    if is_set w
    then ltb_ℤ (pos 32767) n || ltb_ℤ n (negsuc 32767)
    else ltb_ℤ (pos 127) n || ltb_ℤ n (negsuc 127)

bit_7 : (n : ℕ) → bit n 7 ≡ n / 128 % 2
bit_7 n = omega arith

bit_15 : (n : ℕ) → bit n 15 ≡ n / 32768 % 2
bit_15 n = omega arith

bit_4 : (n : ℕ) → bit n 4 ≡ n / 16 % 2
bit_4 n = omega arith

pub half_carry :
    (a b r : ℕ)
    → to_int (is_set (bit_and (bit_xor (bit_xor a b) r) 0x10)) ≡ (a / 16 + b / 16 + r / 16) % 2
half_carry a b r =
    mask_test _ 4
    ∙ rw (bit-bit_xor (bit_xor a b) r 4, bit-bit_xor a b 4, bit_4 a, bit_4 b, bit_4 r) (omega arith)

pub sum_overflow :
    (w a b c : ℕ)
    → w < 2
    → a < modulus w
    → b < modulus w
    → c < 2
    → to_int
        (is_set (bit_and (bit_and (bit_xor a (a + b + c)) (bit_xor b (a + b + c))) (top_bit w)))
      ≡ to_int (overflows w (signed w a +ℤ signed w b +ℤ pos c))
sum_overflow zero a b c hw ha hb hc =
    mask_test _ 7
    ∙ rw
        (
          bit-bit_and (bit_xor a (a + b + c)) (bit_xor b (a + b + c)) 7,
          bit-bit_xor a (a + b + c) 7,
          bit-bit_xor b (a + b + c) 7,
          bit_7 a,
          bit_7 b,
          bit_7 (a + b + c),
        )
        (ground arith)
sum_overflow (suc zero) a b c hw ha hb hc =
    mask_test _ 15
    ∙ rw
        (
          bit-bit_and (bit_xor a (a + b + c)) (bit_xor b (a + b + c)) 15,
          bit-bit_xor a (a + b + c) 15,
          bit-bit_xor b (a + b + c) 15,
          bit_15 a,
          bit_15 b,
          bit_15 (a + b + c),
        )
        (ground arith)
sum_overflow (suc (suc w)) a b c hw ha hb hc = absurd (omega arith)

-- `a - b - c` as the source computes it, in `uint32_t`.
abbrev pub difference : ℕ → ℕ → ℕ → ℕ
difference a b c = sub32 (sub32 a b) c

pub difference_overflow :
    (w a b c : ℕ)
    → w < 2
    → a < modulus w
    → b < modulus w
    → c < 2
    → to_int (is_set (bit_and (bit_and (bit_xor a b) (bit_xor a (difference a b c))) (top_bit w)))
      ≡ to_int (overflows w (signed w a -ℤ signed w b -ℤ pos c))
difference_overflow zero a b c hw ha hb hc =
    mask_test _ 7
    ∙ rw
        (
          bit-bit_and (bit_xor a b) (bit_xor a (difference a b c)) 7,
          bit-bit_xor a b 7,
          bit-bit_xor a (difference a b c) 7,
          bit_7 a,
          bit_7 b,
          bit_7 (difference a b c),
        )
        (ground arith)
difference_overflow (suc zero) a b c hw ha hb hc =
    mask_test _ 15
    ∙ rw
        (
          bit-bit_and (bit_xor a b) (bit_xor a (difference a b c)) 15,
          bit-bit_xor a b 15,
          bit-bit_xor a (difference a b c) 15,
          bit_15 a,
          bit_15 b,
          bit_15 (difference a b c),
        )
        (ground arith)
difference_overflow (suc (suc w)) a b c hw ha hb hc = absurd (omega arith)
