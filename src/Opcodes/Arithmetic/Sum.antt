-- ===== src/Opcodes/Arithmetic/Sum.antt =====
-- The flags that an addition leaves, as arithmetic on its operands.
use huxley.Base.{ℕ, zero, suc, ◌+◌, ◌%◌, ◌^◌, ◌<◌, ◌≤◌, ◌≡◌, ◌∙◌, arith}
use huxley.Base.{bit_and, ◌==◌, ltb, leb, to_int, u16}
use huxley.Base.Signed.{pos, ◌+ℤ◌, ◌-ℤ◌}
use huxley.Base.Bits.{bit_and-byte, bit_and-word}
use huxley.State.{Emu86State, flag_cf, flag_pf, flag_af, flag_zf, flag_sf, flag_of}
use huxley.Opcodes.Helpers.{mask, top_bit, get_flag, set_flags_szp, set_flags_add}
use huxley.Opcodes.Helpers.{set_flags_sub}
use huxley.Opcodes.Helpers.Groups.{get_flag-set_flags_szp, get_flag-set_flags_add}
use huxley.Opcodes.Helpers.Groups.{get_flag-set_flags_sub}
use huxley.Opcodes.Helpers.Parity.{is_even, parity8_lem, sign_of_lem}
use huxley.Opcodes.Arithmetic.Overflow.{modulus, signed, overflows, half_carry, sum_overflow}
use huxley.Opcodes.Arithmetic.Overflow.{difference, difference_overflow}

-- SF, ZF and PF of a result that is already reduced to the operand width.
pub record ResultFlags (w n : ℕ) (s : Emu86State) : Type 0 where
  pub sign : get_flag s flag_sf ≡ to_int (leb (top_bit w) n)
  pub zeroes : get_flag s flag_zf ≡ to_int (n == 0)
  pub parity : get_flag s flag_pf ≡ to_int (is_even (n % 0x100))

masked_lem : (result w : ℕ) → w < 2 → u16 (bit_and result (mask w)) ≡ result % modulus w
masked_lem result zero h = omega (arith, bit_and-byte result)
masked_lem result (suc zero) h = omega (arith, bit_and-word result)
masked_lem result (suc (suc w)) h = absurd (omega arith)

pub set_flags_szp-ResultFlags :
    (s : Emu86State) (result w : ℕ)
    → w < 2
    → ResultFlags w (result % modulus w) (set_flags_szp s result w)
set_flags_szp-ResultFlags s result w h =
    let n = result % modulus w in
    let below : n ≤ mask w = ground arith in
    record {
      sign =
          get_flag-set_flags_szp s 7 (omega arith) result w
          ∙ rw (masked_lem result w h, sign_of_lem n w h below) (ground arith);
      zeroes = get_flag-set_flags_szp s 6 (omega arith) result w ∙ rw (masked_lem result w h);
      parity =
          get_flag-set_flags_szp s 2 (omega arith) result w
          ∙ rw (masked_lem result w h, parity8_lem (n % 0x100) (omega arith)) (ground arith);
    }

-- All nine flags of `s'` after adding `a`, `b` and the carry `c` in state `s`.
pub record SumFlags (w a b c : ℕ) (s s' : Emu86State) : Type 0 where
  pub carry : get_flag s' flag_cf ≡ to_int (leb (modulus w) (a + b + c))
  pub half : get_flag s' flag_af ≡ to_int (leb 16 (a % 16 + b % 16 + c))
  pub overflow : get_flag s' flag_of ≡ to_int (overflows w (signed w a +ℤ signed w b +ℤ pos c))
  pub result : ResultFlags w ((a + b + c) % modulus w) s'
  pub others : (j : ℕ) → 8 ≤ j → j < 11 → get_flag s' (2 ^ j) ≡ get_flag s (2 ^ j)

-- All nine flags after subtracting `b` and the borrow `c` from `a`.
pub record DifferenceFlags (w a b c : ℕ) (s s' : Emu86State) : Type 0 where
  pub borrow : get_flag s' flag_cf ≡ to_int (ltb a (b + c))
  pub half : get_flag s' flag_af ≡ to_int (ltb (a % 16) (b % 16 + c))
  pub overflow : get_flag s' flag_of ≡ to_int (overflows w (signed w a -ℤ signed w b -ℤ pos c))
  pub result : ResultFlags w (difference a b c % modulus w) s'
  pub others : (j : ℕ) → 8 ≤ j → j < 11 → get_flag s' (2 ^ j) ≡ get_flag s (2 ^ j)

module _ (s : Emu86State) (w a b c : ℕ) (hw : w < 2) (ha : a < modulus w) (hb : b < modulus w)
    (hc : c < 2) where
  pub add-SumFlags :
      SumFlags w a b c s (set_flags_szp (set_flags_add s a b (a + b + c) w) (a + b + c) w)
  add-SumFlags =
      let s1 = set_flags_add s a b (a + b + c) w in
      record {
        carry =
            get_flag-set_flags_szp s1 0 (omega arith) (a + b + c) w
            ∙ get_flag-set_flags_add s 0 (omega arith) a b (a + b + c) w
            ∙ ground arith;
        half =
            get_flag-set_flags_szp s1 4 (omega arith) (a + b + c) w
            ∙ get_flag-set_flags_add s 4 (omega arith) a b (a + b + c) w
            ∙ half_carry a b (a + b + c)
            ∙ ground arith;
        overflow =
            get_flag-set_flags_szp s1 11 (omega arith) (a + b + c) w
            ∙ get_flag-set_flags_add s 11 (omega arith) a b (a + b + c) w
            ∙ sum_overflow w a b c hw ha hb hc;
        result = set_flags_szp-ResultFlags s1 (a + b + c) w hw;
        others = λ j h k.
            get_flag-set_flags_szp s1 j (omega arith) (a + b + c) w
            ∙ rw (get_flag-set_flags_add s j (omega arith) a b (a + b + c) w) (ground arith);
      }

  pub sub-DifferenceFlags :
      DifferenceFlags w a b c s
        (set_flags_szp (set_flags_sub s a b (difference a b c) w) (difference a b c) w)
  sub-DifferenceFlags =
      let r = difference a b c in
      let s1 = set_flags_sub s a b r w in
      record {
        borrow =
            get_flag-set_flags_szp s1 0 (omega arith) r w
            ∙ get_flag-set_flags_sub s 0 (omega arith) a b r w
            ∙ ground arith;
        half =
            get_flag-set_flags_szp s1 4 (omega arith) r w
            ∙ get_flag-set_flags_sub s 4 (omega arith) a b r w
            ∙ half_carry a b r
            ∙ ground arith;
        overflow =
            get_flag-set_flags_szp s1 11 (omega arith) r w
            ∙ get_flag-set_flags_sub s 11 (omega arith) a b r w
            ∙ difference_overflow w a b c hw ha hb hc;
        result = set_flags_szp-ResultFlags s1 r w hw;
        others = λ j h k.
            get_flag-set_flags_szp s1 j (omega arith) r w
            ∙ rw (get_flag-set_flags_sub s j (omega arith) a b r w) (ground arith);
      }
