-- ===== src/Opcodes/Arithmetic/Specs.antt =====
-- ADD, ADC, SUB, SBB and CMP as arithmetic: what they store and the flags that they leave.
use huxley.Base.{ℕ, zero, suc, ◌+◌, ◌%◌, ◌<◌, ◌≡◌, ◌∙◌, sym, ap, arith}
use mathlib.Core.Path.{subst}
use huxley.Base.{bit_and, u16, u32, sub32}
use huxley.Base.Bits.{bit_and-byte, bit_and-word}
use huxley.State.{Emu86State, flag_cf}
use huxley.State.Words.{IsWords}
use huxley.Context.{DecodeContext}
use huxley.Access.Laws.{read_rm-lt, read_reg-lt, flags-write_rm, flags-write_reg}
use huxley.Opcodes.Helpers.{
  mask, get_flag, set_flag, clear_flag, set_flags_szp, set_flags_add, set_flags_sub, update_flag,
}
use huxley.Opcodes.Helpers.Flags.{get_flag-lt}
use huxley.Opcodes.Arithmetic.{
  read_dest, read_src, write_dest, exec_add, exec_adc, exec_sub, exec_sbb,
}
use huxley.Opcodes.Arithmetic.{exec_cmp}
use huxley.Opcodes.Arithmetic.Stores.{Stored, write_dest-Stored, Stored-flags}
use huxley.Opcodes.Arithmetic.Overflow.{modulus, difference}
use huxley.Opcodes.Arithmetic.Sum.{SumFlags, DifferenceFlags, ResultFlags, add-SumFlags}
use huxley.Opcodes.Arithmetic.Sum.{sub-DifferenceFlags}

-- A state with the FLAGS register of another.
abbrev pub with_flags : Emu86State → Emu86State → Emu86State
with_flags s t = record s { flags = t.flags }

pub read_dest-lt :
    (s : Emu86State) (d : DecodeContext) → IsWords s → read_dest s d < modulus d.operand_width
unfolding read_dest
read_dest-lt s d v = ground (arith, read_reg-lt s v d, read_rm-lt s v d)

pub read_src-lt :
    (s : Emu86State) (d : DecodeContext) → IsWords s → read_src s d < modulus d.operand_width
unfolding read_src
read_src-lt s d v = ground (arith, read_reg-lt s v d, read_rm-lt s v d)

flags-write_dest : (s : Emu86State) (d : DecodeContext) (n : ℕ) → (write_dest s d n).flags ≡ s.flags
unfolding write_dest
flags-write_dest s d n = ground (arith, flags-write_rm s d (u16 n), flags-write_reg s d (u16 n))

get_flag-write_dest :
    (s : Emu86State) (d : DecodeContext) (n f : ℕ) → get_flag (write_dest s d n) f ≡ get_flag s f
unfolding get_flag
get_flag-write_dest s d n f = rw (flags-write_dest s d n)

-- The flag groups change nothing but the FLAGS register.
set_flags_szp_frame :
    (s : Emu86State) (r w : ℕ) → with_flags s (set_flags_szp s r w) ≡ set_flags_szp s r w
unfolding set_flags_szp update_flag set_flag clear_flag
set_flags_szp_frame s r w = ground arith

set_flags_add_frame :
    (s : Emu86State) (a b r w : ℕ)
    → with_flags s (set_flags_add s a b r w) ≡ set_flags_add s a b r w
unfolding set_flags_add update_flag set_flag clear_flag
set_flags_add_frame s a b r w = ground arith

set_flags_sub_frame :
    (s : Emu86State) (a b r w : ℕ)
    → with_flags s (set_flags_sub s a b r w) ≡ set_flags_sub s a b r w
unfolding set_flags_sub update_flag set_flag clear_flag
set_flags_sub_frame s a b r w = ground arith

add_frame :
    (s : Emu86State) (a b r w : ℕ)
    → with_flags s (set_flags_szp (set_flags_add s a b r w) r w)
      ≡ set_flags_szp (set_flags_add s a b r w) r w
add_frame s a b r w =
    let s1 = set_flags_add s a b r w in
    ap (λ t. with_flags t (set_flags_szp s1 r w)) (set_flags_add_frame s a b r w)
    ∙ set_flags_szp_frame s1 r w

sub_frame :
    (s : Emu86State) (a b r w : ℕ)
    → with_flags s (set_flags_szp (set_flags_sub s a b r w) r w)
      ≡ set_flags_szp (set_flags_sub s a b r w) r w
sub_frame s a b r w =
    let s1 = set_flags_sub s a b r w in
    ap (λ t. with_flags t (set_flags_szp s1 r w)) (set_flags_sub_frame s a b r w)
    ∙ set_flags_szp_frame s1 r w

bit_and-mask : (r w : ℕ) → w < 2 → bit_and r (mask w) ≡ r % modulus w
bit_and-mask r zero h = bit_and-byte r
bit_and-mask r (suc zero) h = bit_and-word r
bit_and-mask r (suc (suc w)) h = absurd (omega arith)

get_flag-flags : (s t : Emu86State) (f : ℕ) → s.flags ≡ t.flags → get_flag s f ≡ get_flag t f
unfolding get_flag
get_flag-flags s t f e = rw e

ResultFlags-flags :
    {w n : ℕ} (s t : Emu86State) → s.flags ≡ t.flags → ResultFlags w n t → ResultFlags w n s
ResultFlags-flags s t e r = record {
  sign = get_flag-flags s t _ e ∙ r.sign;
  zeroes = get_flag-flags s t _ e ∙ r.zeroes;
  parity = get_flag-flags s t _ e ∙ r.parity;
}

SumFlags-flags :
    {w a b c : ℕ} {s0 : Emu86State} (s t : Emu86State)
    → s.flags ≡ t.flags
    → SumFlags w a b c s0 t
    → SumFlags w a b c s0 s
SumFlags-flags s t e r = record {
  carry = get_flag-flags s t _ e ∙ r.carry;
  half = get_flag-flags s t _ e ∙ r.half;
  overflow = get_flag-flags s t _ e ∙ r.overflow;
  result = ResultFlags-flags s t e r.result;
  others = λ j h k. get_flag-flags s t _ e ∙ r.others j h k;
}

DifferenceFlags-flags :
    {w a b c : ℕ} {s0 : Emu86State} (s t : Emu86State)
    → s.flags ≡ t.flags
    → DifferenceFlags w a b c s0 t
    → DifferenceFlags w a b c s0 s
DifferenceFlags-flags s t e r = record {
  borrow = get_flag-flags s t _ e ∙ r.borrow;
  half = get_flag-flags s t _ e ∙ r.half;
  overflow = get_flag-flags s t _ e ∙ r.overflow;
  result = ResultFlags-flags s t e r.result;
  others = λ j h k. get_flag-flags s t _ e ∙ r.others j h k;
}

-- `s'` is `s` with the flags of `a + b + c` and, in the destination operand, that sum; the other
-- registers, the other cells of memory and all other fields are those of `s`.
pub record Adds (d : DecodeContext) (a b c : ℕ) (s s' : Emu86State) : Type 0 where
  pub flags : SumFlags d.operand_width a b c s s'
  pub store : Stored d ((a + b + c) % modulus d.operand_width) s s'

-- `s'` is `s` with the flags of `a - b - c` and, in the destination operand, that difference; the
-- other registers, the other cells of memory and all other fields are those of `s`.
pub record Subtracts (d : DecodeContext) (a b c : ℕ) (s s' : Emu86State) : Type 0 where
  pub flags : DifferenceFlags d.operand_width a b c s s'
  pub store : Stored d (difference a b c % modulus d.operand_width) s s'

-- Storing `r` over flags computed in `t`, which is `s` but for its flags.
stores :
    (s t : Emu86State) (d : DecodeContext) (r : ℕ)
    → ((i : ℕ) → s.regs i < 0x1_0000)
    → d.operand_width < 2
    → with_flags s t ≡ t
    → Stored d (r % modulus d.operand_width) s (write_dest t d (bit_and r (mask d.operand_width)))
stores s t d r v hw e = rw (bit_and-mask r d.operand_width hw) (
    subst
      (λ u. Stored d (r % modulus d.operand_width) s (write_dest u d (r % modulus d.operand_width)))
      e
      (Stored-flags
        (write_dest-Stored (with_flags s t) d (r % modulus d.operand_width) v (ground arith))))

module _ (s : Emu86State) (d : DecodeContext) (v : IsWords s) (hw : d.operand_width < 2) where
  sum_lem :
      (c : ℕ) → c < 2 → u32 (read_dest s d + read_src s d + c) ≡ read_dest s d + read_src s d + c
  sum_lem c h = ground (arith, read_dest-lt s d v, read_src-lt s d v)

  adds :
      (c : ℕ)
      → c < 2
      → let a = read_dest s d in
        let b = read_src s d in
        let r = a + b + c in
        let s2 = set_flags_szp (set_flags_add s a b r d.operand_width) r d.operand_width in
        Adds d a b c s (write_dest s2 d (bit_and r (mask d.operand_width)))
  adds c h =
      let a = read_dest s d in
      let b = read_src s d in
      let r = a + b + c in
      let w = d.operand_width in
      let s2 = set_flags_szp (set_flags_add s a b r w) r w in
      record {
        flags =
            SumFlags-flags (write_dest s2 d (bit_and r (mask w))) s2 (flags-write_dest s2 d _)
              (add-SumFlags s w a b c hw (read_dest-lt s d v) (read_src-lt s d v) h);
        store = stores s s2 d r v.regs hw (add_frame s a b r w);
      }

  subtracts :
      (c : ℕ)
      → c < 2
      → let a = read_dest s d in
        let b = read_src s d in
        let r = difference a b c in
        let s2 = set_flags_szp (set_flags_sub s a b r d.operand_width) r d.operand_width in
        Subtracts d a b c s (write_dest s2 d (bit_and r (mask d.operand_width)))
  subtracts c h =
      let a = read_dest s d in
      let b = read_src s d in
      let r = difference a b c in
      let w = d.operand_width in
      let s2 = set_flags_szp (set_flags_sub s a b r w) r w in
      record {
        flags =
            DifferenceFlags-flags (write_dest s2 d (bit_and r (mask w))) s2
              (flags-write_dest s2 d _)
              (sub-DifferenceFlags s w a b c hw (read_dest-lt s d v) (read_src-lt s d v) h);
        store = stores s s2 d r v.regs hw (sub_frame s a b r w);
      }

  sub32_zero : sub32 (sub32 (read_dest s d) (read_src s d)) 0 ≡ sub32 (read_dest s d) (read_src s d)
  sub32_zero = ground (arith, read_dest-lt s d v, read_src-lt s d v)

  sum_zero : u32 (read_dest s d + read_src s d) ≡ read_dest s d + read_src s d + 0
  sum_zero = ground (arith, read_dest-lt s d v, read_src-lt s d v)

  -- For a well-formed state and a width of 0 or 1, ADD stores the sum of the two operands in the
  -- destination and leaves the flags of that sum; nothing else changes.
  pub exec_add-Adds : Adds d (read_dest s d) (read_src s d) 0 s (exec_add s d)
  unfolding exec_add
  exec_add-Adds = rw sum_zero (adds 0 (omega arith))

  -- For a well-formed state and a width of 0 or 1, ADC stores the sum of the two operands and the
  -- carry flag in the destination and leaves the flags of that sum; nothing else changes.
  pub exec_adc-Adds : Adds d (read_dest s d) (read_src s d) (get_flag s flag_cf) s (exec_adc s d)
  unfolding exec_adc
  exec_adc-Adds =
      rw (sum_lem (get_flag s flag_cf) (get_flag-lt s flag_cf))
        (adds (get_flag s flag_cf) (get_flag-lt s flag_cf))

  -- For a well-formed state and a width of 0 or 1, SUB stores the difference of the two operands in
  -- the destination and leaves the flags of that difference; nothing else changes.
  pub exec_sub-Subtracts : Subtracts d (read_dest s d) (read_src s d) 0 s (exec_sub s d)
  unfolding exec_sub
  exec_sub-Subtracts = rw (sym sub32_zero) (subtracts 0 (omega arith))

  -- For a well-formed state and a width of 0 or 1, SBB stores the difference of the operands less
  -- the carry flag in the destination and leaves the flags of it; nothing else changes.
  pub exec_sbb-Subtracts :
      Subtracts d (read_dest s d) (read_src s d) (get_flag s flag_cf) s (exec_sbb s d)
  unfolding exec_sbb
  exec_sbb-Subtracts = subtracts (get_flag s flag_cf) (get_flag-lt s flag_cf)

  -- For a well-formed state and a width of 0 or 1, CMP leaves the flags of the difference of the two
  -- operands and changes nothing but the FLAGS register.
  pub exec_cmp_lem :
      DifferenceFlags d.operand_width (read_dest s d) (read_src s d) 0 s (exec_cmp s d)
      × with_flags s (exec_cmp s d) ≡ exec_cmp s d
  unfolding exec_cmp
  exec_cmp_lem =
      let a = read_dest s d in
      let b = read_src s d in
      let w = d.operand_width in
      rw (sym sub32_zero) (
        sub-DifferenceFlags s w a b 0 hw (read_dest-lt s d v) (read_src-lt s d v) (omega arith),
        sub_frame s a b (difference a b 0) w,
      )
