-- ===== src/Opcodes/Arithmetic.antt =====
-- opcodes/arithmetic.h: ADD, ADC, SUB, SBB, CMP, NEG, INC, DEC, MUL, IMUL, DIV and IDIV. The
-- decimal adjustments of that header are in `Adjust`.
-- The results are `uint32_t`. DIV and IDIV return 0, or 1 for a divide error, beside the state.
pub mod Overflow
pub mod Sum
pub mod Stores
pub mod Specs
pub mod Divide
pub mod Words
use huxley.Base.{ℕ, ◌+◌, ◌*◌, ◌/◌, ◌%◌, ◌^◌, bit_and, bit_or, ltb, ◌==◌, ◌||◌, not}
use huxley.Base.{is_set, to_int, if◌then◌else◌, u8, u16, u32, sub32}
use huxley.Base.Signed.{pos, negsuc, ◌*ℤ◌, ltb_ℤ, eq_ℤ, quot, rem, int8, int16, int32}
use huxley.Base.Signed.{to_u8, to_u16, to_u32}
use huxley.State.{Emu86State, reg_ax, reg_dx, set_reg}
use huxley.State.{flag_cf, flag_pf, flag_zf, flag_sf, flag_of}
use huxley.Context.{DecodeContext}
use huxley.Access.{read_rm, write_rm, read_reg, write_reg}
use huxley.Opcodes.Helpers.{mask, sign_of, get_flag, update_flag, parity8}
use huxley.Opcodes.Helpers.{
  set_flags_szp, set_flags_add, set_flags_sub, set_flags_inc, set_flags_dec,
}

unfoldable pub read_dest : Emu86State → DecodeContext → ℕ
read_dest s d = if is_set d.direction then read_reg s d else read_rm s d

unfoldable pub read_src : Emu86State → DecodeContext → ℕ
read_src s d = if is_set d.direction then read_rm s d else read_reg s d

unfoldable pub write_dest : Emu86State → DecodeContext → ℕ → Emu86State
write_dest s d val = if is_set d.direction then write_reg s d (u16 val) else write_rm s d (u16 val)

unfoldable pub exec_add : Emu86State → DecodeContext → Emu86State
exec_add s d =
    let dest = read_dest s d in
    let src = read_src s d in
    let result = u32 (dest + src) in
    let s1 = set_flags_add s dest src result d.operand_width in
    let s2 = set_flags_szp s1 result d.operand_width in
    write_dest s2 d (bit_and result (mask d.operand_width))

unfoldable pub exec_adc : Emu86State → DecodeContext → Emu86State
exec_adc s d =
    let dest = read_dest s d in
    let src = read_src s d in
    let cf = get_flag s flag_cf in
    let result = u32 (dest + src + cf) in
    let s1 = set_flags_add s dest src result d.operand_width in
    let s2 = set_flags_szp s1 result d.operand_width in
    write_dest s2 d (bit_and result (mask d.operand_width))

unfoldable pub exec_sub : Emu86State → DecodeContext → Emu86State
exec_sub s d =
    let dest = read_dest s d in
    let src = read_src s d in
    let result = sub32 dest src in
    let s1 = set_flags_sub s dest src result d.operand_width in
    let s2 = set_flags_szp s1 result d.operand_width in
    write_dest s2 d (bit_and result (mask d.operand_width))

unfoldable pub exec_sbb : Emu86State → DecodeContext → Emu86State
exec_sbb s d =
    let dest = read_dest s d in
    let src = read_src s d in
    let cf = get_flag s flag_cf in
    let result = sub32 (sub32 dest src) cf in
    let s1 = set_flags_sub s dest src result d.operand_width in
    let s2 = set_flags_szp s1 result d.operand_width in
    write_dest s2 d (bit_and result (mask d.operand_width))

unfoldable pub exec_cmp : Emu86State → DecodeContext → Emu86State
exec_cmp s d =
    let dest = read_dest s d in
    let src = read_src s d in
    let result = sub32 dest src in
    let s1 = set_flags_sub s dest src result d.operand_width in
    set_flags_szp s1 result d.operand_width

unfoldable pub exec_neg : Emu86State → DecodeContext → Emu86State
exec_neg s d =
    let dest = read_rm s d in
    let result = sub32 0 dest in
    let s1 = set_flags_sub s 0 dest result d.operand_width in
    let s2 = set_flags_szp s1 result d.operand_width in
    write_rm s2 d (bit_and result (mask d.operand_width))

unfoldable pub exec_inc : Emu86State → DecodeContext → Emu86State
exec_inc s d =
    let dest = read_rm s d in
    let result = u32 (dest + 1) in
    let s1 = set_flags_inc s dest result d.operand_width in
    write_rm s1 d (bit_and result (mask d.operand_width))

unfoldable pub exec_dec : Emu86State → DecodeContext → Emu86State
exec_dec s d =
    let dest = read_rm s d in
    let result = sub32 dest 1 in
    let s1 = set_flags_dec s dest result d.operand_width in
    write_rm s1 d (bit_and result (mask d.operand_width))

-- The flags that MUL and IMUL set: CF and OF from `carry`, ZF from the whole product, SF and PF
-- from its low half.
abbrev product_flags : Emu86State → ℕ → ℕ → ℕ → ℕ → Emu86State
product_flags s carry product half width =
    let s1 = update_flag s flag_cf carry in
    let s2 = update_flag s1 flag_of carry in
    let s3 = update_flag s2 flag_zf (to_int (product == 0)) in
    let s4 = update_flag s3 flag_sf (sign_of half width) in
    update_flag s4 flag_pf (parity8 (u8 product))

unfoldable pub exec_mul : Emu86State → DecodeContext → Emu86State
exec_mul s d =
    let src = read_rm s d in
    if is_set d.operand_width
    then (let result = u32 (s.regs reg_ax * src) in
        let s1 = set_reg s reg_ax (u16 result) in
        let s2 = set_reg s1 reg_dx (u16 (result / 2 ^ 16)) in
        product_flags s2 (to_int (is_set (s2.regs reg_dx))) result (u16 result) 1)
    else (let result = u16 (u8 (s.regs reg_ax) * u8 src) in
        let s1 = set_reg s reg_ax result in
        product_flags s1 (to_int (is_set (result / 2 ^ 8))) result (u8 result) 0)

unfoldable pub exec_imul : Emu86State → DecodeContext → Emu86State
exec_imul s d =
    let src = read_rm s d in
    if is_set d.operand_width
    then (let result = int16 (s.regs reg_ax) *ℤ int16 (u16 src) in
        let bits = to_u32 result in
        let s1 = set_reg s reg_ax (u16 bits) in
        let s2 = set_reg s1 reg_dx (u16 (bits / 2 ^ 16)) in
        let fits = eq_ℤ result (int16 (s2.regs reg_ax)) in
        product_flags s2 (to_int (not fits)) bits (u16 bits) 1)
    else (let result = int8 (u8 (s.regs reg_ax)) *ℤ int8 (u8 src) in
        let bits = to_u16 result in
        let s1 = set_reg s reg_ax bits in
        let fits = eq_ℤ result (int8 (u8 (s1.regs reg_ax))) in
        product_flags s1 (to_int (not fits)) bits (u8 bits) 0)

unfoldable pub exec_div : Emu86State → DecodeContext → ℕ × Emu86State
exec_div s d =
    let divisor = read_rm s d in
    let dividend32 = bit_or (u32 (s.regs reg_dx * 2 ^ 16)) (s.regs reg_ax) in
    let quotient32 = dividend32 / divisor in
    let remainder32 = dividend32 % divisor in
    let dividend16 = s.regs reg_ax in
    let quotient16 = dividend16 / u8 divisor in
    let remainder16 = dividend16 % u8 divisor in
    if divisor == 0
    then (1, s)
    else if is_set d.operand_width
    then (if ltb 0xFFFF quotient32
        then (1, s)
        else (0, set_reg (set_reg s reg_ax (u16 quotient32)) reg_dx (u16 remainder32)))
    else if ltb 0xFF quotient16
    then (1, s)
    else (0, set_reg s reg_ax (bit_or (bit_and remainder16 0xFF * 2 ^ 8) (bit_and quotient16 0xFF)))

-- C's `/` and `%` round toward zero: `quot` and `rem`. The word quotient of -2 ^ 31 by -1 does not
-- fit an `int32_t`, which C leaves undefined; here it is the integer 2 ^ 31. The byte quotient is
-- computed in `int` and stored into an `int16_t`.
unfoldable pub exec_idiv : Emu86State → DecodeContext → ℕ × Emu86State
exec_idiv s d =
    let raw_divisor = read_rm s d in
    let divisor16 = int16 (u16 raw_divisor) in
    let dividend32 = int32 (bit_or (u32 (s.regs reg_dx * 2 ^ 16)) (s.regs reg_ax)) in
    let quotient32 = quot dividend32 divisor16 in
    let remainder32 = rem dividend32 divisor16 in
    let divisor8 = int8 (u8 raw_divisor) in
    let dividend16 = int16 (s.regs reg_ax) in
    let quotient16 = int16 (to_u16 (quot dividend16 divisor8)) in
    let remainder16 = int16 (to_u16 (rem dividend16 divisor8)) in
    if is_set d.operand_width
    then (if eq_ℤ divisor16 (pos 0)
        then (1, s)
        else if ltb_ℤ (pos 32767) quotient32 || ltb_ℤ quotient32 (negsuc 32767)
        then (1, s)
        else (0, set_reg (set_reg s reg_ax (to_u16 quotient32)) reg_dx (to_u16 remainder32)))
    else if eq_ℤ divisor8 (pos 0)
    then (1, s)
    else if ltb_ℤ (pos 127) quotient16 || ltb_ℤ quotient16 (negsuc 127)
    then (1, s)
    else (0, set_reg s reg_ax (bit_or (to_u8 remainder16 * 2 ^ 8) (to_u8 quotient16)))
