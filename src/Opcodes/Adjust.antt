-- ===== src/Opcodes/Adjust.antt =====
-- The decimal adjustments of opcodes/arithmetic.h: DAA, DAS, AAA, AAS, AAM and AAD.
pub mod Words
use huxley.Base.{ℕ, ◌+◌, ◌-◌, ◌*◌, ◌/◌, ◌%◌, ◌^◌, bit_and, bit_or, ltb, ◌==◌, ◌||◌}
use huxley.Base.{Bool, is_set, to_int, if◌then◌else◌, u8, sub16}
use huxley.State.{Emu86State, reg_ax, set_reg, flag_cf, flag_af}
use huxley.Opcodes.Helpers.{get_flag, update_flag, set_flags_szp}

-- `(al & 0x0F) > 9 || AF`
abbrev low_digit_over : Emu86State → ℕ → Bool
low_digit_over s al = ltb 9 (bit_and al 0x0F) || is_set (get_flag s flag_af)

unfoldable pub exec_daa : Emu86State → Emu86State
exec_daa s =
    let old_al = u8 (s.regs reg_ax) in
    let old_cf = get_flag s flag_cf in
    let low_over = low_digit_over s old_al in
    let al1 = if low_over then u8 (old_al + 6) else old_al in
    let cf1 = if low_over then to_int (is_set old_cf || ltb al1 old_al) else 0 in
    let s1 = update_flag s flag_af (to_int low_over) in
    let high_over = ltb 0x99 old_al || is_set old_cf in
    let al2 = if high_over then u8 (al1 + 0x60) else al1 in
    let cf2 = if high_over then 1 else cf1 in
    let s2 = update_flag s1 flag_cf cf2 in
    let s3 = set_reg s2 reg_ax (bit_or (bit_and (s2.regs reg_ax) 0xFF00) al2) in
    set_flags_szp s3 al2 0

unfoldable pub exec_das : Emu86State → Emu86State
exec_das s =
    let old_al = u8 (s.regs reg_ax) in
    let old_cf = get_flag s flag_cf in
    let low_over = low_digit_over s old_al in
    let al1 = if low_over then u8 (old_al + 0x100 - 6) else old_al in
    let cf1 = if low_over then to_int (is_set old_cf || ltb old_al al1) else 0 in
    let s1 = update_flag s flag_af (to_int low_over) in
    let high_over = ltb 0x99 old_al || is_set old_cf in
    let al2 = if high_over then u8 (al1 + 0x100 - 0x60) else al1 in
    let cf2 = if high_over then 1 else cf1 in
    let s2 = update_flag s1 flag_cf cf2 in
    let s3 = set_reg s2 reg_ax (bit_or (bit_and (s2.regs reg_ax) 0xFF00) al2) in
    set_flags_szp s3 al2 0

unfoldable pub exec_aaa : Emu86State → Emu86State
exec_aaa s =
    let al = u8 (s.regs reg_ax) in
    let over = low_digit_over s al in
    let s1 = if over then set_reg s reg_ax (s.regs reg_ax + 0x106) else s in
    let s2 = update_flag s1 flag_af (to_int over) in
    let s3 = update_flag s2 flag_cf (to_int over) in
    set_reg s3 reg_ax (bit_and (s3.regs reg_ax) 0xFF0F)

unfoldable pub exec_aas : Emu86State → Emu86State
exec_aas s =
    let al = u8 (s.regs reg_ax) in
    let over = low_digit_over s al in
    let s1 = if over then set_reg s reg_ax (sub16 (s.regs reg_ax) 0x106) else s in
    let s2 = update_flag s1 flag_af (to_int over) in
    let s3 = update_flag s2 flag_cf (to_int over) in
    set_reg s3 reg_ax (bit_and (s3.regs reg_ax) 0xFF0F)

unfoldable pub exec_aam : Emu86State → ℕ → Emu86State
exec_aam s base =
    let al = u8 (s.regs reg_ax) in
    let ah = al / base in
    let rest = al % base in
    if base == 0 then s else set_flags_szp (set_reg s reg_ax (bit_or (ah * 2 ^ 8) rest)) rest 0

unfoldable pub exec_aad : Emu86State → ℕ → Emu86State
exec_aad s base =
    let al = u8 (s.regs reg_ax) in
    let ah = u8 (s.regs reg_ax / 2 ^ 8) in
    let sum = u8 (ah * base + al) in set_flags_szp (set_reg s reg_ax sum) sum 0
