-- ===== src/Run/Cases.antt =====
-- The cases of `execute_instruction` in run.c that are more than one call.
pub mod Words
use huxley.Base.{ℕ, ◌+◌, ◌-◌, ◌*◌, ◌/◌, ◌^◌, bit_and, bit_or, bit_xor, ltb, leb, ◌==◌, not}
use huxley.Base.{◌&&◌, ◌||◌, is_set, to_int, if◌then◌else◌, u8, u16, u32, sub32}
use huxley.Base.Signed.{sext8_16}
use huxley.State.{Emu86State, reg_ax, reg_cx, reg_dx, set_reg, set_ip, set_mem, set_port}
use huxley.State.{flag_cf, flag_pf, flag_af, flag_zf, flag_sf, flag_tf, flag_if, flag_df, flag_of}
use huxley.Context.{DecodeContext}
use huxley.Access.{read_rm, write_reg16, read_table_sreg}
use huxley.Decode.{Emu86Tables, table_base_inst_size, table_i_w_size}
use huxley.Opcodes.Helpers.{mask, update_flag, set_flags_logic}
use huxley.Opcodes.Arithmetic.{
  exec_neg, exec_inc, exec_dec, exec_mul, exec_imul, exec_div, exec_idiv,
}
use huxley.Opcodes.Adjust.{exec_aam}
use huxley.Opcodes.Logic.{exec_not}
use huxley.Opcodes.Shift.{exec_shift_rotate}
use huxley.Opcodes.Transfer.{exec_mov_reg_imm, exec_mov_sreg_rm, exec_mov_rm_sreg, exec_pop_rm}
use huxley.Opcodes.Transfer.{exec_push_rm, with_al}
use huxley.Opcodes.Control.{
  Executed, executed, jumped, pc_interrupt, exec_call_rm, exec_call_far_mem,
}
use huxley.Opcodes.Control.{exec_jmp_rm, exec_jmp_far_mem, exec_jmp_short, exec_call_near}
use huxley.Opcodes.Control.{
  exec_jmp_near, exec_jmp_far, exec_loop, exec_loopz, exec_loopnz, exec_jcxz,
}
use huxley.Opcodes.Control.{exec_iret, exec_retf, exec_retf_imm, exec_ret_near, exec_ret_near_imm}
use huxley.Opcodes.FlagsIo.{in_ax, exec_in_ax_dx, exec_segment_override, exec_rep_prefix}
use huxley.Run.Alu.{exec_alu_imm}

-- `s->ip += d->inst_length; pc_interrupt(s, 0); d->ip_changed = 1;`
unfoldable pub divide_error : Emu86State → DecodeContext → Executed
divide_error s d = jumped (pc_interrupt (set_ip s (s.ip + d.inst_length)) 0) d

-- The result of `exec_div` and `exec_idiv`: 0, or a divide error.
unfoldable pub divided : ℕ × Emu86State → DecodeContext → Executed
divided r d = if is_set r.0 then divide_error r.1 d else executed r.1 d

-- Case 1.
unfoldable pub case_mov_reg_imm : Emu86State → Emu86Tables → DecodeContext → Executed
case_mov_reg_imm s t d =
    let width = to_int (is_set (bit_and d.opcode 8)) in
    let d1 = record d {
      operand_width = width;
      inst_length = u8 (t table_base_inst_size d.opcode + t table_i_w_size d.opcode * (width + 1));
    } in
    executed (exec_mov_reg_imm s d1) d1

-- Case 2.
unfoldable pub case_inc_dec_reg : Emu86State → DecodeContext → Executed
case_inc_dec_reg s d =
    let d1 = record d { operand_width = 1; mode = 3; rm = d.reg4bit } in
    executed (if d.extra == 0 then exec_inc s d1 else exec_dec s d1) d1

-- Case 5.
unfoldable pub case_group_fe : Emu86State → DecodeContext → Executed
case_group_fe s d =
    if d.reg == 0
    then executed (exec_inc s d) d
    else if d.reg == 1
    then executed (exec_dec s d) d
    else if d.reg == 2
    then exec_call_rm s d
    else if d.reg == 3
    then exec_call_far_mem s d
    else if d.reg == 4
    then exec_jmp_rm s d
    else if d.reg == 5
    then exec_jmp_far_mem s d
    else if d.reg == 6
    then executed (exec_push_rm s d) d
    else executed s d

-- TEST r/m, imm in case 6.
unfoldable pub test_rm_imm : Emu86State → DecodeContext → Executed
test_rm_imm s d =
    let imm = bit_and (u16 d.data2) (mask d.operand_width) in
    executed (set_flags_logic s (bit_and (read_rm s d) imm) d.operand_width)
      (record d { inst_length = u8 (d.inst_length + (d.operand_width + 1)) })

-- Case 6.
unfoldable pub case_group_f6 : Emu86State → DecodeContext → Executed
case_group_f6 s d =
    if d.reg == 0
    then test_rm_imm s d
    else if d.reg == 2
    then executed (exec_not s d) d
    else if d.reg == 3
    then executed (exec_neg s d) d
    else if d.reg == 4
    then executed (exec_mul s d) d
    else if d.reg == 5
    then executed (exec_imul s d) d
    else if d.reg == 6
    then divided (exec_div s d) d
    else if d.reg == 7
    then divided (exec_idiv s d) d
    else executed s d

-- Case 7.
unfoldable pub case_alu_acc_imm : Emu86State → DecodeContext → Executed
case_alu_acc_imm s d =
    let d1 = record d { mode = 3; rm = reg_ax } in
    executed (exec_alu_imm s d1 d.extra (u16 d.data0)) d1

-- Case 8.
unfoldable pub case_alu_rm_imm : Emu86State → DecodeContext → Executed
case_alu_rm_imm s d =
    let sign_ext = is_set (bit_or d.direction (to_int (not (is_set d.operand_width)))) in
    let imm = if sign_ext then sext8_16 (bit_and d.data2 0xFF) else u16 d.data2 in
    let bytes = if sign_ext then 1 else 2 in
    let d1 = record d {
      inst_length = u8 (d.inst_length + 0x100 + bytes - (d.operand_width + 1));
    } in
    executed (exec_alu_imm s d1 d.reg imm) d1

-- LEA in case 10: the offset is the linear address less the segment's base.
unfoldable pub load_effective_address : Emu86State → Emu86Tables → DecodeContext → Emu86State
load_effective_address s t d =
    let tbase = if d.mode == 0 then 4 else 0 in
    let seg =
      if is_set s.seg_override_en
      then s.sregs s.seg_override
      else read_table_sreg s (t (tbase + 3) d.rm) in
    let s1 =
      if ltb d.mode 3 then write_reg16 s d.reg (u16 (sub32 d.rm_addr (u32 (seg * 2 ^ 4)))) else s in
    record s1 { seg_override_en = 1 }

-- Case 10.
unfoldable pub case_sreg_lea_pop : Emu86State → Emu86Tables → DecodeContext → Executed
case_sreg_lea_pop s t d =
    let d1 = record d { operand_width = 1 } in
    if not (is_set d.operand_width)
    then (if is_set d.direction
        then executed (exec_mov_sreg_rm s d1) d1
        else executed (exec_mov_rm_sreg s d1) d1)
    else if not (is_set d.direction)
    then executed (load_effective_address s t d) d
    else executed (exec_pop_rm s d) d

-- Case 12.
unfoldable pub case_shift : Emu86State → DecodeContext → Executed
case_shift s d =
    let count =
      if is_set d.extra
      then u8 (bit_and d.data1 0xFF)
      else if is_set d.direction
      then u8 (s.regs reg_cx)
      else 1 in
    executed (exec_shift_rotate s d count) d

-- Case 13.
unfoldable pub case_loop : Emu86State → DecodeContext → Executed
case_loop s d =
    if d.reg4bit == 0
    then exec_loopnz s d
    else if d.reg4bit == 1
    then exec_loopz s d
    else if d.reg4bit == 2
    then exec_loop s d
    else if d.reg4bit == 3
    then exec_jcxz s d
    else executed s d

-- Case 14.
unfoldable pub case_jmp_call : Emu86State → DecodeContext → Executed
case_jmp_call s d =
    let d1 = record d { inst_length = 3 - d.direction } in
    if is_set d.direction && is_set d.operand_width
    then exec_jmp_short s d1
    else if not (is_set d.direction) && not (is_set d.operand_width)
    then exec_call_near s d1
    else if not (is_set d.direction) && is_set d.operand_width
    then exec_jmp_near s d1
    else exec_jmp_far s d1

-- Case 19.
unfoldable pub case_return : Emu86State → DecodeContext → Executed
case_return s d =
    let has_imm = not (is_set d.operand_width) in
    if is_set (bit_and d.extra 2)
    then exec_iret s d
    else if is_set d.extra
    then (if has_imm then exec_retf_imm s d else exec_retf s d)
    else if has_imm
    then exec_ret_near_imm s d
    else exec_ret_near s d

-- `d->extra ? s->regs[REG_DX] : (uint8_t)d->data0`
abbrev port_of : Emu86State → DecodeContext → ℕ
port_of s d = if is_set d.extra then s.regs reg_dx else u8 d.data0

-- Case 21. In the word form `exec_in_ax_dx` reads AX from the port in DX, and the lines behind it
-- read AX again from `port`.
unfoldable pub case_in : Emu86State → DecodeContext → Emu86State
case_in s d =
    let port = port_of s d in
    let s1 = set_port s 0x20 0 in
    let s2 = set_port s1 0x40 (s1.io_ports 0x40 + 0x100 - 1) in
    let s3 = set_port s2 0x42 (s2.io_ports 0x40) in
    let s4 = set_port s3 0x3DA (bit_xor (s3.io_ports 0x3DA) 9) in
    let s5 = if port == 0x60 then set_port s4 0x64 0 else s4 in
    if is_set d.operand_width
    then in_ax (exec_in_ax_dx s5) port
    else set_reg s5 reg_ax (with_al s5 (s5.io_ports port))

-- The PIT rate store of case 22, with `pit_lobyte_pending ^= 1` before it.
unfoldable pub pit_rate : Emu86State → ℕ → Emu86State
pit_rate s port =
    let pending = bit_xor s.pit_lobyte_pending 1 in
    set_mem (record s { pit_lobyte_pending = u8 pending }) (0x469 + port - u8 pending)
      (u8 (s.regs reg_ax))

-- Case 22.
unfoldable pub case_out : Emu86State → DecodeContext → Emu86State
case_out s d =
    let port = port_of s d in
    let s1 = set_port s port (u8 (s.regs reg_ax)) in
    let s2 =
      if is_set d.operand_width then set_port s1 (port + 1) (u8 (s.regs reg_ax / 2 ^ 8)) else s1 in
    let s3 =
      if port == 0x61
      then record s2 { spkr_en = u8 (bit_or s2.spkr_en (bit_and (u8 (s2.regs reg_ax)) 3)) }
      else s2 in
    if (port == 0x40 || port == 0x42) && is_set (bit_and (s3.io_ports 0x43) 6)
    then pit_rate s3 port
    else s3

-- Case 23: the prefix keeps an active segment override alive for one step more.
unfoldable pub case_rep : Emu86State → DecodeContext → Emu86State
case_rep s d =
    let s1 = exec_rep_prefix s d.operand_width in
    if is_set s1.seg_override_en
    then record s1 { seg_override_en = u8 (s1.seg_override_en + 1) }
    else s1

-- Case 27.
unfoldable pub case_segment : Emu86State → DecodeContext → Emu86State
case_segment s d =
    let s1 = exec_segment_override s (u8 (d.extra + 0x100 - 8)) in
    if is_set s1.rep_override_en
    then record s1 { rep_override_en = u8 (s1.rep_override_en + 1) }
    else s1

-- Case 41.
unfoldable pub case_aam : Emu86State → DecodeContext → Executed
case_aam s d =
    if bit_and d.data0 0xFF == 0
    then divide_error s d
    else executed (exec_aam s (u8 (bit_and d.data0 0xFF))) d

-- `flag_map` of case 46
abbrev flag_map : ℕ → ℕ
flag_map idx =
    if idx == 40
    then flag_cf
    else if idx == 41
    then flag_pf
    else if idx == 42
    then flag_af
    else if idx == 43
    then flag_zf
    else if idx == 44
    then flag_sf
    else if idx == 45
    then flag_tf
    else if idx == 46
    then flag_if
    else if idx == 47
    then flag_df
    else flag_of

-- Case 46.
unfoldable pub case_flag : Emu86State → DecodeContext → Emu86State
case_flag s d =
    let idx = d.extra / 2 in
    let val = bit_and d.extra 1 in
    if leb 40 idx && leb idx 48 then update_flag s (flag_map idx) val else s

-- Case 47.
unfoldable pub case_test_acc : Emu86State → DecodeContext → Emu86State
case_test_acc s d =
    let acc = if is_set d.operand_width then s.regs reg_ax else u8 (s.regs reg_ax) in
    let imm = bit_and (u16 d.data0) (mask d.operand_width) in
    set_flags_logic s (bit_and acc imm) d.operand_width
