-- ===== src/Run/Dispatch.antt =====
-- The `switch` of `execute_instruction` in run.c.
pub mod Words
use huxley.Base.{◌+◌, ◌-◌, bit_and, ltb, ◌==◌, is_set, if◌then◌else◌, u8}
use huxley.State.{Emu86State}
use huxley.Context.{DecodeContext}
use huxley.Platform.{Emu86Platform}
use huxley.Decode.{Emu86Tables}
use huxley.Opcodes.Arithmetic.{exec_add, exec_adc, exec_sub, exec_sbb, exec_cmp}
use huxley.Opcodes.Adjust.{exec_daa, exec_das, exec_aaa, exec_aas, exec_aad}
use huxley.Opcodes.Logic.{exec_and, exec_or, exec_xor, exec_test}
use huxley.Opcodes.Transfer.{exec_mov_rm_reg, exec_mov_rm_imm, exec_mov_al_moffs, exec_mov_moffs_al}
use huxley.Opcodes.Transfer.{exec_push_reg, exec_pop_reg, exec_push_sreg, exec_pop_sreg, exec_pushf}
use huxley.Opcodes.Transfer.{exec_popf, exec_xchg, exec_xchg_ax_reg, exec_lds, exec_les, exec_cbw}
use huxley.Opcodes.Transfer.{exec_cwd, exec_xlat, exec_lahf, exec_sahf}
use huxley.Opcodes.Strings.{exec_string_op}
use huxley.Opcodes.Control.{
  Executed, executed, exec_jcc, exec_call_far, exec_int, exec_int3, exec_into,
}
use huxley.Opcodes.FlagsIo.{exec_hlt, exec_salc, exec_cmc, Called, exec_bios_putchar}
use huxley.Opcodes.FlagsIo.{exec_bios_get_rtc, exec_bios_disk_read, exec_bios_disk_write}
use huxley.Run.Cases.{case_mov_reg_imm, case_inc_dec_reg, case_group_fe, case_group_f6}
use huxley.Run.Cases.{case_alu_acc_imm, case_alu_rm_imm, case_sreg_lea_pop, case_shift, case_loop}
use huxley.Run.Cases.{
  case_jmp_call, case_return, case_in, case_out, case_rep, case_segment, case_aam,
}
use huxley.Run.Cases.{case_flag, case_test_acc}

-- Case 9.
unfoldable pub case_alu : Emu86State → DecodeContext → Emu86State
case_alu s d =
    if d.extra == 0
    then exec_add s d
    else if d.extra == 1
    then exec_or s d
    else if d.extra == 2
    then exec_adc s d
    else if d.extra == 3
    then exec_sbb s d
    else if d.extra == 4
    then exec_and s d
    else if d.extra == 5
    then exec_sub s d
    else if d.extra == 6
    then exec_xor s d
    else if d.extra == 7
    then exec_cmp s d
    else if d.extra == 8
    then exec_mov_rm_reg s d
    else s

-- Case 11.
unfoldable pub case_moffs : Emu86State → DecodeContext → Emu86State
case_moffs s d = if is_set d.direction then exec_mov_moffs_al s d else exec_mov_al_moffs s d

-- Case 37.
unfoldable pub case_far_pointer : Emu86State → DecodeContext → Executed
case_far_pointer s d =
    let d1 = record d { operand_width = 1; direction = 1 } in
    executed (if bit_and d.opcode 1 == 0 then exec_les s d1 else exec_lds s d1) d1

-- Cases 0 to 12.
unfoldable pub execute_low : Emu86State → Emu86Tables → DecodeContext → Executed
execute_low s t d =
    if d.xlat_id == 0
    then exec_jcc s d
    else if d.xlat_id == 1
    then case_mov_reg_imm s t d
    else if d.xlat_id == 2
    then case_inc_dec_reg s d
    else if d.xlat_id == 3
    then executed (exec_push_reg s d.reg4bit) d
    else if d.xlat_id == 4
    then executed (exec_pop_reg s d.reg4bit) d
    else if d.xlat_id == 5
    then case_group_fe s d
    else if d.xlat_id == 6
    then case_group_f6 s d
    else if d.xlat_id == 7
    then case_alu_acc_imm s d
    else if d.xlat_id == 8
    then case_alu_rm_imm s d
    else if d.xlat_id == 9
    then executed (case_alu s d) d
    else if d.xlat_id == 10
    then case_sreg_lea_pop s t d
    else if d.xlat_id == 11
    then executed (case_moffs s d) d
    else case_shift s d

-- Cases 13 to 24.
unfoldable pub execute_middle : Emu86State → DecodeContext → Executed
execute_middle s d =
    if d.xlat_id == 13
    then case_loop s d
    else if d.xlat_id == 14
    then case_jmp_call s d
    else if d.xlat_id == 15
    then executed (exec_test s d) d
    else if d.xlat_id == 16
    then executed (exec_xchg_ax_reg s d.reg4bit) (record d { operand_width = 1 })
    else if d.xlat_id == 17
    then executed (exec_string_op s d) d
    else if d.xlat_id == 18
    then executed (exec_string_op s d) d
    else if d.xlat_id == 19
    then case_return s d
    else if d.xlat_id == 20
    then executed (exec_mov_rm_imm s d) d
    else if d.xlat_id == 21
    then executed (case_in s d) d
    else if d.xlat_id == 22
    then executed (case_out s d) d
    else if d.xlat_id == 23
    then executed (case_rep s d) d
    else executed (exec_xchg s d) d

-- Cases 25 to 37.
unfoldable pub execute_upper : Emu86State → DecodeContext → Executed
execute_upper s d =
    if d.xlat_id == 25
    then executed (exec_push_sreg s (u8 (d.extra + 0x100 - 8))) d
    else if d.xlat_id == 26
    then executed (exec_pop_sreg s (u8 (d.extra + 0x100 - 8))) d
    else if d.xlat_id == 27
    then executed (case_segment s d) d
    else if d.xlat_id == 28
    then executed (if is_set d.extra then exec_das s else exec_daa s) d
    else if d.xlat_id == 29
    then executed (if is_set d.extra then exec_aas s else exec_aaa s) d
    else if d.xlat_id == 30
    then executed (exec_cbw s) d
    else if d.xlat_id == 31
    then executed (exec_cwd s) d
    else if d.xlat_id == 32
    then exec_call_far s d
    else if d.xlat_id == 33
    then executed (exec_pushf s) d
    else if d.xlat_id == 34
    then executed (exec_popf s) d
    else if d.xlat_id == 35
    then executed (exec_sahf s) d
    else if d.xlat_id == 36
    then executed (exec_lahf s) d
    else case_far_pointer s d

-- Cases 38 to 53, and the default, which ignores the instruction.
unfoldable pub execute_high : Emu86State → DecodeContext → Executed
execute_high s d =
    if d.xlat_id == 38
    then exec_int3 s (record d { inst_length = 1 })
    else if d.xlat_id == 39
    then exec_int s (record d { inst_length = 2 }) (u8 (bit_and d.data0 0xFF))
    else if d.xlat_id == 40
    then exec_into s (record d { inst_length = 1 })
    else if d.xlat_id == 41
    then case_aam s d
    else if d.xlat_id == 42
    then executed (exec_aad s (u8 (bit_and d.data0 0xFF))) (record d { operand_width = 0 })
    else if d.xlat_id == 43
    then executed (exec_salc s) d
    else if d.xlat_id == 44
    then executed (exec_xlat s) d
    else if d.xlat_id == 45
    then executed (exec_cmc s) d
    else if d.xlat_id == 46
    then executed (case_flag s d) d
    else if d.xlat_id == 47
    then executed (case_test_acc s d) d
    else if d.xlat_id == 53
    then executed (if d.opcode == 0xF4 then exec_hlt s else s) d
    else executed s d

-- Every case but 48.
unfoldable pub execute_core : Emu86State → Emu86Tables → DecodeContext → Executed
execute_core s t d =
    if ltb d.xlat_id 13
    then execute_low s t d
    else if ltb d.xlat_id 25
    then execute_middle s d
    else if ltb d.xlat_id 38
    then execute_upper s d
    else execute_high s d

-- Case 48, the emulator's own calls.
unfoldable pub case_bios : {H : Type 0} → Emu86State → Emu86Platform H → DecodeContext → Called H
case_bios s p d =
    let call = u8 (bit_and d.data0 0xFF) in
    if call == 0
    then exec_bios_putchar s p
    else if call == 1
    then exec_bios_get_rtc s p
    else if call == 2
    then exec_bios_disk_read s p
    else if call == 3
    then exec_bios_disk_write s p
    else (s, p)

-- What one instruction changes: the machine and the decode context, and the platform.
unfoldable pub execute_instruction :
    {H : Type 0}
    → Emu86State
    → Emu86Platform H
    → Emu86Tables
    → DecodeContext
    → Executed × Emu86Platform H
execute_instruction s p t d =
    let called = case_bios s p d in
    if d.xlat_id == 48 then (executed called.0 d, called.1) else (execute_core s t d, p)
