-- ===== src/Opcodes/Control.antt =====
-- opcodes/control.h: interrupts, jumps, calls, returns and loops. A handler that sets
-- `d->ip_changed` returns the decode context too.
pub mod Words
pub mod Return
use huxley.Base.{ℕ, ◌+◌, ◌*◌, bit_and, ◌==◌, not, ◌&&◌, ◌||◌, is_set, to_int, if◌then◌else◌}
use huxley.Base.{u8, u16, sub16}
use huxley.Base.Signed.{sext8_16}
use huxley.State.{Emu86State, reg_cx, reg_sp, sreg_cs, set_reg, set_sreg, set_ip}
use huxley.State.{flag_cf, flag_pf, flag_zf, flag_sf, flag_tf, flag_if, flag_of}
use huxley.Context.{DecodeContext}
use huxley.Access.{mem_read16, read_rm16}
use huxley.Opcodes.Helpers.{get_flag, clear_flag}
use huxley.Opcodes.Transfer.{stack_push, stack_pop, flags_pack, flags_unpack}

-- A state and a decode context that an instruction changes together.
pub record Executed : Type 0 where
  pub state : Emu86State
  pub context : DecodeContext

abbrev pub executed : Emu86State → DecodeContext → Executed
executed s d = record { state = s; context = d }

-- The end of a handler that jumps: `d->ip_changed = 1`.
abbrev pub jumped : Emu86State → DecodeContext → Executed
jumped s d = executed s (record d { ip_changed = 1 })

unfoldable pub pc_interrupt : Emu86State → ℕ → Emu86State
pc_interrupt s vector_num =
    let v = u8 vector_num in
    let s1 = stack_push s (flags_pack s) in
    let s2 = stack_push s1 (s1.sregs sreg_cs) in
    let s3 = stack_push s2 s2.ip in
    let s4 = clear_flag s3 flag_if in
    let s5 = clear_flag s4 flag_tf in
    let s6 = set_ip s5 (mem_read16 s5 (v * 4)) in set_sreg s6 sreg_cs (mem_read16 s6 (v * 4 + 2))

-- The even condition codes.
unfoldable pub eval_even : Emu86State → ℕ → ℕ
eval_even s cc =
    if cc == 0x00
    then get_flag s flag_of
    else if cc == 0x02
    then get_flag s flag_cf
    else if cc == 0x04
    then get_flag s flag_zf
    else if cc == 0x06
    then to_int (is_set (get_flag s flag_cf) || is_set (get_flag s flag_zf))
    else if cc == 0x08
    then get_flag s flag_sf
    else if cc == 0x0A
    then get_flag s flag_pf
    else if cc == 0x0C
    then to_int (not (get_flag s flag_sf == get_flag s flag_of))
    else if cc == 0x0E
    then to_int (is_set (get_flag s flag_zf) || not (get_flag s flag_sf == get_flag s flag_of))
    else 0

unfoldable pub eval_condition : Emu86State → ℕ → ℕ
eval_condition s cc =
    let result = eval_even s (bit_and cc 0x0E) in
    if is_set (bit_and cc 1) then to_int (not (is_set result)) else result

-- `ip + inst_length + (int8_t)(data0 & 0xFF)`, modulo 2 ^ 16.
abbrev pub rel8_target : Emu86State → DecodeContext → ℕ
rel8_target s d = u16 (s.ip + d.inst_length + sext8_16 (bit_and d.data0 0xFF))

unfoldable pub exec_jmp_short : Emu86State → DecodeContext → Executed
exec_jmp_short s d = jumped (set_ip s (rel8_target s d)) d

-- Adding `(int16_t)(uint16_t)data0` is adding its bit pattern, modulo 2 ^ 16.
unfoldable pub exec_jmp_near : Emu86State → DecodeContext → Executed
exec_jmp_near s d = jumped (set_ip s (s.ip + d.inst_length + u16 d.data0)) d

unfoldable pub exec_jmp_far : Emu86State → DecodeContext → Executed
exec_jmp_far s d = jumped (set_sreg (set_ip s (u16 d.data0)) sreg_cs (u16 d.data2)) d

unfoldable pub exec_jmp_rm : Emu86State → DecodeContext → Executed
exec_jmp_rm s d = jumped (set_ip s (read_rm16 s d)) d

unfoldable pub exec_jmp_far_mem : Emu86State → DecodeContext → Executed
exec_jmp_far_mem s d =
    let s1 = set_ip s (mem_read16 s d.rm_addr) in
    jumped (set_sreg s1 sreg_cs (mem_read16 s1 (d.rm_addr + 2))) d

unfoldable pub exec_jcc : Emu86State → DecodeContext → Executed
exec_jcc s d =
    if is_set (eval_condition s (bit_and d.opcode 0x0F))
    then jumped (set_ip s (rel8_target s d)) d
    else executed s d

-- `uint16_t return_ip = s->ip + d->inst_length`
abbrev pub return_ip : Emu86State → DecodeContext → ℕ
return_ip s d = u16 (s.ip + d.inst_length)

unfoldable pub exec_call_near : Emu86State → DecodeContext → Executed
exec_call_near s d =
    let s1 = stack_push s (return_ip s d) in jumped (set_ip s1 (return_ip s d + u16 d.data0)) d

unfoldable pub exec_call_far : Emu86State → DecodeContext → Executed
exec_call_far s d =
    let s1 = stack_push (stack_push s (s.sregs sreg_cs)) (return_ip s d) in
    jumped (set_sreg (set_ip s1 (u16 d.data0)) sreg_cs (u16 d.data2)) d

unfoldable pub exec_call_rm : Emu86State → DecodeContext → Executed
exec_call_rm s d = let s1 = stack_push s (return_ip s d) in jumped (set_ip s1 (read_rm16 s1 d)) d

unfoldable pub exec_call_far_mem : Emu86State → DecodeContext → Executed
exec_call_far_mem s d =
    let s1 = stack_push (stack_push s (s.sregs sreg_cs)) (return_ip s d) in
    let s2 = set_ip s1 (mem_read16 s1 d.rm_addr) in
    jumped (set_sreg s2 sreg_cs (mem_read16 s2 (d.rm_addr + 2))) d

unfoldable pub exec_ret_near : Emu86State → DecodeContext → Executed
exec_ret_near s d = let (ip, s1) = stack_pop s in jumped (set_ip s1 ip) d

-- `regs[REG_SP] += (uint16_t)data0`
abbrev pub release : Emu86State → DecodeContext → Emu86State
release s d = set_reg s reg_sp (s.regs reg_sp + u16 d.data0)

unfoldable pub exec_ret_near_imm : Emu86State → DecodeContext → Executed
exec_ret_near_imm s d = let (ip, s1) = stack_pop s in jumped (release (set_ip s1 ip) d) d

unfoldable pub exec_retf : Emu86State → DecodeContext → Executed
exec_retf s d =
    let (ip, s1) = stack_pop s in
    let (cs, s2) = stack_pop (set_ip s1 ip) in jumped (set_sreg s2 sreg_cs cs) d

unfoldable pub exec_retf_imm : Emu86State → DecodeContext → Executed
exec_retf_imm s d =
    let (ip, s1) = stack_pop s in
    let (cs, s2) = stack_pop (set_ip s1 ip) in jumped (release (set_sreg s2 sreg_cs cs) d) d

unfoldable pub exec_int : Emu86State → DecodeContext → ℕ → Executed
exec_int s d vector = jumped (pc_interrupt (set_ip s (s.ip + d.inst_length)) (u8 vector)) d

unfoldable pub exec_int3 : Emu86State → DecodeContext → Executed
exec_int3 s d = exec_int s d 3

unfoldable pub exec_into : Emu86State → DecodeContext → Executed
exec_into s d = if is_set (get_flag s flag_of) then exec_int s d 4 else executed s d

unfoldable pub exec_iret : Emu86State → DecodeContext → Executed
exec_iret s d =
    let (ip, s1) = stack_pop s in
    let (cs, s2) = stack_pop (set_ip s1 ip) in
    let (flags, s3) = stack_pop (set_sreg s2 sreg_cs cs) in jumped (flags_unpack s3 flags) d

-- `regs[REG_CX]--`
abbrev pub count_down : Emu86State → Emu86State
count_down s = set_reg s reg_cx (sub16 (s.regs reg_cx) 1)

unfoldable pub exec_loop : Emu86State → DecodeContext → Executed
exec_loop s d =
    let s1 = count_down s in
    if is_set (s1.regs reg_cx) then jumped (set_ip s1 (rel8_target s1 d)) d else executed s1 d

unfoldable pub exec_loopz : Emu86State → DecodeContext → Executed
exec_loopz s d =
    let s1 = count_down s in
    if is_set (s1.regs reg_cx) && is_set (get_flag s1 flag_zf)
    then jumped (set_ip s1 (rel8_target s1 d)) d
    else executed s1 d

unfoldable pub exec_loopnz : Emu86State → DecodeContext → Executed
exec_loopnz s d =
    let s1 = count_down s in
    if is_set (s1.regs reg_cx) && not (is_set (get_flag s1 flag_zf))
    then jumped (set_ip s1 (rel8_target s1 d)) d
    else executed s1 d

unfoldable pub exec_jcxz : Emu86State → DecodeContext → Executed
exec_jcxz s d = if s.regs reg_cx == 0 then jumped (set_ip s (rel8_target s d)) d else executed s d
