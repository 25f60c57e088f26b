-- ===== src/Opcodes/Transfer.antt =====
-- opcodes/transfer.h: the stack, the packed flags, MOV, PUSH, POP, XCHG, LDS, LES, conversions,
-- XLAT, LAHF and SAHF. What pops returns the value beside the state.
pub mod Words
pub mod Stack
use huxley.Base.{ℕ, ◌+◌, ◌*◌, ◌/◌, ◌^◌, bit_and, bit_or, is_set, if◌then◌else◌}
use huxley.Base.{u8, u16, sub16}
use huxley.Base.Signed.{sext8_16}
use huxley.State.{Emu86State, reg_ax, reg_dx, reg_bx, reg_sp, sreg_es, sreg_ss, sreg_ds}
use huxley.State.{set_reg, set_sreg}
use huxley.Context.{DecodeContext}
use huxley.Access.{segoff_to_linear, mem_read8, mem_write8, mem_read16, mem_write16}
use huxley.Access.{write_reg8, write_reg16, read_rm, write_rm, read_rm16, write_rm16, read_reg}
use huxley.Access.{write_reg}

unfoldable pub stack_push : Emu86State → ℕ → Emu86State
stack_push s value =
    let s1 = set_reg s reg_sp (sub16 (s.regs reg_sp) 2) in
    let addr = segoff_to_linear (s1.sregs sreg_ss) (s1.regs reg_sp) in
    mem_write16 s1 addr (u16 value)

unfoldable pub stack_pop : Emu86State → ℕ × Emu86State
stack_pop s =
    let addr = segoff_to_linear (s.sregs sreg_ss) (s.regs reg_sp) in
    let val = mem_read16 s addr in (val, set_reg s reg_sp (s.regs reg_sp + 2))

unfoldable pub flags_pack : Emu86State → ℕ
flags_pack s = bit_or (bit_and s.flags 0x0FFF) 0xF002

unfoldable pub flags_unpack : Emu86State → ℕ → Emu86State
flags_unpack s val = record s { flags = bit_or (bit_and (u16 val) 0x0FD5) 0x0002 }

unfoldable pub exec_mov_rm_reg : Emu86State → DecodeContext → Emu86State
exec_mov_rm_reg s d =
    if is_set d.direction then write_reg s d (read_rm s d) else write_rm s d (read_reg s d)

unfoldable pub exec_mov_reg_imm : Emu86State → DecodeContext → Emu86State
exec_mov_reg_imm s d =
    if is_set d.operand_width
    then write_reg16 s d.reg4bit (u16 d.data0)
    else write_reg8 s d.reg4bit (u8 (bit_and d.data0 0xFF))

unfoldable pub exec_mov_rm_imm : Emu86State → DecodeContext → Emu86State
exec_mov_rm_imm s d = write_rm s d (u16 d.data2)

-- DS, or the segment of an active override.
abbrev pub data_segment : Emu86State → ℕ
data_segment s = if is_set s.seg_override_en then s.sregs s.seg_override else s.sregs sreg_ds

-- `(AX & 0xFF00) | val`
abbrev pub with_al : Emu86State → ℕ → ℕ
with_al s val = bit_or (bit_and (s.regs reg_ax) 0xFF00) val

unfoldable pub exec_mov_al_moffs : Emu86State → DecodeContext → Emu86State
exec_mov_al_moffs s d =
    let addr = segoff_to_linear (data_segment s) (u16 d.data0) in
    if is_set d.operand_width
    then set_reg s reg_ax (mem_read16 s addr)
    else set_reg s reg_ax (with_al s (mem_read8 s addr))

unfoldable pub exec_mov_moffs_al : Emu86State → DecodeContext → Emu86State
exec_mov_moffs_al s d =
    let addr = segoff_to_linear (data_segment s) (u16 d.data0) in
    if is_set d.operand_width
    then mem_write16 s addr (s.regs reg_ax)
    else mem_write8 s addr (u8 (s.regs reg_ax))

-- The REG field reaches 7 and there are four segment registers: a store to cells 4 to 7 leaves the
-- C array, and changes no register here.
unfoldable pub exec_mov_sreg_rm : Emu86State → DecodeContext → Emu86State
exec_mov_sreg_rm s d = set_sreg s d.reg (read_rm16 s d)

unfoldable pub exec_mov_rm_sreg : Emu86State → DecodeContext → Emu86State
exec_mov_rm_sreg s d = write_rm16 s d (s.sregs d.reg)

unfoldable pub exec_push_reg : Emu86State → ℕ → Emu86State
exec_push_reg s reg = stack_push s (s.regs reg)

unfoldable pub exec_pop_reg : Emu86State → ℕ → Emu86State
exec_pop_reg s reg = let (val, s1) = stack_pop s in set_reg s1 reg val

unfoldable pub exec_push_rm : Emu86State → DecodeContext → Emu86State
exec_push_rm s d = stack_push s (read_rm16 s d)

unfoldable pub exec_pop_rm : Emu86State → DecodeContext → Emu86State
exec_pop_rm s d = let (val, s1) = stack_pop s in write_rm16 s1 d val

unfoldable pub exec_push_sreg : Emu86State → ℕ → Emu86State
exec_push_sreg s sreg = stack_push s (s.sregs sreg)

unfoldable pub exec_pop_sreg : Emu86State → ℕ → Emu86State
exec_pop_sreg s sreg = let (val, s1) = stack_pop s in set_sreg s1 sreg val

unfoldable pub exec_pushf : Emu86State → Emu86State
exec_pushf s = stack_push s (flags_pack s)

unfoldable pub exec_popf : Emu86State → Emu86State
exec_popf s = let (val, s1) = stack_pop s in flags_unpack s1 val

unfoldable pub exec_xchg : Emu86State → DecodeContext → Emu86State
exec_xchg s d = let a = read_rm s d in let b = read_reg s d in write_reg (write_rm s d b) d a

unfoldable pub exec_xchg_ax_reg : Emu86State → ℕ → Emu86State
exec_xchg_ax_reg s reg = let tmp = s.regs reg_ax in set_reg (set_reg s reg_ax (s.regs reg)) reg tmp

unfoldable pub exec_lds : Emu86State → DecodeContext → Emu86State
exec_lds s d =
    let offset = mem_read16 s d.rm_addr in
    let seg = mem_read16 s (d.rm_addr + 2) in set_sreg (write_reg16 s d.reg offset) sreg_ds seg

unfoldable pub exec_les : Emu86State → DecodeContext → Emu86State
exec_les s d =
    let offset = mem_read16 s d.rm_addr in
    let seg = mem_read16 s (d.rm_addr + 2) in set_sreg (write_reg16 s d.reg offset) sreg_es seg

unfoldable pub exec_cbw : Emu86State → Emu86State
exec_cbw s = set_reg s reg_ax (sext8_16 (u8 (s.regs reg_ax)))

unfoldable pub exec_cwd : Emu86State → Emu86State
exec_cwd s = set_reg s reg_dx (if is_set (bit_and (s.regs reg_ax) 0x8000) then 0xFFFF else 0x0000)

unfoldable pub exec_xlat : Emu86State → Emu86State
exec_xlat s =
    let offset = u16 (s.regs reg_bx + u8 (s.regs reg_ax)) in
    let addr = segoff_to_linear (data_segment s) offset in
    set_reg s reg_ax (with_al s (mem_read8 s addr))

unfoldable pub exec_lahf : Emu86State → Emu86State
exec_lahf s =
    let ah = u8 (bit_and s.flags 0xFF) in
    set_reg s reg_ax (bit_or (bit_and (s.regs reg_ax) 0x00FF) (ah * 2 ^ 8))

unfoldable pub exec_sahf : Emu86State → Emu86State
exec_sahf s =
    let ah = u8 (s.regs reg_ax / 2 ^ 8) in
    record s { flags = u16 (bit_or (bit_or (bit_and s.flags 0xFF00) (bit_and ah 0xD5)) 0x02) }
