-- ===== src/Access.antt =====
-- The access helpers of packages/emu86/src/emulator/decode.h: memory, registers, operands.
-- A parameter or result of a fixed-width type is converted where the function takes or returns it.
pub mod Laws
pub mod Stores
pub mod Words
use huxley.Base.{
  ℕ, ◌+◌, ◌-◌, ◌*◌, ◌/◌, ◌^◌, bit_and, bit_or, ltb, leb, ◌==◌, ◌&&◌, is_set, if◌then◌else◌,
}
use huxley.Base.{u8, u16}
use huxley.State.{Emu86State, set_reg, set_sreg, set_mem}
use huxley.Context.{DecodeContext}

-- `(uint32_t)segment << 4` plus an offset stays below 2 ^ 21, so nothing wraps.
unfoldable pub segoff_to_linear : ℕ → ℕ → ℕ
segoff_to_linear segment offset = u16 segment * 16 + u16 offset

unfoldable pub mem_read8 : Emu86State → ℕ → ℕ
mem_read8 s addr = s.mem addr

unfoldable pub mem_write8 : Emu86State → ℕ → ℕ → Emu86State
mem_write8 s addr val = set_mem s addr (u8 val)

unfoldable pub mem_read16 : Emu86State → ℕ → ℕ
mem_read16 s addr = bit_or (s.mem addr) (u16 (s.mem (addr + 1) * 2 ^ 8))

unfoldable pub mem_write16 : Emu86State → ℕ → ℕ → Emu86State
mem_write16 s addr val =
    let v = u16 val in set_mem (set_mem s addr (u8 v)) (addr + 1) (u8 (v / 2 ^ 8))

unfoldable pub read_reg8 : Emu86State → ℕ → ℕ
read_reg8 s index = if ltb index 4 then u8 (s.regs index) else u8 (s.regs (index - 4) / 2 ^ 8)

unfoldable pub write_reg8 : Emu86State → ℕ → ℕ → Emu86State
write_reg8 s index val =
    if ltb index 4
    then set_reg s index (bit_or (bit_and (s.regs index) 0xFF00) (u8 val))
    else set_reg s (index - 4) (bit_or (bit_and (s.regs (index - 4)) 0x00FF) (u8 val * 2 ^ 8))

unfoldable pub read_reg16 : Emu86State → ℕ → ℕ
read_reg16 s index = s.regs index

unfoldable pub write_reg16 : Emu86State → ℕ → ℕ → Emu86State
write_reg16 s index val = set_reg s index val

unfoldable pub read_sreg : Emu86State → ℕ → ℕ
read_sreg s index = s.sregs index

unfoldable pub write_sreg : Emu86State → ℕ → ℕ → Emu86State
write_sreg s index val = set_sreg s index val

unfoldable pub read_rm8 : Emu86State → DecodeContext → ℕ
read_rm8 s d = if d.mode == 3 then read_reg8 s d.rm else mem_read8 s d.rm_addr

unfoldable pub read_rm16 : Emu86State → DecodeContext → ℕ
read_rm16 s d = if d.mode == 3 then read_reg16 s d.rm else mem_read16 s d.rm_addr

unfoldable pub write_rm8 : Emu86State → DecodeContext → ℕ → Emu86State
write_rm8 s d val = if d.mode == 3 then write_reg8 s d.rm val else mem_write8 s d.rm_addr val

unfoldable pub write_rm16 : Emu86State → DecodeContext → ℕ → Emu86State
write_rm16 s d val = if d.mode == 3 then write_reg16 s d.rm val else mem_write16 s d.rm_addr val

unfoldable pub read_rm : Emu86State → DecodeContext → ℕ
read_rm s d = if is_set d.operand_width then read_rm16 s d else read_rm8 s d

unfoldable pub write_rm : Emu86State → DecodeContext → ℕ → Emu86State
write_rm s d val =
    if is_set d.operand_width then write_rm16 s d (u16 val) else write_rm8 s d (u8 val)

unfoldable pub read_reg : Emu86State → DecodeContext → ℕ
read_reg s d = if is_set d.operand_width then read_reg16 s d.reg else read_reg8 s d.reg

unfoldable pub write_reg : Emu86State → DecodeContext → ℕ → Emu86State
write_reg s d val =
    if is_set d.operand_width then write_reg16 s d.reg (u16 val) else write_reg8 s d.reg (u8 val)

unfoldable pub read_table_reg : Emu86State → ℕ → ℕ
read_table_reg s table_idx = if ltb table_idx 8 then s.regs table_idx else 0

unfoldable pub read_table_sreg : Emu86State → ℕ → ℕ
read_table_sreg s table_idx =
    if leb 8 table_idx && ltb table_idx 12 then s.sregs (table_idx - 8) else 0
