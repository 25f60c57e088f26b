-- ===== src/Decode.antt =====
-- packages/emu86/src/emulator/tables.h and `decode_instruction` of decode.h.
pub mod Bounds
use huxley.Base.{ℕ, ◌+◌, ◌-◌, ◌*◌, ◌/◌, ◌%◌, ◌^◌, bit_and, bit_or, ltb, ◌==◌, not, ◌&&◌, ◌||◌}
use huxley.Base.{Bool, is_set, to_int, if◌then◌else◌, u8, u16, u32}
use huxley.Base.Signed.{sext8_32, sext16_32}
use huxley.State.{Emu86State, sreg_cs}
use huxley.Context.{DecodeContext, blank}
use huxley.Access.{segoff_to_linear, read_table_reg, read_table_sreg}

-- `data[table][index]`
abbrev pub Emu86Tables : Type 0
Emu86Tables = ℕ → ℕ → ℕ

abbrev pub table_xlat_opcode : ℕ
table_xlat_opcode = 8

abbrev pub table_xlat_subfunction : ℕ
table_xlat_subfunction = 9

abbrev pub table_std_flags : ℕ
table_std_flags = 10

abbrev pub table_base_inst_size : ℕ
table_base_inst_size = 12

abbrev pub table_i_w_size : ℕ
table_i_w_size = 13

abbrev pub table_i_mod_size : ℕ
table_i_mod_size = 14

-- The two loops fill cell (i, j) from the table pointer `i` in the BIOS area. The C array has 20
-- tables of 256 bytes; here the same formula stands for every cell.
unfoldable pub emu86_load_tables : Emu86State → Emu86Tables
emu86_load_tables state i j =
    let base : ℕ = 0xF_0000 in
    let lo = state.mem (base + (0x102 + 2 * i)) in
    let hi = state.mem (base + (0x103 + 2 * i)) in
    state.mem (base + (u16 (bit_or lo (hi * 2 ^ 8)) + j))

module _ (state : Emu86State) (tables : Emu86Tables) where
  -- The instruction stream at CS:IP.
  abbrev pub stream : ℕ → ℕ
  stream k = state.mem (segoff_to_linear (state.sregs sreg_cs) state.ip + k)

  -- `(uint32_t)(int16_t)(stream[k] | ((uint16_t)stream[k + 1] << 8))`
  abbrev pub stream_word : ℕ → ℕ
  stream_word k = sext16_32 (u16 (bit_or (stream k) (u16 (stream (k + 1) * 2 ^ 8))))

  -- Steps 1 to 3: the opcode, its table entries and the data words.
  unfoldable pub decode_opcode : DecodeContext
  decode_opcode =
      let opcode = stream 0 in
      let reg4bit = bit_and opcode 7 in
      record blank {
        opcode = opcode;
        xlat_id = tables table_xlat_opcode opcode;
        extra = tables table_xlat_subfunction opcode;
        set_flags_type = tables table_std_flags opcode;
        has_modrm = tables table_i_mod_size opcode;
        reg4bit = reg4bit;
        operand_width = bit_and reg4bit 1;
        direction = bit_and (reg4bit / 2 ^ 1) 1;
        data0 = stream_word 1;
        data1 = stream_word 2;
        data2 = stream_word 3;
      }

  -- Step 4: the fields of the ModRM byte, and the data words that follow a displacement.
  unfoldable pub decode_modrm : DecodeContext → DecodeContext
  decode_modrm d =
      let modrm_byte = u8 (bit_and d.data0 0xFF) in
      let mode = modrm_byte / 2 ^ 6 in
      let rm = bit_and modrm_byte 7 in
      let reg = bit_and (modrm_byte / 2 ^ 3) 7 in
      let wide = (mode == 0 && rm == 6) || mode == 2 in
      record d {
        mode = mode;
        rm = rm;
        reg = reg;
        data1 = if not wide && mode == 1 then sext8_32 (bit_and d.data1 0xFF) else d.data1;
        data2 = if wide then stream_word 4 else if mode == 1 then d.data2 else d.data1;
      }

  -- Step 5: the segment and the offset of a memory operand.
  abbrev table_base : DecodeContext → ℕ
  table_base d = if d.mode == 0 then 4 else 0

  unfoldable pub operand_segment : DecodeContext → ℕ
  operand_segment d =
      if is_set state.seg_override_en
      then state.sregs state.seg_override
      else read_table_sreg state (tables (table_base d + 3) d.rm)

  unfoldable pub operand_offset : DecodeContext → ℕ
  operand_offset d = u16 (
      read_table_reg state (tables (table_base d + 0) d.rm)
      + read_table_reg state (tables (table_base d + 1) d.rm)
      + tables (table_base d + 2) d.rm * u16 d.data1)

  unfoldable pub resolve_operands : DecodeContext → DecodeContext
  resolve_operands d =
      let rm_addr =
        if ltb d.mode 3 then segoff_to_linear (operand_segment d) (operand_offset d) else d.rm in
      record d {
        rm_addr = rm_addr;
        op_to_addr = if is_set d.direction then d.reg else rm_addr;
        op_from_addr = if is_set d.direction then rm_addr else d.reg;
      }

  -- Step 6.
  unfoldable pub instruction_length : DecodeContext → ℕ
  instruction_length d =
      let modrm_disp =
        if is_set d.has_modrm
        then (if d.mode == 0 && d.rm == 6 then 2 else d.mode * to_int (not (d.mode == 3)))
        else 0 in
      u8 (
        tables table_base_inst_size d.opcode
        + modrm_disp
        + tables table_i_w_size d.opcode * (d.operand_width + 1))

  unfoldable pub decode_instruction : DecodeContext
  decode_instruction =
      let d0 = decode_opcode in
      let d1 = if is_set d0.has_modrm then resolve_operands (decode_modrm d0) else d0 in
      record d1 { inst_length = instruction_length d1 }
