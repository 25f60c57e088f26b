-- ===== src/Run/Address.antt =====
-- LEA against the decoder's effective address.
use huxley.Base.{ℕ, ◌+◌, ◌-◌, ◌*◌, ◌^◌, ◌<◌, ◌≡◌, ap, arith}
use huxley.Base.{ltb, ◌==◌, if◌then◌else◌, true, u16, u32, sub32}
use huxley.State.{Emu86State}
use huxley.State.Words.{IsWords}
use huxley.Context.{DecodeContext}
use huxley.Access.{segoff_to_linear, write_reg16, read_table_sreg}
use huxley.Decode.{Emu86Tables, operand_segment, operand_offset, resolve_operands}
use huxley.Run.Cases.{load_effective_address}

-- A linear address less its segment's base is its offset.
offset_lem :
    (seg off : ℕ)
    → seg < 0x1_0000
    → off < 0x1_0000
    → u16 (sub32 (segoff_to_linear seg off) (u32 (seg * 2 ^ 4))) ≡ off
unfolding segoff_to_linear
offset_lem seg off h k = omega arith

module _ (s : Emu86State) (t : Emu86Tables) (d : DecodeContext) (v : IsWords s) where
  operand_segment-lt : operand_segment s t d < 0x1_0000
  unfolding operand_segment read_table_sreg
  operand_segment-lt =
      ground
        (arith, v.sregs s.seg_override, v.sregs (t ((if d.mode == 0 then 4 else 0) + 3) d.rm - 8))

  operand_offset-lt : operand_offset s t d < 0x1_0000
  unfolding operand_offset
  operand_offset-lt = omega arith

  -- On a well-formed state, for an instruction with a memory operand, LEA writes the 16-bit offset
  -- that the decoder computed, without its segment, and sets the override counter to 1.
  pub load_effective_address_lem :
      d.mode < 3
      → load_effective_address s t (resolve_operands s t d)
        ≡ record (write_reg16 s d.reg (operand_offset s t d)) { seg_override_en = 1 }
  unfolding load_effective_address resolve_operands operand_segment
  load_effective_address_lem h =
      let memory : ltb d.mode 3 ≡ true = ground arith in
      rw memory (
        ap (λ n. record (write_reg16 s d.reg n) { seg_override_en = 1 })
          (offset_lem (operand_segment s t d) (operand_offset s t d) operand_segment-lt
            operand_offset-lt))
