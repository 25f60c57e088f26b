-- ===== src/Decode/Bounds.antt =====
-- The ranges of what `decode_instruction` computes, for every state and all tables.
use huxley.Base.{ℕ, ◌+◌, ◌/◌, ◌<◌, arith, bit_and, is_set, Bool-cases, inl, inr}
use huxley.Base.Bits.{bit_and-ones, bit_and-one}
use huxley.State.{Emu86State, sreg_cs}
use huxley.Context.{DecodeContext}
use huxley.Access.{segoff_to_linear}
use huxley.Decode.{Emu86Tables, decode_opcode, decode_modrm, resolve_operands, decode_instruction}
use huxley.Decode.{instruction_length, operand_segment, operand_offset}

-- The fields of the ModRM byte have their two and three bits, which number the eight general
-- registers, and the address and the byte behind it are cells of memory. Of a segment register `reg`
-- says nothing here: it is below 8, not below 4.
pub record InRange (d : DecodeContext) : Type 0 where
  pub mode : d.mode < 4
  pub reg : d.reg < 8
  pub rm : d.rm < 8
  pub reg4bit : d.reg4bit < 8
  pub operand_width : d.operand_width < 2
  pub direction : d.direction < 2
  pub rm_addr : d.rm_addr + 1 < 0x11_0000
  pub inst_length : d.inst_length < 0x100

bit_and_7 : (a : ℕ) → bit_and a 7 < 8
bit_and_7 a = omega (arith, bit_and-ones a 3)

segoff_to_linear-lt : (segment offset : ℕ) → segoff_to_linear segment offset < 0x10_FFF0
unfolding segoff_to_linear
segoff_to_linear-lt segment offset = omega arith

with_length :
    (d : DecodeContext) (n : ℕ) → InRange d → n < 0x100 → InRange (record d { inst_length = n })
with_length d n v h = record {
  mode = v.mode;
  reg = v.reg;
  rm = v.rm;
  reg4bit = v.reg4bit;
  operand_width = v.operand_width;
  direction = v.direction;
  rm_addr = v.rm_addr;
  inst_length = h;
}

module _ (s : Emu86State) (t : Emu86Tables) where
  opcode-InRange : InRange (decode_opcode s t)
  unfolding decode_opcode
  opcode-InRange =
      let op = bit_and (s.mem (segoff_to_linear (s.sregs sreg_cs) s.ip + 0)) 7 in
      record {
        mode = omega arith;
        reg = omega arith;
        rm = omega arith;
        reg4bit = bit_and_7 _;
        operand_width = omega (arith, bit_and-one op);
        direction = omega (arith, bit_and-one (op / 2));
        rm_addr = omega arith;
        inst_length = omega arith;
      }

  modrm-InRange : (d : DecodeContext) → InRange d → InRange (decode_modrm s t d)
  unfolding decode_modrm
  modrm-InRange d v = record {
    mode = omega arith;
    reg = bit_and_7 _;
    rm = bit_and_7 _;
    reg4bit = v.reg4bit;
    operand_width = v.operand_width;
    direction = v.direction;
    rm_addr = v.rm_addr;
    inst_length = v.inst_length;
  }

  resolve_operands-InRange : (d : DecodeContext) → InRange d → InRange (resolve_operands s t d)
  unfolding resolve_operands
  resolve_operands-InRange d v = record {
    mode = v.mode;
    reg = v.reg;
    rm = v.rm;
    reg4bit = v.reg4bit;
    operand_width = v.operand_width;
    direction = v.direction;
    rm_addr =
        ground (arith, v.rm, segoff_to_linear-lt (operand_segment s t d) (operand_offset s t d));
    inst_length = v.inst_length;
  }

  instruction_length-lt : (d : DecodeContext) → instruction_length s t d < 0x100
  unfolding instruction_length
  instruction_length-lt d = omega arith

  -- Whatever the state and the tables, the decoded fields are in range: the register numbers below
  -- 8, the mode below 4, width and direction bits, and a memory operand, its second byte included,
  -- inside the memory.
  pub decode_instruction-InRange : InRange (decode_instruction s t)
  unfolding decode_instruction
  decode_instruction-InRange =
      let d = decode_opcode s t in
      let v = opcode-InRange in
      elim (Bool-cases (is_set d.has_modrm)) [
        | inl e ↦ rw e (
            with_length _ _ (resolve_operands-InRange _ (modrm-InRange d v))
              (instruction_length-lt _))
        | inr e ↦ rw e (with_length _ _ v (instruction_length-lt _))
      ]
