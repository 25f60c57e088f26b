-- ===== src/Run/Alu.antt =====
-- `exec_alu_imm` of run.c.
pub mod Words
use huxley.Base.{ℕ, ◌+◌, bit_and, bit_or, bit_xor, ◌==◌, if◌then◌else◌, u16, u32, sub32}
use huxley.State.{Emu86State, flag_cf}
use huxley.Context.{DecodeContext}
use huxley.Access.{read_rm, write_rm}
use huxley.Opcodes.Helpers.{mask, get_flag, set_flags_add, set_flags_sub, set_flags_szp}
use huxley.Opcodes.Helpers.{set_flags_logic}

-- The tails that the cases of `exec_alu_imm` share: flags as for addition, subtraction and logic,
-- then the write of the masked result.
abbrev alu_add : Emu86State → DecodeContext → ℕ → ℕ → ℕ → Emu86State
alu_add s d dest src result =
    let w = d.operand_width in
    let s1 = set_flags_szp (set_flags_add s dest src result w) result w in
    write_rm s1 d (bit_and result (mask w))

abbrev alu_compare : Emu86State → DecodeContext → ℕ → ℕ → ℕ → Emu86State
alu_compare s d dest src result =
    let w = d.operand_width in set_flags_szp (set_flags_sub s dest src result w) result w

abbrev alu_sub : Emu86State → DecodeContext → ℕ → ℕ → ℕ → Emu86State
alu_sub s d dest src result =
    write_rm (alu_compare s d dest src result) d (bit_and result (mask d.operand_width))

abbrev alu_logic : Emu86State → DecodeContext → ℕ → Emu86State
alu_logic s d result =
    let w = d.operand_width in write_rm (set_flags_logic s result w) d (bit_and result (mask w))

unfoldable pub exec_alu_imm : Emu86State → DecodeContext → ℕ → ℕ → Emu86State
exec_alu_imm s d op imm =
    let dest = read_rm s d in
    let src = bit_and (u16 imm) (mask d.operand_width) in
    let cf = get_flag s flag_cf in
    if op == 0
    then alu_add s d dest src (u32 (dest + src))
    else if op == 1
    then alu_logic s d (bit_or dest src)
    else if op == 2
    then alu_add s d dest src (u32 (dest + src + cf))
    else if op == 3
    then alu_sub s d dest src (sub32 (sub32 dest src) cf)
    else if op == 4
    then alu_logic s d (bit_and dest src)
    else if op == 5
    then alu_sub s d dest src (sub32 dest src)
    else if op == 6
    then alu_logic s d (bit_xor dest src)
    else if op == 7
    then alu_compare s d dest src (sub32 dest src)
    else if op == 8
    then write_rm s d src
    else s
