-- ===== src/Opcodes/Logic.antt =====
-- opcodes/logic.h: AND, OR, XOR, NOT and TEST.
pub mod Words
use huxley.Base.{◌-◌, bit_and, bit_or, bit_xor}
use huxley.State.{Emu86State}
use huxley.Context.{DecodeContext}
use huxley.Access.{read_rm, write_rm}
use huxley.Opcodes.Helpers.{mask, set_flags_logic}
use huxley.Opcodes.Arithmetic.{read_dest, read_src, write_dest}

unfoldable pub exec_and : Emu86State → DecodeContext → Emu86State
exec_and s d =
    let result = bit_and (read_dest s d) (read_src s d) in
    write_dest (set_flags_logic s result d.operand_width) d result

unfoldable pub exec_or : Emu86State → DecodeContext → Emu86State
exec_or s d =
    let result = bit_or (read_dest s d) (read_src s d) in
    write_dest (set_flags_logic s result d.operand_width) d result

unfoldable pub exec_xor : Emu86State → DecodeContext → Emu86State
exec_xor s d =
    let result = bit_xor (read_dest s d) (read_src s d) in
    write_dest (set_flags_logic s result d.operand_width) d result

-- `~val` is computed in `int`; the mask keeps its low 8 or 16 bits.
unfoldable pub exec_not : Emu86State → DecodeContext → Emu86State
exec_not s d =
    let val = read_rm s d in write_rm s d (bit_and (0xFFFF_FFFF - val) (mask d.operand_width))

unfoldable pub exec_test : Emu86State → DecodeContext → Emu86State
exec_test s d =
    let result = bit_and (read_dest s d) (read_src s d) in set_flags_logic s result d.operand_width
