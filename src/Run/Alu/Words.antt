-- ===== src/Run/Alu/Words.antt =====
-- `exec_alu_imm` keeps the ranges of the fields.
use huxley.Base.{ℕ}
use huxley.State.{Emu86State}
use huxley.State.Words.{IsWords}
use huxley.State.Updates.{if-IsWords}
use huxley.Context.{DecodeContext}
use huxley.Access.Words.{write_rm-IsWords}
use huxley.Opcodes.Helpers.Words.{flag_words}
use huxley.Run.Alu.{exec_alu_imm}

pub exec_alu_imm-IsWords :
    {s : Emu86State} (d : DecodeContext) (op imm : ℕ)
    → IsWords s
    → IsWords (exec_alu_imm s d op imm)
unfolding exec_alu_imm
exec_alu_imm-IsWords d op imm v = search (if-IsWords, write_rm-IsWords, flag_words) depth 16
