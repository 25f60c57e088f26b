-- ===== src/Opcodes/Logic/Words.antt =====
-- The logic instructions keep the ranges of the fields.
use huxley.State.{Emu86State}
use huxley.State.Words.{IsWords}
use huxley.State.Updates.{state_words}
use huxley.Context.{DecodeContext}
use huxley.Access.Words.{access_words}
use huxley.Opcodes.Helpers.Words.{flag_words}
use huxley.Opcodes.Arithmetic.Words.{write_dest-IsWords}
use huxley.Opcodes.Logic.{exec_and, exec_or, exec_xor, exec_not, exec_test}

ruleset parts = (state_words, access_words, flag_words, write_dest-IsWords)

pub exec_and-IsWords : {s : Emu86State} (d : DecodeContext) → IsWords s → IsWords (exec_and s d)
unfolding exec_and
exec_and-IsWords d v = search (parts) depth 14

pub exec_or-IsWords : {s : Emu86State} (d : DecodeContext) → IsWords s → IsWords (exec_or s d)
unfolding exec_or
exec_or-IsWords d v = search (parts) depth 14

pub exec_xor-IsWords : {s : Emu86State} (d : DecodeContext) → IsWords s → IsWords (exec_xor s d)
unfolding exec_xor
exec_xor-IsWords d v = search (parts) depth 14

pub exec_not-IsWords : {s : Emu86State} (d : DecodeContext) → IsWords s → IsWords (exec_not s d)
unfolding exec_not
exec_not-IsWords d v = search (parts) depth 14

pub exec_test-IsWords : {s : Emu86State} (d : DecodeContext) → IsWords s → IsWords (exec_test s d)
unfolding exec_test
exec_test-IsWords d v = search (parts) depth 14

pub ruleset logic_words =
    (exec_and-IsWords, exec_or-IsWords, exec_xor-IsWords, exec_not-IsWords, exec_test-IsWords)
