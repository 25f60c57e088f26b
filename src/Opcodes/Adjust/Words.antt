-- ===== src/Opcodes/Adjust/Words.antt =====
-- The decimal adjustments keep the ranges of the fields.
use huxley.Base.{ℕ}
use huxley.State.{Emu86State}
use huxley.State.Words.{IsWords}
use huxley.State.Updates.{state_words}
use huxley.Access.Words.{access_words}
use huxley.Opcodes.Helpers.Words.{flag_words}
use huxley.Opcodes.Adjust.{exec_daa, exec_das, exec_aaa, exec_aas, exec_aam}
use huxley.Opcodes.Adjust.{exec_aad}

ruleset parts = (state_words, access_words, flag_words)

pub exec_daa-IsWords : {s : Emu86State} → IsWords s → IsWords (exec_daa s)
unfolding exec_daa
exec_daa-IsWords v = search (parts) depth 14

pub exec_das-IsWords : {s : Emu86State} → IsWords s → IsWords (exec_das s)
unfolding exec_das
exec_das-IsWords v = search (parts) depth 14

pub exec_aaa-IsWords : {s : Emu86State} → IsWords s → IsWords (exec_aaa s)
unfolding exec_aaa
exec_aaa-IsWords v = search (parts) depth 14

pub exec_aas-IsWords : {s : Emu86State} → IsWords s → IsWords (exec_aas s)
unfolding exec_aas
exec_aas-IsWords v = search (parts) depth 14

pub exec_aam-IsWords : {s : Emu86State} (n1 : ℕ) → IsWords s → IsWords (exec_aam s n1)
unfolding exec_aam
exec_aam-IsWords n1 v = search (parts) depth 14

pub exec_aad-IsWords : {s : Emu86State} (n1 : ℕ) → IsWords s → IsWords (exec_aad s n1)
unfolding exec_aad
exec_aad-IsWords n1 v = search (parts) depth 14

pub ruleset adjust_words = (
  exec_daa-IsWords, exec_das-IsWords, exec_aaa-IsWords, exec_aas-IsWords, exec_aam-IsWords,
  exec_aad-IsWords,
)
