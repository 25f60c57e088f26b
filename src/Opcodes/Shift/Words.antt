-- ===== src/Opcodes/Shift/Words.antt =====
-- The shifts and rotates keep the ranges of the fields.
use huxley.Base.{ℕ}
use huxley.Opcodes.Shift.{exec_shift_rotate}
use huxley.State.{Emu86State}
use huxley.State.Words.{IsWords}
use huxley.State.Updates.{state_words, if-IsWords}
use huxley.Context.{DecodeContext}
use huxley.Access.Words.{access_words}
use huxley.Opcodes.Helpers.Words.{flag_words}
use huxley.Opcodes.Shift.{exec_shl, exec_shr, exec_sar, exec_rol, exec_ror}
use huxley.Opcodes.Shift.{exec_rcl, exec_rcr}

ruleset parts = (state_words, access_words, flag_words)

pub exec_shl-IsWords :
    {s : Emu86State} (d : DecodeContext) (n1 : ℕ) → IsWords s → IsWords (exec_shl s d n1)
unfolding exec_shl
exec_shl-IsWords d n1 v = search (parts) depth 14

pub exec_shr-IsWords :
    {s : Emu86State} (d : DecodeContext) (n1 : ℕ) → IsWords s → IsWords (exec_shr s d n1)
unfolding exec_shr
exec_shr-IsWords d n1 v = search (parts) depth 14

pub exec_sar-IsWords :
    {s : Emu86State} (d : DecodeContext) (n1 : ℕ) → IsWords s → IsWords (exec_sar s d n1)
unfolding exec_sar
exec_sar-IsWords d n1 v = search (parts) depth 14

pub exec_rol-IsWords :
    {s : Emu86State} (d : DecodeContext) (n1 : ℕ) → IsWords s → IsWords (exec_rol s d n1)
unfolding exec_rol
exec_rol-IsWords d n1 v = search (parts) depth 14

pub exec_ror-IsWords :
    {s : Emu86State} (d : DecodeContext) (n1 : ℕ) → IsWords s → IsWords (exec_ror s d n1)
unfolding exec_ror
exec_ror-IsWords d n1 v = search (parts) depth 14

pub exec_rcl-IsWords :
    {s : Emu86State} (d : DecodeContext) (n1 : ℕ) → IsWords s → IsWords (exec_rcl s d n1)
unfolding exec_rcl
exec_rcl-IsWords d n1 v = search (parts) depth 14

pub exec_rcr-IsWords :
    {s : Emu86State} (d : DecodeContext) (n1 : ℕ) → IsWords s → IsWords (exec_rcr s d n1)
unfolding exec_rcr
exec_rcr-IsWords d n1 v = search (parts) depth 14

ruleset shift_words = (
  exec_shl-IsWords, exec_shr-IsWords, exec_sar-IsWords, exec_rol-IsWords, exec_ror-IsWords,
  exec_rcl-IsWords, exec_rcr-IsWords,
)

pub exec_shift_rotate-IsWords :
    {s : Emu86State} (d : DecodeContext) (n : ℕ) → IsWords s → IsWords (exec_shift_rotate s d n)
unfolding exec_shift_rotate
exec_shift_rotate-IsWords d n v = search (if-IsWords, shift_words) depth 14
