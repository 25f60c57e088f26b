-- ===== src/Opcodes/Control/Words.antt =====
-- Interrupts, jumps, calls and returns keep the ranges of the fields.
use huxley.Base.{ℕ, Bool, true, false, if◌then◌else◌}
use huxley.Opcodes.Control.{Executed}
use huxley.State.{Emu86State}
use huxley.State.Words.{IsWords}
use huxley.State.Updates.{state_words}
use huxley.Context.{DecodeContext}
use huxley.Access.Words.{access_words}
use huxley.Opcodes.Helpers.Words.{flag_words}
use huxley.Opcodes.Transfer.Words.{stack_push-IsWords, stack_pop-IsWords, flags_unpack-IsWords}
use huxley.Opcodes.Control.{pc_interrupt, exec_jmp_short, exec_jmp_near, exec_jmp_far, exec_jmp_rm}
use huxley.Opcodes.Control.{exec_jmp_far_mem, exec_jcc, exec_call_near, exec_call_far, exec_call_rm}
use huxley.Opcodes.Control.{
  exec_call_far_mem, exec_ret_near, exec_ret_near_imm, exec_retf, exec_retf_imm,
}
use huxley.Opcodes.Control.{exec_int, exec_int3, exec_into, exec_iret, exec_loop}
use huxley.Opcodes.Control.{exec_loopz, exec_loopnz, exec_jcxz}

ruleset pushes = (
  state_words, access_words, flag_words, stack_push-IsWords, stack_pop-IsWords,
  flags_unpack-IsWords,
)

pub pc_interrupt-IsWords : {s : Emu86State} (n1 : ℕ) → IsWords s → IsWords (pc_interrupt s n1)
unfolding pc_interrupt
pc_interrupt-IsWords n1 v = search (pushes) depth 14

-- Of the state beside a decode context.
pub if-IsWords_state :
    (b : Bool) (e f : Executed)
    → IsWords e.state
    → IsWords f.state
    → IsWords (if b then e else f).state
if-IsWords_state true e f v w = v
if-IsWords_state false e f v w = w

ruleset parts = (pushes, pc_interrupt-IsWords, if-IsWords_state)

pub exec_jmp_short-IsWords :
    {s : Emu86State} (d : DecodeContext) → IsWords s → IsWords (exec_jmp_short s d).state
unfolding exec_jmp_short
exec_jmp_short-IsWords d v = search (parts) depth 14

pub exec_jmp_near-IsWords :
    {s : Emu86State} (d : DecodeContext) → IsWords s → IsWords (exec_jmp_near s d).state
unfolding exec_jmp_near
exec_jmp_near-IsWords d v = search (parts) depth 14

pub exec_jmp_far-IsWords :
    {s : Emu86State} (d : DecodeContext) → IsWords s → IsWords (exec_jmp_far s d).state
unfolding exec_jmp_far
exec_jmp_far-IsWords d v = search (parts) depth 14

pub exec_jmp_rm-IsWords :
    {s : Emu86State} (d : DecodeContext) → IsWords s → IsWords (exec_jmp_rm s d).state
unfolding exec_jmp_rm
exec_jmp_rm-IsWords d v = search (parts) depth 14

pub exec_jmp_far_mem-IsWords :
    {s : Emu86State} (d : DecodeContext) → IsWords s → IsWords (exec_jmp_far_mem s d).state
unfolding exec_jmp_far_mem
exec_jmp_far_mem-IsWords d v = search (parts) depth 14

pub exec_jcc-IsWords :
    {s : Emu86State} (d : DecodeContext) → IsWords s → IsWords (exec_jcc s d).state
unfolding exec_jcc
exec_jcc-IsWords d v = search (parts) depth 14

pub exec_call_near-IsWords :
    {s : Emu86State} (d : DecodeContext) → IsWords s → IsWords (exec_call_near s d).state
unfolding exec_call_near
exec_call_near-IsWords d v = search (parts) depth 14

pub exec_call_far-IsWords :
    {s : Emu86State} (d : DecodeContext) → IsWords s → IsWords (exec_call_far s d).state
unfolding exec_call_far
exec_call_far-IsWords d v = search (parts) depth 14

pub exec_call_rm-IsWords :
    {s : Emu86State} (d : DecodeContext) → IsWords s → IsWords (exec_call_rm s d).state
unfolding exec_call_rm
exec_call_rm-IsWords d v = search (parts) depth 14

pub exec_call_far_mem-IsWords :
    {s : Emu86State} (d : DecodeContext) → IsWords s → IsWords (exec_call_far_mem s d).state
unfolding exec_call_far_mem
exec_call_far_mem-IsWords d v = search (parts) depth 14

pub exec_ret_near-IsWords :
    {s : Emu86State} (d : DecodeContext) → IsWords s → IsWords (exec_ret_near s d).state
unfolding exec_ret_near
exec_ret_near-IsWords d v = search (parts) depth 14

pub exec_ret_near_imm-IsWords :
    {s : Emu86State} (d : DecodeContext) → IsWords s → IsWords (exec_ret_near_imm s d).state
unfolding exec_ret_near_imm
exec_ret_near_imm-IsWords d v = search (parts) depth 14

pub exec_retf-IsWords :
    {s : Emu86State} (d : DecodeContext) → IsWords s → IsWords (exec_retf s d).state
unfolding exec_retf
exec_retf-IsWords d v = search (parts) depth 14

pub exec_retf_imm-IsWords :
    {s : Emu86State} (d : DecodeContext) → IsWords s → IsWords (exec_retf_imm s d).state
unfolding exec_retf_imm
exec_retf_imm-IsWords d v = search (parts) depth 14

pub exec_int-IsWords :
    {s : Emu86State} (d : DecodeContext) (n1 : ℕ) → IsWords s → IsWords (exec_int s d n1).state
unfolding exec_int
exec_int-IsWords d n1 v = search (parts) depth 14

pub exec_int3-IsWords :
    {s : Emu86State} (d : DecodeContext) → IsWords s → IsWords (exec_int3 s d).state
unfolding exec_int3
exec_int3-IsWords d v = search (parts, exec_int-IsWords) depth 14

pub exec_into-IsWords :
    {s : Emu86State} (d : DecodeContext) → IsWords s → IsWords (exec_into s d).state
unfolding exec_into
exec_into-IsWords d v = search (parts, exec_int-IsWords) depth 14

pub exec_iret-IsWords :
    {s : Emu86State} (d : DecodeContext) → IsWords s → IsWords (exec_iret s d).state
unfolding exec_iret
exec_iret-IsWords d v = search (parts) depth 14

pub exec_loop-IsWords :
    {s : Emu86State} (d : DecodeContext) → IsWords s → IsWords (exec_loop s d).state
unfolding exec_loop
exec_loop-IsWords d v = search (parts) depth 14

pub exec_loopz-IsWords :
    {s : Emu86State} (d : DecodeContext) → IsWords s → IsWords (exec_loopz s d).state
unfolding exec_loopz
exec_loopz-IsWords d v = search (parts) depth 14

pub exec_loopnz-IsWords :
    {s : Emu86State} (d : DecodeContext) → IsWords s → IsWords (exec_loopnz s d).state
unfolding exec_loopnz
exec_loopnz-IsWords d v = search (parts) depth 14

pub exec_jcxz-IsWords :
    {s : Emu86State} (d : DecodeContext) → IsWords s → IsWords (exec_jcxz s d).state
unfolding exec_jcxz
exec_jcxz-IsWords d v = search (parts) depth 14

pub ruleset control_words = (
  pc_interrupt-IsWords, exec_jmp_short-IsWords, exec_jmp_near-IsWords, exec_jmp_far-IsWords,
  exec_jmp_rm-IsWords, exec_jmp_far_mem-IsWords, exec_jcc-IsWords, exec_call_near-IsWords,
  exec_call_far-IsWords, exec_call_rm-IsWords, exec_call_far_mem-IsWords, exec_ret_near-IsWords,
  exec_ret_near_imm-IsWords, exec_retf-IsWords, exec_retf_imm-IsWords, exec_int-IsWords,
  exec_int3-IsWords, exec_into-IsWords, exec_iret-IsWords, exec_loop-IsWords, exec_loopz-IsWords,
  exec_loopnz-IsWords, exec_jcxz-IsWords,
)
