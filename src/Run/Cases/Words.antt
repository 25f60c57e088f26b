-- ===== src/Run/Cases/Words.antt =====
-- The cases of the dispatch keep the ranges of the fields.
use huxley.Base.{ℕ, ltb, arith, is_set}
use huxley.State.{Emu86State}
use huxley.State.Words.{IsWords}
use huxley.State.Updates.{
  state_words, parts-IsWords, if-IsWords, set_ip-IsWords, set_port-IsWords, set_mem-IsWords,
}
use huxley.State.Updates.{
  set_seg_override_en-IsWords, set_rep_override_en-IsWords, set_spkr_en-IsWords,
}
use huxley.Context.{DecodeContext}
use huxley.Access.Words.{write_reg16-IsWords}
use huxley.Decode.{Emu86Tables}
use huxley.Opcodes.Helpers.Words.{flag_words, update_flag-IsWords}
use huxley.Opcodes.Arithmetic.Words.{
  exec_inc-IsWords, exec_dec-IsWords, exec_neg-IsWords, exec_mul-IsWords, exec_imul-IsWords,
  exec_div-IsWords, exec_idiv-IsWords,
}
use huxley.Opcodes.Adjust.Words.{adjust_words}
use huxley.Opcodes.Logic.Words.{logic_words}
use huxley.Opcodes.Shift.Words.{exec_shift_rotate-IsWords}
use huxley.Opcodes.Transfer.Words.{transfer_words}
use huxley.Opcodes.FlagsIo.Words.{
  flags_io_words, exec_rep_prefix-IsWords, exec_segment_override-IsWords,
}
use huxley.Opcodes.Control.Words.{control_words, pc_interrupt-IsWords, if-IsWords_state}
use huxley.Run.Alu.Words.{exec_alu_imm-IsWords}
use huxley.Run.Cases.{divide_error, divided, case_mov_reg_imm, case_inc_dec_reg, case_group_fe}
use huxley.Run.Cases.{
  test_rm_imm, case_group_f6, case_alu_acc_imm, case_alu_rm_imm, load_effective_address,
}
use huxley.Run.Cases.{case_sreg_lea_pop, case_shift, case_loop, case_jmp_call, case_return}
use huxley.Run.Cases.{case_in, pit_rate, case_out, case_rep, case_segment}
use huxley.Run.Cases.{case_aam, case_flag, case_test_acc}

pub divide_error-IsWords :
    {s : Emu86State} (d : DecodeContext) → IsWords s → IsWords (divide_error s d).state
unfolding divide_error
divide_error-IsWords d v = search (set_ip-IsWords, pc_interrupt-IsWords) depth 14

pub divided-IsWords :
    (r : ℕ × Emu86State) (d : DecodeContext) → IsWords r.1 → IsWords (divided r d).state
unfolding divided
divided-IsWords r d v = search (if-IsWords_state, divide_error-IsWords)

pub case_mov_reg_imm-IsWords :
    {s : Emu86State} (t : Emu86Tables) (d : DecodeContext)
    → IsWords s
    → IsWords (case_mov_reg_imm s t d).state
unfolding case_mov_reg_imm
case_mov_reg_imm-IsWords t d v = search (transfer_words) depth 14

pub case_inc_dec_reg-IsWords :
    {s : Emu86State} (d : DecodeContext) → IsWords s → IsWords (case_inc_dec_reg s d).state
unfolding case_inc_dec_reg
case_inc_dec_reg-IsWords d v = search (if-IsWords, exec_inc-IsWords, exec_dec-IsWords) depth 14

pub case_group_fe-IsWords :
    {s : Emu86State} (d : DecodeContext) → IsWords s → IsWords (case_group_fe s d).state
unfolding case_group_fe
case_group_fe-IsWords d v =
    search (if-IsWords_state, exec_inc-IsWords, exec_dec-IsWords, control_words, transfer_words)
      depth 14

pub test_rm_imm-IsWords :
    {s : Emu86State} (d : DecodeContext) → IsWords s → IsWords (test_rm_imm s d).state
unfolding test_rm_imm
test_rm_imm-IsWords d v = search (flag_words) depth 14

pub case_group_f6-IsWords :
    {s : Emu86State} (d : DecodeContext) → IsWords s → IsWords (case_group_f6 s d).state
unfolding case_group_f6
case_group_f6-IsWords d v =
    search
      (
        if-IsWords_state, test_rm_imm-IsWords, logic_words, exec_neg-IsWords, exec_mul-IsWords,
        exec_imul-IsWords, divided-IsWords, exec_div-IsWords, exec_idiv-IsWords,
      )
      depth 14

pub case_alu_acc_imm-IsWords :
    {s : Emu86State} (d : DecodeContext) → IsWords s → IsWords (case_alu_acc_imm s d).state
unfolding case_alu_acc_imm
case_alu_acc_imm-IsWords d v = search (exec_alu_imm-IsWords) depth 14

pub case_alu_rm_imm-IsWords :
    {s : Emu86State} (d : DecodeContext) → IsWords s → IsWords (case_alu_rm_imm s d).state
unfolding case_alu_rm_imm
case_alu_rm_imm-IsWords d v = search (exec_alu_imm-IsWords) depth 14

load_effective_address-IsWords :
    {s : Emu86State} (t : Emu86Tables) (d : DecodeContext)
    → IsWords s
    → IsWords (load_effective_address s t d)
unfolding load_effective_address
load_effective_address-IsWords {s} t d v =
    set_seg_override_en-IsWords 1 (omega arith)
      (if-IsWords (ltb d.mode 3) (write_reg16-IsWords d.reg _ v) v)

pub case_sreg_lea_pop-IsWords :
    {s : Emu86State} (t : Emu86Tables) (d : DecodeContext)
    → IsWords s
    → IsWords (case_sreg_lea_pop s t d).state
unfolding case_sreg_lea_pop
case_sreg_lea_pop-IsWords t d v =
    search (if-IsWords_state, transfer_words, load_effective_address-IsWords) depth 14

pub case_shift-IsWords :
    {s : Emu86State} (d : DecodeContext) → IsWords s → IsWords (case_shift s d).state
unfolding case_shift
case_shift-IsWords d v = search (exec_shift_rotate-IsWords) depth 14

pub case_loop-IsWords :
    {s : Emu86State} (d : DecodeContext) → IsWords s → IsWords (case_loop s d).state
unfolding case_loop
case_loop-IsWords d v = search (if-IsWords_state, control_words) depth 14

pub case_jmp_call-IsWords :
    {s : Emu86State} (d : DecodeContext) → IsWords s → IsWords (case_jmp_call s d).state
unfolding case_jmp_call
case_jmp_call-IsWords d v = search (if-IsWords_state, control_words) depth 14

pub case_return-IsWords :
    {s : Emu86State} (d : DecodeContext) → IsWords s → IsWords (case_return s d).state
unfolding case_return
case_return-IsWords d v = search (if-IsWords_state, control_words) depth 14

pub case_in-IsWords : {s : Emu86State} (d : DecodeContext) → IsWords s → IsWords (case_in s d)
unfolding case_in
case_in-IsWords d v = search (state_words, flags_io_words) depth 14

pit_rate-IsWords : {s : Emu86State} (port : ℕ) → IsWords s → IsWords (pit_rate s port)
unfolding pit_rate
pit_rate-IsWords port v =
    set_mem-IsWords _ _ (parts-IsWords v.regs v.sregs v.mem v.io_ports (omega arith) v.devices)

pub case_aam-IsWords :
    {s : Emu86State} (d : DecodeContext) → IsWords s → IsWords (case_aam s d).state
unfolding case_aam
case_aam-IsWords d v = search (if-IsWords_state, divide_error-IsWords, adjust_words) depth 14

pub case_flag-IsWords : {s : Emu86State} (d : DecodeContext) → IsWords s → IsWords (case_flag s d)
unfolding case_flag
case_flag-IsWords d v = search (if-IsWords, update_flag-IsWords) depth 14

pub case_test_acc-IsWords :
    {s : Emu86State} (d : DecodeContext) → IsWords s → IsWords (case_test_acc s d)
unfolding case_test_acc
case_test_acc-IsWords d v = search (flag_words) depth 14

pub case_out-IsWords : {s : Emu86State} (d : DecodeContext) → IsWords s → IsWords (case_out s d)
unfolding case_out
case_out-IsWords {s} d v =
    let v1 = set_port-IsWords _ _ v in
    let v2 = if-IsWords (is_set d.operand_width) (set_port-IsWords _ _ v1) v1 in
    let v3 = if-IsWords _ (set_spkr_en-IsWords _ (omega arith) v2) v2 in
    if-IsWords _ (pit_rate-IsWords _ v3) v3

pub case_rep-IsWords : {s : Emu86State} (d : DecodeContext) → IsWords s → IsWords (case_rep s d)
unfolding case_rep
case_rep-IsWords d v =
    let v1 = exec_rep_prefix-IsWords d.operand_width v in
    if-IsWords _ (set_seg_override_en-IsWords _ (omega arith) v1) v1

pub case_segment-IsWords :
    {s : Emu86State} (d : DecodeContext) → IsWords s → IsWords (case_segment s d)
unfolding case_segment
case_segment-IsWords d v =
    let v1 = exec_segment_override-IsWords _ v in
    if-IsWords _ (set_rep_override_en-IsWords _ (omega arith) v1) v1

pub ruleset case_words = (
  case_mov_reg_imm-IsWords, case_inc_dec_reg-IsWords, case_group_fe-IsWords, case_group_f6-IsWords,
  case_alu_acc_imm-IsWords, case_alu_rm_imm-IsWords, case_sreg_lea_pop-IsWords, case_shift-IsWords,
  case_loop-IsWords, case_jmp_call-IsWords, case_return-IsWords, case_in-IsWords, case_out-IsWords,
  case_rep-IsWords, case_segment-IsWords, case_aam-IsWords, case_flag-IsWords,
  case_test_acc-IsWords,
)
