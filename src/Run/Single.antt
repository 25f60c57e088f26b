-- ===== src/Run/Single.antt =====
-- `emu86_step_single` against one turn of the loop of `emu86_run`.
use huxley.Base.{
  ℕ, suc, ◌+◌, ◌<◌, ◌≡◌, ◌≢◌, refl, ap, ◌∙◌, arith, ltb, if◌then◌else◌, is_set, true, false, Option,
  some, u32,
}
use huxley.State.{Emu86State}
use huxley.Context.{DecodeContext}
use huxley.Access.{read_table_reg, read_table_sreg}
use huxley.Decode.{Emu86Tables, decode_opcode, decode_modrm, operand_segment, operand_offset}
use huxley.Decode.{resolve_operands, instruction_length, decode_instruction}
use huxley.Run.Loop.{Machine, Emu86YieldInfo, count_prefixes, poll_timer, service_pending}
use huxley.Run.Loop.{at_exit, console_full, run_loop, yield_io_needed}
use huxley.Run.Loop.{service_timer, run_step, emu86_step_single}

decode_opcode-count_prefixes :
    (s : Emu86State) (t : Emu86Tables) → decode_opcode (count_prefixes s) t ≡ decode_opcode s t
unfolding decode_opcode count_prefixes
decode_opcode-count_prefixes s t = refl

decode_modrm-count_prefixes :
    (s : Emu86State) (t : Emu86Tables) (d : DecodeContext)
    → decode_modrm (count_prefixes s) t d ≡ decode_modrm s t d
unfolding decode_modrm count_prefixes
decode_modrm-count_prefixes s t d = refl

operand_segment-count_prefixes :
    (s : Emu86State) (t : Emu86Tables) (d : DecodeContext)
    → s.seg_override_en ≢ 1
    → operand_segment (count_prefixes s) t d ≡ operand_segment s t d
unfolding operand_segment count_prefixes read_table_sreg
operand_segment-count_prefixes s t d h = ground arith

operand_offset-count_prefixes :
    (s : Emu86State) (t : Emu86Tables) (d : DecodeContext)
    → operand_offset (count_prefixes s) t d ≡ operand_offset s t d
unfolding operand_offset count_prefixes read_table_reg
operand_offset-count_prefixes s t d = refl

resolve_operands-count_prefixes :
    (s : Emu86State) (t : Emu86Tables) (d : DecodeContext)
    → s.seg_override_en ≢ 1
    → resolve_operands (count_prefixes s) t d ≡ resolve_operands s t d
unfolding resolve_operands
resolve_operands-count_prefixes s t d h =
    rw (operand_segment-count_prefixes s t d h, operand_offset-count_prefixes s t d) refl

instruction_length-count_prefixes :
    (s : Emu86State) (t : Emu86Tables) (d : DecodeContext)
    → instruction_length (count_prefixes s) t d ≡ instruction_length s t d
unfolding instruction_length count_prefixes
instruction_length-count_prefixes s t d = refl

decode_instruction-count_prefixes :
    (s : Emu86State) (t : Emu86Tables)
    → s.seg_override_en ≢ 1
    → decode_instruction (count_prefixes s) t ≡ decode_instruction s t
unfolding decode_instruction
decode_instruction-count_prefixes s t h =
    let d = decode_opcode s t in
    rw
      (
        decode_opcode-count_prefixes s t,
        decode_modrm-count_prefixes s t d,
        resolve_operands-count_prefixes s t (decode_modrm s t d) h,
        instruction_length-count_prefixes s t _,
      )
      refl

run_step-emu86_step_single :
    {H : Type 0} (t : Emu86Tables) (m : Machine H)
    → m.state.seg_override_en ≢ 1
    → let single = (emu86_step_single t m).1 in
      run_step m.state m.platform t ≡ service_timer (poll_timer single.state) single.platform
unfolding run_step emu86_step_single
run_step-emu86_step_single t m h = rw (decode_instruction-count_prefixes m.state t h) refl

-- What a turn that executed an instruction does with the machine behind it.
abbrev pub turned :
    {H : Type 0}
    → ℕ
    → Emu86Tables
    → ℕ
    → ℕ
    → Emu86YieldInfo
    → Machine H
    → Option (Emu86YieldInfo × Machine H)
turned fuel t budget cycles info next =
    if console_full next.platform
    then some (
      record info { reason = yield_io_needed; io_type = 0; cycles_used = u32 (cycles + 4) },
      next,
    )
    else run_loop fuel t budget (u32 (cycles + 4)) info next

run_loop-turned :
    {H : Type 0} (fuel : ℕ) (t : Emu86Tables) (budget cycles : ℕ) (info : Emu86YieldInfo)
    (m : Machine H)
    → ltb cycles budget ≡ true
    → at_exit m.state ≡ false
    → is_set m.state.halted ≡ false
    → service_pending m.state ≡ m.state
    → run_loop (suc fuel) t budget cycles info m
      ≡ turned fuel t budget cycles info (run_step m.state m.platform t)
unfolding run_loop
run_loop-turned fuel t budget cycles info m h stay running same = rw (h, stay, same, running) refl

-- A turn of the loop of `emu86_run` that has budget left, on a machine that is neither at 0:0 nor
-- halted, with no pending interrupt and no segment override about to run out (`seg_override_en` is not
-- 1), is `emu86_step_single` followed by the timer and keyboard service, and the yield for a console
-- that is then nearly full.
pub run_loop-emu86_step_single :
    {H : Type 0} (fuel : ℕ) (t : Emu86Tables) (budget cycles : ℕ) (info : Emu86YieldInfo)
    (m : Machine H)
    → cycles < budget
    → at_exit m.state ≡ false
    → m.state.halted ≡ 0
    → m.state.int_pending ≡ 0
    → m.state.seg_override_en ≢ 1
    → let single = (emu86_step_single t m).1 in
      let next = service_timer (poll_timer single.state) single.platform in
      run_loop (suc fuel) t budget cycles info m ≡ turned fuel t budget cycles info next
run_loop-emu86_step_single fuel t budget cycles info m h stay running quiet keep =
    let same : service_pending m.state ≡ m.state = unfold service_pending in rw quiet refl in
    run_loop-turned fuel t budget cycles info m (ground arith) stay (ground arith) same
    ∙ ap (turned fuel t budget cycles info) (run_step-emu86_step_single t m keep)
