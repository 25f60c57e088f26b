-- ===== src/Run/Loop.antt =====
-- `emu86_run` and `emu86_step_single` of run.c, and the result of a run (run.h).
pub mod Words
pub mod Console
use huxley.Base.{ℕ, zero, suc, ◌+◌, ◌-◌, ◌*◌, ◌/◌, ◌%◌, bit_and, ltb, ◌==◌, ◌&&◌, Bool, is_set}
use huxley.Base.{if◌then◌else◌, Option, none, some, u32, u64}
use huxley.State.{Emu86State, sreg_cs, set_ip, set_mem, flag_tf, flag_if}
use huxley.Context.{DecodeContext}
use huxley.Platform.{Emu86Platform, ringbuf_available, ringbuf_read}
use huxley.Decode.{Emu86Tables, decode_instruction}
use huxley.Opcodes.Control.{pc_interrupt}
use huxley.Run.Dispatch.{execute_instruction}

abbrev pub yield_budget : ℕ
yield_budget = 0

abbrev pub yield_halted : ℕ
yield_halted = 1

abbrev pub yield_io_needed : ℕ
yield_io_needed = 2

abbrev pub yield_exit : ℕ
yield_exit = 5

pub record Emu86YieldInfo : Type 0 where
  pub reason : ℕ
  pub cycles_used : ℕ
  pub io_type : ℕ
  pub io_port : ℕ

-- Everything that a run changes.
pub record Machine (H : Type 0) : Type 0 where
  pub state : Emu86State
  pub platform : Emu86Platform H

abbrev pub machine : {H : Type 0} → Emu86State → Emu86Platform H → Machine H
machine s p = record { state = s; platform = p }

-- `seg_override_en == 0 && rep_override_en == 0`: no prefix is waiting for its instruction.
abbrev pub no_prefix : Emu86State → Bool
no_prefix s = s.seg_override_en == 0 && s.rep_override_en == 0

abbrev pub interrupts_enabled : Emu86State → Bool
interrupts_enabled s = is_set (bit_and s.flags flag_if)

-- Step 2 of the loop: a pending hardware interrupt.
unfoldable pub service_pending : Emu86State → Emu86State
service_pending s =
    if is_set s.int_pending && (interrupts_enabled s && no_prefix s)
    then record (pc_interrupt s s.int_vector) { int_pending = 0 }
    else s

-- Step 4: the prefix counters.
unfoldable pub count_prefixes : Emu86State → Emu86State
count_prefixes s = record s {
  seg_override_en = s.seg_override_en - 1;
  rep_override_en = s.rep_override_en - 1;
}

-- Step 9: the trap flag.
unfoldable pub service_trap : Emu86State → Emu86State
service_trap s =
    let s1 = if is_set s.trap_flag then record (pc_interrupt s 1) { trap_flag = 0 } else s in
    if is_set (bit_and s1.flags flag_tf) then record s1 { trap_flag = 1 } else s1

-- Step 10: every 20000 instructions a timer tick is due.
unfoldable pub poll_timer : Emu86State → Emu86State
poll_timer s = if s.inst_count % 20000 == 0 then record s { int8_asap = 1 } else s

-- Step 1: CS:IP is 0000:0000.
abbrev pub at_exit : Emu86State → Bool
at_exit s = s.sregs sreg_cs == 0 && s.ip == 0

module _ {H : Type 0} where
  -- A key from the console, if one waits: it goes to the BIOS data area and raises interrupt 7.
  unfoldable pub poll_keyboard : Emu86State → Emu86Platform H → Machine H
  poll_keyboard s p = elim (ringbuf_read p.console_in) [
    | none ↦ machine s p
    | some (key, rb) ↦
        let s1 = set_mem s 0x4A6 key in
        let s2 = if key == 0x1B then record s1 { int8_asap = 1 } else s1 in
        machine (pc_interrupt s2 7) (record p { console_in = rb })
  ]

  -- The pending timer interrupt, and the keyboard behind it.
  unfoldable pub service_timer : Emu86State → Emu86Platform H → Machine H
  service_timer s p =
      let s1 = record (pc_interrupt s 0xA) { int8_asap = 0 } in
      if is_set s.int8_asap && (interrupts_enabled s && no_prefix s)
      then (if p.console_in.attached then poll_keyboard s1 p else machine s1 p)
      else machine s p

  -- Steps 6 and 7, and the count of instructions, for a decoded instruction: what the loop and
  -- `emu86_step_single` share.
  unfoldable pub execute_and_advance :
      Emu86State → Emu86Platform H → Emu86Tables → DecodeContext → Machine H
  execute_and_advance s p t d =
      let (e, p1) = execute_instruction s p t d in
      let s1 = e.state in
      let s2 =
        if is_set e.context.ip_changed then s1 else set_ip s1 (s1.ip + e.context.inst_length) in
      machine (record s2 { inst_count = u64 (s2.inst_count + 1) }) p1

  -- Steps 4 to 10, from the prefix counters to the timer.
  unfoldable pub run_step : Emu86State → Emu86Platform H → Emu86Tables → Machine H
  run_step s p t =
      let s1 = count_prefixes s in
      let m = execute_and_advance s1 p t (decode_instruction s1 t) in
      service_timer (poll_timer (service_trap m.state)) m.platform

  -- Step 11: the console buffer is filled to more than three quarters. `size * 3` is a `uint32_t`.
  abbrev pub console_full : Emu86Platform H → Bool
  console_full p =
      p.console_out.attached
      && ltb (u32 (p.console_out.size * 3) / 4) (ringbuf_available p.console_out)

  -- The loop, at `cycles` so far. `none`: the fuel ran out before the loop ended.
  unfoldable pub run_loop :
      ℕ → Emu86Tables → ℕ → ℕ → Emu86YieldInfo → Machine H → Option (Emu86YieldInfo × Machine H)
  run_loop zero t budget cycles info m = none
  run_loop (suc fuel) t budget cycles info m =
      let s1 = service_pending m.state in
      let m2 = run_step s1 m.platform t in
      let cycles2 = u32 (cycles + 4) in
      let rest = run_loop fuel t budget cycles2 info m2 in
      if ltb cycles budget
      then (if at_exit m.state
          then some (record info { reason = yield_exit; cycles_used = cycles }, m)
          else if is_set s1.halted
          then some
              (record info { reason = yield_halted; cycles_used = cycles }, machine s1 m.platform)
          else if console_full m2.platform
          then some
              (record info { reason = yield_io_needed; io_type = 0; cycles_used = cycles2 }, m2)
          else rest)
      else some (record info { reason = yield_budget; cycles_used = cycles }, m)

  unfoldable pub emu86_run :
      ℕ → Emu86Tables → ℕ → Emu86YieldInfo → Machine H → Option (Emu86YieldInfo × Machine H)
  emu86_run fuel t budget info m = run_loop fuel t budget 0 info m

  -- One instruction, decoded before the prefix counters are counted down. Returns the cycles too.
  unfoldable pub emu86_step_single : Emu86Tables → Machine H → ℕ × Machine H
  emu86_step_single t m =
      let d = decode_instruction m.state t in
      let m1 = execute_and_advance (count_prefixes m.state) m.platform t d in
      (4, machine (service_trap m1.state) m1.platform)
