-- ===== src/Run/Loop/Words.antt =====
-- A run keeps the ranges of the fields.
use huxley.Base.{ℕ, zero, suc, ◌+◌, ◌==◌, ◌≡◌, arith, is_set, u32, Option, none, some}
use huxley.Base.{Option-cases, Bool, true, false, if◌then◌else◌, inl, inr}
use huxley.State.{Emu86State}
use huxley.State.Words.{IsWords}
use huxley.State.Updates.{parts-IsWords, if-IsWords, set_mem-IsWords, set_ip-IsWords}
use huxley.Context.{DecodeContext}
use huxley.Platform.{Emu86Platform, ringbuf_read}
use huxley.Decode.{Emu86Tables}
use huxley.Opcodes.Control.{pc_interrupt}
use huxley.Opcodes.Control.Words.{pc_interrupt-IsWords}
use huxley.Run.Dispatch.{execute_instruction}
use huxley.Run.Dispatch.Words.{execute_instruction-IsWords}
use huxley.Run.Loop.{Emu86YieldInfo, Machine, service_pending, count_prefixes, service_trap}
use huxley.Run.Loop.{
  poll_timer, poll_keyboard, service_timer, execute_and_advance, run_step, run_loop,
}
use huxley.Run.Loop.{emu86_run, emu86_step_single}

service_pending-IsWords : {s : Emu86State} → IsWords s → IsWords (service_pending s)
unfolding service_pending
service_pending-IsWords {s} v =
    let w = pc_interrupt-IsWords s.int_vector v in
    if-IsWords _ (parts-IsWords w.regs w.sregs w.mem w.io_ports (omega arith) w.devices) v

count_prefixes-IsWords : {s : Emu86State} → IsWords s → IsWords (count_prefixes s)
unfolding count_prefixes
count_prefixes-IsWords v = parts-IsWords v.regs v.sregs v.mem v.io_ports (omega arith) v.devices

service_trap-IsWords : {s : Emu86State} → IsWords s → IsWords (service_trap s)
unfolding service_trap
service_trap-IsWords {s} v =
    let w = pc_interrupt-IsWords 1 v in
    let s1 = if is_set s.trap_flag then record (pc_interrupt s 1) { trap_flag = 0 } else s in
    let v1 : IsWords s1 =
      if-IsWords (is_set s.trap_flag)
        (parts-IsWords w.regs w.sregs w.mem w.io_ports (omega arith) w.devices) v in
    if-IsWords _ (parts-IsWords v1.regs v1.sregs v1.mem v1.io_ports (omega arith) v1.devices) v1

poll_timer-IsWords : {s : Emu86State} → IsWords s → IsWords (poll_timer s)
unfolding poll_timer
poll_timer-IsWords v =
    if-IsWords _ (parts-IsWords v.regs v.sregs v.mem v.io_ports (omega arith) v.devices) v

module _ {H : Type 0} where
  if-IsWords_machine :
      (b : Bool) (m n : Machine H)
      → IsWords m.state
      → IsWords n.state
      → IsWords (if b then m else n).state
  if-IsWords_machine true m n v w = v
  if-IsWords_machine false m n v w = w

  poll_keyboard-IsWords :
      {s : Emu86State} (p : Emu86Platform H) → IsWords s → IsWords (poll_keyboard s p).state
  unfolding poll_keyboard
  poll_keyboard-IsWords {s} p v = elim (Option-cases (ringbuf_read p.console_in)) [
    | inl e ↦ rw (e, poll_keyboard) v
    | inr ((key, rb), e) ↦
        let v1 = set_mem-IsWords 0x4A6 key v in
        rw (e, poll_keyboard)
          (pc_interrupt-IsWords 7 (
            if-IsWords (key == 0x1B)
              (parts-IsWords v1.regs v1.sregs v1.mem v1.io_ports (omega arith) v1.devices) v1))
  ]

  service_timer-IsWords :
      {s : Emu86State} (p : Emu86Platform H) → IsWords s → IsWords (service_timer s p).state
  unfolding service_timer
  service_timer-IsWords {s} p v =
      let w = pc_interrupt-IsWords 0xA v in
      let v1 : IsWords (record (pc_interrupt s 0xA) { int8_asap = 0 }) =
        parts-IsWords w.regs w.sregs w.mem w.io_ports (omega arith) w.devices in
      search (if-IsWords_machine, poll_keyboard-IsWords)

  execute_and_advance-IsWords :
      {s : Emu86State} (p : Emu86Platform H) (t : Emu86Tables) (d : DecodeContext)
      → IsWords s
      → IsWords (execute_and_advance s p t d).state
  unfolding execute_and_advance
  execute_and_advance-IsWords {s} p t d v =
      let v1 = execute_instruction-IsWords p d v t in
      let v2 =
        if-IsWords (is_set (execute_instruction s p t d).0.context.ip_changed) v1
          (set_ip-IsWords _ v1) in
      parts-IsWords v2.regs v2.sregs v2.mem v2.io_ports (omega arith) v2.devices

  run_step-IsWords :
      {s : Emu86State} (p : Emu86Platform H) (t : Emu86Tables)
      → IsWords s
      → IsWords (run_step s p t).state
  unfolding run_step
  run_step-IsWords p t v = service_timer-IsWords _ (
      poll_timer-IsWords
        (service_trap-IsWords (execute_and_advance-IsWords p t _ (count_prefixes-IsWords v))))

  -- One step of `emu86_step_single` on a well-formed state leaves a well-formed state.
  pub emu86_step_single-IsWords :
      (t : Emu86Tables) (m : Machine H) → IsWords m.state → IsWords (emu86_step_single t m).1.state
  unfolding emu86_step_single
  emu86_step_single-IsWords t m v =
      service_trap-IsWords (execute_and_advance-IsWords m.platform t _ (count_prefixes-IsWords v))

  -- Of the machine that a run leaves.
  abbrev Leaves : Option (Emu86YieldInfo × Machine H) → Type 0
  Leaves none = Unit {0}
  Leaves (some r) = IsWords r.1.state

  if-Leaves :
      (b : Bool) (o o' : Option (Emu86YieldInfo × Machine H))
      → Leaves o
      → Leaves o'
      → Leaves (if b then o else o')
  if-Leaves true o o' v w = v
  if-Leaves false o o' v w = w

  run_loop-Leaves :
      (fuel : ℕ) (t : Emu86Tables) (budget cycles : ℕ) (info : Emu86YieldInfo) (m : Machine H)
      → IsWords m.state
      → Leaves (run_loop fuel t budget cycles info m)
  unfolding run_loop
  run_loop-Leaves zero t budget cycles info m v = tt
  run_loop-Leaves (suc fuel) t budget cycles info m v =
      let v1 = service_pending-IsWords v in
      let v2 = run_step-IsWords m.platform t v1 in
      let n = run_step (service_pending m.state) m.platform t in
      let rest = run_loop-Leaves fuel t budget (u32 (cycles + 4)) info n v2 in
      search (if-Leaves) depth 12

  -- A run that starts in a well-formed state leaves one, whatever the program in memory, the
  -- tables, the host's answers, the budget and the fuel: every field keeps the range of its type.
  pub emu86_run-IsWords :
      (fuel : ℕ) (t : Emu86Tables) (budget : ℕ) (info info' : Emu86YieldInfo) (m m' : Machine H)
      → IsWords m.state
      → emu86_run fuel t budget info m ≡ some (info', m')
      → IsWords m'.state
  unfolding emu86_run
  emu86_run-IsWords fuel t budget info info' m m' v e =
      rw e at (run_loop-Leaves fuel t budget 0 info m v)
