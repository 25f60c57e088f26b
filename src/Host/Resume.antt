-- ===== src/Host/Resume.antt =====
-- packages/emu86/src/hosts/linux/main.c: a halted processor goes on.
use huxley.Base.{ℕ, suc, ◌+◌, ◌≡◌, ◌<◌, refl, ◌∙◌, arith, ltb, ◌&&◌, if◌then◌else◌}
use huxley.Base.{Bool, true, false, Bool-cases, inl, inr, Option, some, List, [], ◌++◌}
use huxley.State.{Emu86State}
use huxley.Platform.{Emu86RingBuf}
use huxley.Platform.Wrap.{IsRing}
use huxley.Platform.Fifo.{contents, ringbuf_available-contents}
use huxley.Access.{mem_write16}
use huxley.Decode.{Emu86Tables}
use huxley.Opcodes.Transfer.{stack_push}
use huxley.Opcodes.Helpers.{clear_flag}
use huxley.Opcodes.Control.{pc_interrupt}
use huxley.Run.Loop.{
  Machine, machine, Emu86YieldInfo, emu86_run, run_loop, run_step, service_pending, at_exit,
  console_full, no_prefix, interrupts_enabled,
}
use huxley.Run.Loop.{yield_halted, yield_io_needed}
use huxley.Host.{Session, wake, type_keys, flush, resume, handle_yield, flush_console}
use huxley.Host.Console.{flush_console-contents}

stack_push-halted : (s : Emu86State) (n : ℕ) → (stack_push s n).halted ≡ s.halted
unfolding stack_push mem_write16
stack_push-halted s n = refl

clear_flag-halted : (s : Emu86State) (n : ℕ) → (clear_flag s n).halted ≡ s.halted
unfolding clear_flag
clear_flag-halted s n = refl

pc_interrupt-halted : (s : Emu86State) (n : ℕ) → (pc_interrupt s n).halted ≡ s.halted
unfolding pc_interrupt
pc_interrupt-halted s n =
    clear_flag-halted _ _
    ∙ clear_flag-halted _ _
    ∙ stack_push-halted _ _
    ∙ stack_push-halted _ _
    ∙ stack_push-halted _ _

service_pending-wake : (s : Emu86State) → (service_pending (wake s)).halted ≡ 0
unfolding service_pending wake
service_pending-wake s = elim (Bool-cases (interrupts_enabled s && no_prefix s)) [
  | inl e ↦ rw e (pc_interrupt-halted (wake s) 0x0A)
  | inr e ↦ rw e refl
]

wake_stays : (s : Emu86State) → at_exit s ≡ false → at_exit (wake s) ≡ false
unfolding wake
wake_stays s h = h

module _ {H : Type 0} where
  -- The outcome of a run that executes an instruction first.
  abbrev pub stepped :
      ℕ → Emu86Tables → ℕ → Emu86YieldInfo → Machine H → Option (Emu86YieldInfo × Machine H)
  stepped fuel t budget info n =
      if console_full n.platform
      then some (record info { reason = yield_io_needed; io_type = 0; cycles_used = 4 }, n)
      else run_loop fuel t budget 4 info n

  emu86_run-wake :
      (fuel : ℕ) (t : Emu86Tables) (budget : ℕ) (info : Emu86YieldInfo) (m : Machine H)
      → 0 < budget
      → at_exit m.state ≡ false
      → emu86_run (suc fuel) t budget info (machine (wake m.state) m.platform)
        ≡ stepped fuel t budget info (run_step (service_pending (wake m.state)) m.platform t)
  unfolding emu86_run run_loop
  emu86_run-wake fuel t budget info m h stay =
      let some_budget : ltb 0 budget ≡ true = ground arith in
      rw (some_budget, wake_stays m.state stay, service_pending-wake m.state) refl

  -- The session after the console was flushed.
  abbrev pub after_flush : Session H → Emu86RingBuf → Session H
  after_flush x rb = record x {
    machine = machine x.machine.state (record x.machine.platform { console_out = rb });
    output = x.output ++ contents x.machine.platform.console_out;
  }

  flush-some :
      (buf : ℕ → ℕ) (x : Session H) (rb : Emu86RingBuf) (text : List ℕ)
      → flush_console
          (x.machine.platform.console_out.size + 1)
          buf
          x.machine.platform.console_out
          x.output
        ≡ some (rb, text)
      → flush buf x
        ≡ some (record x {
          machine = machine x.machine.state (record x.machine.platform { console_out = rb });
          output = text;
        })
  unfolding flush
  flush-some buf x rb text e = rw (flush, e) refl

  resume-stepped :
      (ready : Bool) (typed : List ℕ) (x : Session H) (fuel : ℕ) (t : Emu86Tables) (budget : ℕ)
      (info : Emu86YieldInfo)
      → 0 < budget
      → at_exit x.machine.state ≡ false
      → ((resume ready typed x).output ≡ x.output)
        × (emu86_run (suc fuel) t budget info (resume ready typed x).machine
            ≡ stepped fuel t budget info (
                run_step
                  (service_pending (wake x.machine.state))
                  (resume ready typed x).machine.platform
                  t))
  unfolding resume type_keys
  resume-stepped false typed x fuel t budget info h stay =
      (refl, emu86_run-wake fuel t budget info x.machine h stay)
  resume-stepped true typed x fuel t budget info h stay =
      (refl, emu86_run-wake fuel t budget info (type_keys typed x.machine) h stay)

  module _ (k : ℕ) (buf : ℕ → ℕ) (x : Session H) (v : IsRing k x.machine.platform.console_out) where
    pub flush-after_flush :
        (rb : Emu86RingBuf) × (flush buf x ≡ some (after_flush x rb))
        × IsRing k rb
        × contents rb ≡ []
    flush-after_flush =
        let rb = x.machine.platform.console_out in
        let whole = (ringbuf_available-contents k rb v).1 in
        let (rb', done, w, empty) =
          flush_console-contents k (rb.size + 1) buf rb x.output v (omega arith) in
        (rb', flush-some buf x rb' _ done, w, empty)

    -- The arm for a halted processor never runs out of fuel, and the next run executes an
    -- instruction: with a console that is a ring, a budget above 0 and CS:IP not 0:0, the queued
    -- output is given to `write`, whether `select` saw input or not, and the run that follows takes
    -- the pending timer interrupt, if interrupts are enabled and no prefix is active, and steps once,
    -- at least.
    pub handle_yield-stepped :
        (ready : Bool) (typed : List ℕ) (fuel : ℕ) (t : Emu86Tables) (budget : ℕ)
        (info : Emu86YieldInfo)
        → 0 < budget
        → at_exit x.machine.state ≡ false
        → (y : Session H) × (handle_yield yield_halted ready typed buf x ≡ some y)
          × (y.output ≡ x.output ++ contents x.machine.platform.console_out)
          × (emu86_run (suc fuel) t budget info y.machine
              ≡ stepped fuel t budget info
                  (run_step (service_pending (wake x.machine.state)) y.machine.platform t))
    unfolding handle_yield
    handle_yield-stepped ready typed fuel t budget info h stay =
        let (rb, done, w, empty) = flush-after_flush in
        let (out, run) = resume-stepped ready typed (after_flush x rb) fuel t budget info h stay in
        (resume ready typed (after_flush x rb), rw done refl, out, run)
