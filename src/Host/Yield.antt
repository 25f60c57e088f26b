-- ===== src/Host/Yield.antt =====
-- packages/emu86/src/hosts/linux/main.c: every yield of the emulator is handled.
use huxley.Base.{ℕ, ◌≡◌, ◌<◌, ◌⊎◌, refl, sym, ap, ◌∙◌, arith, ◌==◌, if◌then◌else◌}
use huxley.Base.{Bool, true, false, inl, inr, some, List, [], ◌++◌}
use huxley.Platform.{Emu86RingBuf, ringbuf_free}
use huxley.Platform.Wrap.{IsRing}
use huxley.Platform.Fifo.{contents}
use huxley.Run.Loop.{yield_budget, yield_halted, yield_io_needed, yield_exit}
use huxley.Harness.Text.{take}
use huxley.Harness.Printed.{take_fits, ++_nil}
use huxley.Host.Keyboard.{bytes_of, service_keyboard-contents}
use huxley.Host.{Session, wake, yield_error, type_keys, resume, handle_yield}
use huxley.Host.Resume.{after_flush, flush-after_flush}

reason_cases :
    (reason : ℕ)
    → (reason ≡ yield_budget)
      ⊎ ((reason ≡ yield_io_needed)
          ⊎ ((reason ≡ yield_halted)
              ⊎ (((reason ≡ yield_exit) ⊎ (reason ≡ yield_error)) ⊎ ((reason ≡ 3) ⊎ (5 < reason)))))
reason_cases reason = omega arith

module _ {H : Type 0} where
  -- The queue was put out, and the loop goes on.
  pub record Flushed (x y : Session H) : Type 0 where
    pub output : y.output ≡ x.output ++ contents x.machine.platform.console_out
    pub empty : contents y.machine.platform.console_out ≡ []
    pub running : y.running ≡ x.running

  -- The input queue with the keys, as many as there was room for.
  abbrev pub Typed : List ℕ → Session H → Session H → Type 0
  Typed typed x y =
      let rb = x.machine.platform.console_in in
      contents y.machine.platform.console_in
      ≡ contents rb ++ take (ringbuf_free rb) (bytes_of typed)

  -- What the loop does for each reason. `ready` is the answer of `select` in a halt.
  abbrev pub Handled : ℕ → Bool → List ℕ → Session H → Session H → Type 0
  Handled reason ready typed x y =
      ((reason ≡ yield_budget)
        × Flushed x y
        × (y.machine.state ≡ x.machine.state)
        × Typed typed x y)
      ⊎ (((reason ≡ yield_halted)
            × Flushed x y
            × (y.machine.state
                ≡ record x.machine.state { halted = 0; int_pending = 1; int_vector = 0x0A })
            × Typed (if ready then typed else []) x y)
          ⊎ (((reason ≡ yield_io_needed)
                × Flushed x y
                × (y.machine.state ≡ x.machine.state)
                × (y.machine.platform.console_in ≡ x.machine.platform.console_in))
              ⊎ ((((reason ≡ yield_exit) ⊎ (reason ≡ yield_error)) × (y ≡ record x { running = 0 }))
                  ⊎ (((reason ≡ 3) ⊎ (5 < reason)) × (y ≡ x)))))

  module _ (k j : ℕ) (buf : ℕ → ℕ) (x : Session H) (v : IsRing k x.machine.platform.console_out)
      (w : IsRing j x.machine.platform.console_in) where
    type_keys-Typed :
        (typed : List ℕ) (rb : Emu86RingBuf)
        → Typed typed x
            (record (after_flush x rb) { machine = type_keys typed (after_flush x rb).machine })
    unfolding type_keys
    type_keys-Typed typed rb = (service_keyboard-contents j typed x.machine.platform.console_in w).1

    none-Typed :
        (y : Session H)
        → y.machine.platform.console_in ≡ x.machine.platform.console_in
        → Typed [] x y
    none-Typed y e =
        ap contents e
        ∙ sym (
            ap (λ t. contents x.machine.platform.console_in ++ t)
              (take_fits (ringbuf_free x.machine.platform.console_in) [] (omega arith))
            ∙ ++_nil (contents x.machine.platform.console_in))

    resumed :
        (ready : Bool) (typed : List ℕ) (rb : Emu86RingBuf)
        → contents rb ≡ []
        → Handled yield_halted ready typed x (resume ready typed (after_flush x rb))
    unfolding resume type_keys wake
    resumed true typed rb e = inr (
        inl (
          refl,
          record { output = refl; empty = e; running = refl },
          refl,
          type_keys-Typed typed rb,
        ))
    resumed false typed rb e = inr (
        inl (
          refl,
          record { output = refl; empty = e; running = refl },
          refl,
          none-Typed (resume false typed (after_flush x rb)) refl,
        ))

    spent :
        (ready : Bool) (typed : List ℕ) (rb : Emu86RingBuf)
        → contents rb ≡ []
        → Handled yield_budget ready typed x
            (record (after_flush x rb) { machine = type_keys typed (after_flush x rb).machine })
    unfolding type_keys
    spent ready typed rb e =
        inl (
          refl,
          record { output = refl; empty = e; running = refl },
          refl,
          type_keys-Typed typed rb,
        )

    unknown :
        (reason : ℕ) (ready : Bool) (typed : List ℕ)
        → 5 < reason
        → handle_yield reason ready typed buf x ≡ some x
    unfolding handle_yield
    unknown reason ready typed h =
        let b0 : (reason == 0) ≡ false = ground arith in
        let b1 : (reason == 1) ≡ false = ground arith in
        let b2 : (reason == 2) ≡ false = ground arith in
        let b4 : (reason == 4) ≡ false = ground arith in
        let b5 : (reason == 5) ≡ false = ground arith in rw (b0, b1, b2, b4, b5) refl

    -- The main loop handles every yield, with consoles that are rings. For a used budget it gives the
    -- queued output to `write`, empties the ring and queues the typed keys that there is room for; for
    -- a halt it does the same, but for the keys only if `select` saw any, and sets the processor
    -- running with the timer interrupt pending; for a full console it only gives the output out. The
    -- exit and the error end the loop and change nothing else, and any other reason changes nothing.
    pub handle_yield-Handled :
        (reason : ℕ) (ready : Bool) (typed : List ℕ)
        → (y : Session H) × (handle_yield reason ready typed buf x ≡ some y)
          × Handled reason ready typed x y
    unfolding handle_yield
    handle_yield-Handled reason ready typed =
        let (rb, done, u, empty) = flush-after_flush k buf x v in
        let flushed : Flushed x (after_flush x rb) = record {
          output = refl;
          empty = empty;
          running = refl;
        } in
        elim (reason_cases reason) [
          | inl e ↦ rw e (_, rw done refl, spent ready typed rb empty)
          | inr (inl e) ↦ rw e (_, done, inr (inr (inl (refl, flushed, refl, refl))))
          | inr (inr (inl e)) ↦ rw e (_, rw done refl, resumed ready typed rb empty)
          | inr (inr (inr (inl (inl e)))) ↦ rw e (_, refl, inr (inr (inr (inl (inl refl, refl)))))
          | inr (inr (inr (inl (inr e)))) ↦ rw e (_, refl, inr (inr (inr (inl (inr refl, refl)))))
          | inr (inr (inr (inr (inl e)))) ↦ rw e (_, refl, inr (inr (inr (inr (inl refl, refl)))))
          | inr (inr (inr (inr (inr h)))) ↦
              (x, unknown reason ready typed h, inr (inr (inr (inr (inr h, refl)))))
        ]
