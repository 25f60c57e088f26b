-- ===== src/Host/MainLoop/Ready.antt =====
-- What every turn of the main loop keeps: the consoles, the ranges of the fields, and the stream of
-- characters that the program has printed.
use huxley.Base.{ℕ, zero, suc, ◌+◌, ◌≡◌, ◌⊎◌, inl, inr, refl, ap, ◌∙◌, arith, ltb, cells, update}
use huxley.Base.{Bool, true, false, Bool-cases, some, Option-cases}
use huxley.Base.{List, [], ◌++◌, length}
use huxley.Harness.Printed.{++_nil}
use huxley.State.{Emu86State}
use huxley.State.Words.{IsWords}
use huxley.State.Updates.{parts-IsWords}
use huxley.Platform.{Emu86RingBuf, Emu86Platform, ringbuf_available, ringbuf_read}
use huxley.Platform.Fifo.{contents, ringbuf_available-contents, ringbuf_read-attached}
use huxley.Run.Loop.{console_full, yield_budget, yield_io_needed, yield_halted, yield_exit, machine}
use huxley.Run.Loop.Console.{Wired}
use huxley.Host.{
  Session, wake, type_keys, flush, resume, handle_yield, fill_chunk, chunk_of, flush_console,
}
use huxley.Host.Keyboard.{service_keyboard-contents}
use huxley.Host.Resume.{after_flush, flush-after_flush}

fill_chunk-attached :
    (n i : ℕ) (buf : ℕ → ℕ) (rb : Emu86RingBuf) → (fill_chunk n i buf rb).1.attached ≡ rb.attached
unfolding fill_chunk
fill_chunk-attached zero i buf rb = refl
fill_chunk-attached (suc n) i buf rb = elim (Option-cases (ringbuf_read rb)) [
  | inl e ↦ rw (fill_chunk, e) refl
  | inr ((byte, rb'), e) ↦
      rw (fill_chunk, e)
        (fill_chunk-attached n (i + 1) (update buf i byte) rb'
          ∙ ringbuf_read-attached rb rb' byte e)
]

flush_console-attached :
    (fuel : ℕ) (buf : ℕ → ℕ) (rb rb' : Emu86RingBuf) (out out' : List ℕ)
    → flush_console fuel buf rb out ≡ some (rb', out')
    → rb'.attached ≡ rb.attached
unfolding flush_console
flush_console-attached zero buf rb rb' out out' e = absurd (cc e)
flush_console-attached (suc fuel) buf rb rb' out out' e =
    let chunk = chunk_of (ringbuf_available rb) in
    let filled = fill_chunk chunk 0 buf rb in
    elim (Bool-cases (ltb 0 (ringbuf_available rb))) [
      | inl b ↦
          flush_console-attached fuel filled.0 filled.1 rb' (out ++ cells filled.0 0 chunk) out'
            (rw b at e)
          ∙ fill_chunk-attached chunk 0 buf rb
      | inr b ↦ let same = rw b at e in cc same
    ]

wake-IsWords : {s : Emu86State} → IsWords s → IsWords (wake s)
unfolding wake
wake-IsWords v = parts-IsWords v.regs v.sregs v.mem v.io_ports (omega arith) v.devices

module _ {H : Type 0} where
  -- What has been put out, and what still waits in the ring.
  abbrev pub stream : Session H → List ℕ
  stream x = x.output ++ contents x.machine.platform.console_out

  -- With an empty output ring there is room.
  pub empty-room :
      (k : ℕ) (p : Emu86Platform H)
      → Wired k p
      → contents p.console_out ≡ []
      → console_full p ≡ false
  empty-room k p v e =
      let count = (ringbuf_available-contents k p.console_out v.output).0 in
      let empty = count ∙ ap length e in ground (arith, empty, v.attached)

  flush-attached :
      (buf : ℕ → ℕ) (x : Session H) (rb : Emu86RingBuf)
      → flush buf x ≡ some (after_flush x rb)
      → rb.attached ≡ x.machine.platform.console_out.attached
  unfolding flush
  flush-attached buf x rb e =
      let ring = x.machine.platform.console_out in
      elim (Option-cases (flush_console (ring.size + 1) buf ring x.output)) [
        | inl f ↦ absurd (cc (rw (flush, f) at e))
        | inr ((rb', out), f) ↦
            let same = rw (flush, f) at e in
            let here : rb ≡ rb' = cc same in
            ap (λ r. r.attached) here ∙ flush_console-attached _ buf ring rb' x.output out f
      ]

  -- From one session to a later one that prints nothing.
  pub record Kept (k : ℕ) (x y : Session H) : Type 0 where
    pub wired : Wired k y.machine.platform
    pub words : IsWords y.machine.state
    pub same : stream y ≡ stream x
    pub going : (y.running ≡ 0) ⊎ (contents y.machine.platform.console_out ≡ [])

  module _ (k : ℕ) where
    type_keys-Wired :
        (typed : List ℕ) (p : Emu86Platform H) (s : Emu86State)
        → Wired k p
        → Wired k (type_keys typed (machine s p)).platform
    unfolding type_keys
    type_keys-Wired typed p s v = record {
      output = v.output;
      attached = v.attached;
      input = (service_keyboard-contents k typed p.console_in v.input).0;
    }

    resume-Kept :
        (ready : Bool) (typed : List ℕ) (x : Session H)
        → Wired k x.machine.platform
        → IsWords x.machine.state
        → contents x.machine.platform.console_out ≡ []
        → Kept k x (resume ready typed x)
    unfolding resume type_keys
    resume-Kept true typed x v w e = record {
      wired = type_keys-Wired typed x.machine.platform x.machine.state v;
      words = wake-IsWords w;
      same = refl;
      going = inr e;
    }
    resume-Kept false typed x v w e = record {
      wired = v;
      words = wake-IsWords w;
      same = refl;
      going = inr e;
    }

    typed-Kept :
        (typed : List ℕ) (x : Session H)
        → Wired k x.machine.platform
        → IsWords x.machine.state
        → contents x.machine.platform.console_out ≡ []
        → Kept k x (record x { machine = type_keys typed x.machine })
    unfolding type_keys
    typed-Kept typed x v w e = record {
      wired = type_keys-Wired typed x.machine.platform x.machine.state v;
      words = w;
      same = refl;
      going = inr e;
    }

    chain-Kept : {x y z : Session H} → Kept k x y → Kept k y z → Kept k x z
    chain-Kept a b = record {
      wired = b.wired;
      words = b.words;
      same = b.same ∙ a.same;
      going = b.going;
    }

    module _ (x : Session H) (v : Wired k x.machine.platform) (w : IsWords x.machine.state) where
      -- A flush puts what waits behind what was put out.
      pub flush-Kept :
          (buf : ℕ → ℕ)
          → (rb : Emu86RingBuf) × (flush buf x ≡ some (after_flush x rb))
            × (contents rb ≡ [])
            × Kept k x (after_flush x rb)
      flush-Kept buf =
          let (rb, done, u, empty) = flush-after_flush k buf x v.output in
          (
            rb,
            done,
            empty,
            record {
              wired = record {
                output = u;
                attached = flush-attached buf x rb done ∙ v.attached;
                input = v.input;
              };
              words = w;
              same = ap (λ t. stream x ++ t) empty ∙ ++_nil (stream x);
              going = inr empty;
            },
          )

      -- A run yields for its budget, a full console, a halt or the exit.
      pub handle_yield-Kept :
          (reason : ℕ) (ready : Bool) (typed : List ℕ) (buf : ℕ → ℕ)
          → ((reason ≡ yield_budget)
              ⊎ (reason ≡ yield_io_needed)
              ⊎ (reason ≡ yield_halted)
              ⊎ (reason ≡ yield_exit))
          → (y : Session H) × (handle_yield reason ready typed buf x ≡ some y) × Kept k x y
      unfolding handle_yield
      handle_yield-Kept reason ready typed buf r =
          let (rb, done, empty, kept) = flush-Kept buf in
          let y = after_flush x rb in
          elim r [
            | inl e ↦
                rw e (_, rw done refl, chain-Kept kept (typed-Kept typed y kept.wired w empty))
            | inr (inl e) ↦ rw e (y, done, kept)
            | inr (inr (inl e)) ↦
                rw e
                  (_, rw done refl, chain-Kept kept (resume-Kept ready typed y kept.wired w empty))
            | inr (inr (inr e)) ↦
                rw e (_, refl, record { wired = v; words = w; same = refl; going = inl refl })
          ]
