-- ===== src/Harness/Lockstep.antt =====
-- packages/emu86/harness/harness.c: what a step of the lockstep says of the two emulators.
use huxley.Base.{ℕ, zero, suc, ◌+◌, ◌<◌, ◌≤◌, ◌≡◌, inl, inr, refl, sym, ap, ◌∙◌, arith}
use huxley.Base.{Bool-cases, is_set, if◌then◌else◌, some}
use huxley.Base.{List, [], ◌++◌, length}
use huxley.Base.Options.{◌>>=◌}
use huxley.Platform.{Emu86RingBuf}
use huxley.Platform.Wrap.{IsRing}
use huxley.Platform.Fifo.{
  contents, ringbuf_available-contents, ringbuf_write-contents, ringbuf_read-contents,
  ringbuf_read-attached,
}
use huxley.Decode.{Emu86Tables}
use huxley.Run.Loop.{Machine, machine, Emu86YieldInfo, emu86_run}
use huxley.Run.Loop.Console.{Wired, Prints, emu86_run-Prints}
use huxley.Run.Budget.{Ends, emu86_run-Ends}
use huxley.Host.MainLoop.Ready.{empty-room}
use huxley.Harness.Keyboard.{KbdQueue, replicate_kbd_byte}
use huxley.Harness.Step.{Harness, drain_console, step_ours, at_split_output, var_at}

-- The console is read until it is empty.
drain_console-contents :
    (k fuel : ℕ) (rb : Emu86RingBuf)
    → IsRing k rb
    → length (contents rb) < fuel
    → (rb' : Emu86RingBuf) × (drain_console fuel rb ≡ some (contents rb, rb'))
      × IsRing k rb'
      × (contents rb' ≡ [])
      × (rb'.attached ≡ rb.attached)
unfolding drain_console
drain_console-contents k zero rb v h = absurd (omega arith)
drain_console-contents k (suc fuel) rb v h = elim (ringbuf_read-contents k rb v) [
  | inl (e, empty) ↦
      (rb, rw (drain_console, e) (ap (λ r. some (r, rb)) (sym empty)), v, empty, refl)
  | inr (ch, rb1, e, w, queue) ↦
      let shorter = ap length queue in
      let (rb2, drained, u, empty, same) =
        drain_console-contents k fuel rb1 w (omega (arith, shorter)) in
      (
        rb2,
        rw (drain_console, e, drained) (ap (λ r. some (r, rb2)) (sym queue)),
        u,
        empty,
        same ∙ ringbuf_read-attached rb rb1 ch e,
      )
]

replicate_kbd_byte-IsRing :
    (k : ℕ) (q : KbdQueue) (rb : Emu86RingBuf) → IsRing k rb → IsRing k (replicate_kbd_byte q rb).1
unfolding replicate_kbd_byte
replicate_kbd_byte-IsRing k q rb v = elim (Bool-cases (is_set q.last_consumed_byte_present)) [
  | inr e ↦ rw e v
  | inl e ↦ elim (ringbuf_write-contents k rb v q.last_consumed_byte) [
    | inl (refused, _) ↦ rw (e, refused) v
    | inr (rb', written, w, _) ↦ rw (e, written) w
  ]
]

module _ {H : Type 0} where
  -- Between two steps the console is empty, and both buffers are rings.
  pub record Synced (k : ℕ) (h : Harness H) : Type 0 where
    pub wired : Wired k h.ours.platform
    pub drained : contents h.ours.platform.console_out ≡ []

  -- The emulator with the key that the reference took.
  abbrev pub with_key : Harness H → Machine H
  with_key h =
      let p = h.ours.platform in
      machine h.ours.state
        (record p { console_in = (replicate_kbd_byte h.keyboard p.console_in).1 })

  abbrev after_step : Harness H → Machine H → List ℕ → Emu86RingBuf → Harness H
  after_step h m chars rb = record h {
    ours = machine m.state (record m.platform { console_out = rb });
    keyboard = (replicate_kbd_byte h.keyboard h.ours.platform.console_in).0;
    hux_fifo = if is_set (var_at h at_split_output) then h.hux_fifo ++ chars else h.hux_fifo;
  }

  step_ours-some :
      (t : Emu86Tables) (info info' : Emu86YieldInfo) (h : Harness H) (m : Machine H)
      (chars : List ℕ) (rb : Emu86RingBuf)
      → emu86_run 2 t 1 info (with_key h) ≡ some (info', m)
      → drain_console (m.platform.console_out.size + 1) m.platform.console_out ≡ some (chars, rb)
      → step_ours t info h ≡ some (after_step h m chars rb)
  unfolding step_ours
  step_ours-some t info info' h m chars rb e f = rw (step_ours, e, ◌>>=◌, f) refl

  with_key-Wired : (k : ℕ) (h : Harness H) → Synced k h → Wired k (with_key h).platform
  with_key-Wired k h v = record {
    output = v.wired.output;
    attached = v.wired.attached;
    input = replicate_kbd_byte-IsRing k h.keyboard h.ours.platform.console_in v.wired.input;
  }

  -- The emulator has run once with a budget of 1, and printed `cs` to its pipe, if there is one.
  pub record Stepped (k : ℕ) (t : Emu86Tables) (info : Emu86YieldInfo) (h h' : Harness H)
      (cs : List ℕ) : Type 0 where
    pub synced : Synced k h'
    pub ran :
        (info' : Emu86YieldInfo) × (m : Machine H) × (emu86_run 2 t 1 info (with_key h)
          ≡ some (info', m))
        × Prints t (with_key h) cs m
        × (h'.ours.state ≡ m.state)
    pub fifo :
        h'.hux_fifo ≡ (if is_set (var_at h at_split_output) then h.hux_fifo ++ cs else h.hux_fifo)
    pub control : h'.control ≡ h.control
    pub snapshots : h'.snapshots ≡ h.snapshots
    pub keyboard : h'.keyboard ≡ (replicate_kbd_byte h.keyboard h.ours.platform.console_in).0

  pub step_ours-Stepped :
      (k : ℕ) (t : Emu86Tables) (info : Emu86YieldInfo) (h : Harness H)
      → 3 ≤ k
      → k < 30
      → Synced k h
      → (cs : List ℕ) × (h' : Harness H) × (step_ours t info h ≡ some h') × Stepped k t info h h' cs
  unfolding Ends
  step_ours-Stepped k t info h low high v =
      let m = with_key h in
      let wired = with_key-Wired k h v in
      let (info', m1, e, ended) = emu86_run-Ends 2 t 1 info m (omega arith) (omega arith) in
      let (cs, prints, joined) =
        emu86_run-Prints k low high 2 t 1 info info' m m1 wired
          (empty-room k m.platform wired v.drained) e in
      let out = m1.platform.console_out in
      let whole = (ringbuf_available-contents k out joined.wired.output).1 in
      let (rb, drained, w, empty, same) =
        drain_console-contents k (out.size + 1) out joined.wired.output (omega (arith, whole)) in
      let written : contents out ≡ cs = joined.queue ∙ ap (λ r. r ++ cs) v.drained in
      (
        cs,
        after_step h m1 (contents out) rb,
        step_ours-some t info info' h m1 (contents out) rb e drained,
        record {
          synced = record {
            wired = record {
              output = w;
              attached = same ∙ joined.wired.attached;
              input = joined.wired.input;
            };
            drained = empty;
          };
          fifo =
              ap (λ r. if is_set (var_at h at_split_output) then h.hux_fifo ++ r else h.hux_fifo)
                written;
          ran = (info', m1, e, prints, refl);
          control = refl;
          snapshots = refl;
          keyboard = refl;
        },
      )
