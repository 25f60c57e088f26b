-- ===== src/Run/Loop/Console.antt =====
-- The console stream of a run: no character that the program prints is lost.
use huxley.Base.{ℕ, zero, suc, ◌+◌, ◌^◌, ◌<◌, ◌≤◌, ◌≡◌, inl, inr, refl, sym, ap, ◌∙◌, arith}
use huxley.Base.{bit_and, ltb, ◌==◌, ◌&&◌, is_set, Bool, true, false, Bool-cases, if◌then◌else◌, u8}
use huxley.Base.{u32, Option, none, some, Option-cases, List, [], ◌∷◌, ◌++◌, length}
use huxley.Base.Masks.{pow-lt}
use huxley.Harness.Printed.{++_assoc, ++_nil}
use huxley.State.{Emu86State, reg_ax}
use huxley.Context.{DecodeContext}
use huxley.Platform.{Emu86Platform}
use huxley.Platform.Wrap.{IsRing}
use huxley.Platform.Fifo.{
  contents, ringbuf_available-contents, ringbuf_write-contents, ringbuf_read-contents,
  ringbuf_write-attached,
}
use huxley.Decode.{Emu86Tables, decode_instruction}
use huxley.Opcodes.FlagsIo.{exec_bios_putchar, exec_bios_get_rtc, exec_bios_disk_read, rtc_time}
use huxley.Opcodes.FlagsIo.{exec_bios_disk_write}
use huxley.Run.Dispatch.{case_bios, execute_instruction}
use huxley.Run.Loop.{Machine, machine, Emu86YieldInfo, yield_io_needed, at_exit, console_full}
use huxley.Run.Loop.{service_pending, count_prefixes, poll_keyboard, service_timer}
use huxley.Run.Loop.{execute_and_advance, run_step, run_loop, emu86_run}

-- The character that a decoded instruction prints: the low byte of AX, for the emulator's call 0.
unfoldable pub character_of : Emu86State → DecodeContext → List ℕ
character_of s d =
    if d.xlat_id == 48 && (u8 (bit_and d.data0 0xFF) == 0) then u8 (s.regs reg_ax) ∷ [] else []

-- The character that the instruction at CS:IP prints.
unfoldable pub printed_by : Emu86State → Emu86Tables → List ℕ
printed_by s t = character_of (count_prefixes s) (decode_instruction (count_prefixes s) t)

-- Both console buffers are rings, and the output is connected.
pub record Wired (k : ℕ) {H : Type 0} (p : Emu86Platform H) : Type 0 where
  pub output : IsRing k p.console_out
  pub attached : p.console_out.attached ≡ true
  pub input : IsRing k p.console_in

-- The console after `cs` joined its queue.
pub record Joined (k : ℕ) {H : Type 0} (p : Emu86Platform H) (cs : List ℕ) (p' : Emu86Platform H)
    : Type 0 where
  pub wired : Wired k p'
  pub queue : contents p'.console_out ≡ contents p.console_out ++ cs

-- The turns of a run, with the characters that they print.
pub data Prints {H : Type 0} (t : Emu86Tables) : Machine H → List ℕ → Machine H → Type 0 where
  rest : {m : Machine H} → Prints t m [] m
  halt :
      {m : Machine H}
      → is_set (service_pending m.state).halted ≡ true
      → Prints t m [] (machine (service_pending m.state) m.platform)
  step :
      {m n : Machine H} {cs : List ℕ}
      → at_exit m.state ≡ false
      → is_set (service_pending m.state).halted ≡ false
      → Prints t (run_step (service_pending m.state) m.platform t) cs n
      → Prints t m (printed_by (service_pending m.state) t ++ cs) n

module _ {H : Type 0} where
  -- The consoles are as they were.
  abbrev Kept : Emu86Platform H → Emu86Platform H → Type 0
  Kept p p' = (p'.console_out ≡ p.console_out) × (p'.console_in ≡ p.console_in)

  exec_bios_get_rtc-Kept : (s : Emu86State) (p : Emu86Platform H) → Kept p (exec_bios_get_rtc s p).1
  unfolding exec_bios_get_rtc rtc_time
  exec_bios_get_rtc-Kept s p = elim (Option-cases p.get_time_us) [
    | inl e ↦ rw e (refl, refl)
    | inr (clock, e) ↦ rw e (refl, refl)
  ]

  exec_bios_disk_read-Kept :
      (s : Emu86State) (p : Emu86Platform H) → Kept p (exec_bios_disk_read s p).1
  unfolding exec_bios_disk_read
  exec_bios_disk_read-Kept s p = elim (Option-cases p.disk_read) [
    | inl e ↦ rw e (refl, refl)
    | inr (callback, e) ↦ rw e (refl, refl)
  ]

  exec_bios_disk_write-Kept :
      (s : Emu86State) (p : Emu86Platform H) → Kept p (exec_bios_disk_write s p).1
  unfolding exec_bios_disk_write
  exec_bios_disk_write-Kept s p = elim (Option-cases p.disk_write) [
    | inl e ↦ rw e (refl, refl)
    | inr (callback, e) ↦ rw e (refl, refl)
  ]

  case_bios-Kept :
      (s : Emu86State) (p : Emu86Platform H) (d : DecodeContext)
      → (u8 (bit_and d.data0 0xFF) == 0) ≡ false
      → Kept p (case_bios s p d).1
  unfolding case_bios
  case_bios-Kept s p d h =
      let call = u8 (bit_and d.data0 0xFF) in
      rw h (elim (Bool-cases (call == 1)) [
        | inl e ↦ rw e (exec_bios_get_rtc-Kept s p)
        | inr e ↦ elim (Bool-cases (call == 2)) [
          | inl f ↦ rw (e, f) (exec_bios_disk_read-Kept s p)
          | inr f ↦ elim (Bool-cases (call == 3)) [
            | inl g ↦ rw (e, f, g) (exec_bios_disk_write-Kept s p)
            | inr g ↦ rw (e, f, g) (refl, refl)
          ]
        ]
      ])

  case_bios-putchar :
      (s : Emu86State) (p : Emu86Platform H) (d : DecodeContext)
      → (u8 (bit_and d.data0 0xFF) == 0) ≡ true
      → case_bios s p d ≡ exec_bios_putchar s p
  unfolding case_bios
  case_bios-putchar s p d h = rw h refl

-- A console buffer with room: three quarters of it, at most, are used.
module _ {H : Type 0} (k : ℕ) (low : 3 ≤ k) (high : k < 30) where
  room :
      (p : Emu86Platform H)
      → Wired k p
      → console_full p ≡ false
      → length (contents p.console_out) + 1 < p.console_out.size
  room p v e =
      let size : p.console_out.size ≡ 2 ^ k = v.output.size in
      let count = (ringbuf_available-contents k p.console_out v.output).0 in
      let large = pow-lt 2 k low in
      let small = pow-lt k 30 high in ground (arith, size, count, large, small, v.attached, e)

  putchar-Joined :
      (s : Emu86State) (p : Emu86Platform H)
      → Wired k p
      → console_full p ≡ false
      → Joined k p (u8 (s.regs reg_ax) ∷ []) (exec_bios_putchar s p).1
  unfolding exec_bios_putchar
  putchar-Joined s p v e =
      elim (ringbuf_write-contents k p.console_out v.output (u8 (s.regs reg_ax))) [
        | inl (refused, full) ↦ absurd (omega (arith, room p v e))
        | inr (rb, written, w, queue) ↦
            let attached = ringbuf_write-attached p.console_out rb _ written in
            rw (exec_bios_putchar, written)
              (record {
                wired = record { output = w; attached = attached ∙ v.attached; input = v.input };
                queue = queue ∙ ap (λ c. contents p.console_out ++ c ∷ []) (omega arith);
              })
      ]

  Kept-Joined : (p p' : Emu86Platform H) → Wired k p → Kept p p' → Joined k p [] p'
  Kept-Joined p p' v (out, inp) = record {
    wired = record {
      output = rw out v.output;
      attached = rw out v.attached;
      input = rw inp v.input;
    };
    queue = ap contents out ∙ sym (++_nil (contents p.console_out));
  }

  execute_instruction-Joined :
      (s : Emu86State) (p : Emu86Platform H) (t : Emu86Tables) (d : DecodeContext)
      → Wired k p
      → console_full p ≡ false
      → Joined k p (character_of s d) (execute_instruction s p t d).1
  unfolding execute_instruction character_of
  execute_instruction-Joined s p t d v e = elim (Bool-cases (d.xlat_id == 48)) [
    | inr b ↦ rw b (Kept-Joined p p v (refl, refl))
    | inl b ↦ elim (Bool-cases (u8 (bit_and d.data0 0xFF) == 0)) [
      | inl c ↦ rw (b, c, case_bios-putchar s p d c) (putchar-Joined s p v e)
      | inr c ↦ rw (b, c) (Kept-Joined p (case_bios s p d).1 v (case_bios-Kept s p d c))
    ]
  ]

  Joined-keyboard :
      (s : Emu86State) (p : Emu86Platform H)
      → Wired k p
      → Joined k p [] (poll_keyboard s p).platform
  unfolding poll_keyboard
  Joined-keyboard s p v = elim (ringbuf_read-contents k p.console_in v.input) [
    | inl (e, empty) ↦ rw (poll_keyboard, e) (Kept-Joined p p v (refl, refl))
    | inr (key, rb, e, w, queue) ↦
        rw (poll_keyboard, e)
          (record {
            wired = record { output = v.output; attached = v.attached; input = w };
            queue = sym (++_nil (contents p.console_out));
          })
  ]

  if-Joined :
      (b : Bool) (p : Emu86Platform H) (m n : Machine H)
      → Joined k p [] m.platform
      → Joined k p [] n.platform
      → Joined k p [] (if b then m else n).platform
  if-Joined true p m n v w = v
  if-Joined false p m n v w = w

  service_timer-Joined :
      (s : Emu86State) (p : Emu86Platform H)
      → Wired k p
      → Joined k p [] (service_timer s p).platform
  unfolding service_timer
  service_timer-Joined s p v =
      let same = Kept-Joined p p v (refl, refl) in
      if-Joined _ p _ _ (if-Joined p.console_in.attached p _ _ (Joined-keyboard _ p v) same) same

  Joined-timer :
      (s : Emu86State) (p p' : Emu86Platform H) (cs : List ℕ)
      → Joined k p cs p'
      → Joined k p cs (service_timer s p').platform
  Joined-timer s p p' cs first =
      let later = service_timer-Joined s p' first.wired in
      record {
        wired = later.wired;
        queue = later.queue ∙ ++_nil (contents p'.console_out) ∙ first.queue;
      }

  -- One turn of the loop puts what its instruction prints behind the queue of the output ring.
  pub run_step-Joined :
      (s : Emu86State) (p : Emu86Platform H) (t : Emu86Tables)
      → Wired k p
      → console_full p ≡ false
      → Joined k p (printed_by s t) (run_step s p t).platform
  unfolding run_step printed_by execute_and_advance
  run_step-Joined s p t v e =
      let s1 = count_prefixes s in
      Joined-timer _ p _ _ (execute_instruction-Joined s1 p t (decode_instruction s1 t) v e)

  -- A run that printed `cs`; unless it ended for a full console, there is room again.
  pub record Ran (t : Emu86Tables) (m : Machine H) (r : Emu86YieldInfo × Machine H) (cs : List ℕ)
      : Type 0 where
    pub prints : Prints t m cs r.1
    pub joined : Joined k m.platform cs r.1.platform

  stay-Ran :
      (t : Emu86Tables) (m : Machine H) (info : Emu86YieldInfo)
      → Wired k m.platform
      → Ran t m (info, m) []
  stay-Ran t m info v = record {
    prints = rest;
    joined = Kept-Joined m.platform m.platform v (refl, refl);
  }

  step-Ran :
      (t : Emu86Tables) (m : Machine H) (r : Emu86YieldInfo × Machine H) (cs : List ℕ)
      → at_exit m.state ≡ false
      → is_set (service_pending m.state).halted ≡ false
      → Joined k m.platform
          (printed_by (service_pending m.state) t)
          (run_step (service_pending m.state) m.platform t).platform
      → Ran t (run_step (service_pending m.state) m.platform t) r cs
      → Ran t m r (printed_by (service_pending m.state) t ++ cs)
  step-Ran t m r cs x y first later = record {
    prints = step x y later.prints;
    joined = record {
      wired = later.joined.wired;
      queue =
          later.joined.queue
          ∙ ap (λ q. q ++ cs) first.queue
          ∙ ++_assoc (contents m.platform.console_out) _ cs;
    };
  }

  -- Of a run, if its fuel is enough.
  abbrev Streams : Emu86Tables → Machine H → Option (Emu86YieldInfo × Machine H) → Type 0
  Streams t m none = Unit {0}
  Streams t m (some r) = (cs : List ℕ) × Ran t m r cs

  stay-Streams :
      (t : Emu86Tables) (m : Machine H) (info : Emu86YieldInfo)
      → Wired k m.platform
      → Streams t m (some (info, m))
  stay-Streams t m info v = ([], stay-Ran t m info v)

  step-Streams :
      (t : Emu86Tables) (m : Machine H) (o : Option (Emu86YieldInfo × Machine H))
      → at_exit m.state ≡ false
      → is_set (service_pending m.state).halted ≡ false
      → Joined k m.platform
          (printed_by (service_pending m.state) t)
          (run_step (service_pending m.state) m.platform t).platform
      → Streams t (run_step (service_pending m.state) m.platform t) o
      → Streams t m o
  step-Streams t m none x y first later = tt
  step-Streams t m (some r) x y first (cs, later) = (_, step-Ran t m r cs x y first later)

  run_loop-Streams :
      (fuel : ℕ) (t : Emu86Tables) (budget cycles : ℕ) (info : Emu86YieldInfo) (m : Machine H)
      → Wired k m.platform
      → console_full m.platform ≡ false
      → Streams t m (run_loop fuel t budget cycles info m)
  unfolding run_loop
  run_loop-Streams zero t budget cycles info m v room = tt
  run_loop-Streams (suc fuel) t budget cycles info m v room =
      let n = run_step (service_pending m.state) m.platform t in
      let first = run_step-Joined (service_pending m.state) m.platform t v room in
      let same = Kept-Joined m.platform m.platform v (refl, refl) in
      let full : Emu86YieldInfo = record info {
        reason = yield_io_needed;
        io_type = 0;
        cycles_used = u32 (cycles + 4);
      } in
      elim (Bool-cases (ltb cycles budget)) [
        | inr a ↦ rw a ([], stay-Ran t m _ v)
        | inl a ↦ elim (Bool-cases (at_exit m.state)) [
          | inl x ↦ rw (a, x) ([], stay-Ran t m _ v)
          | inr x ↦ elim (Bool-cases (is_set (service_pending m.state).halted)) [
            | inl y ↦ rw (a, x, y) ([], record { prints = halt y; joined = same })
            | inr y ↦ elim (Bool-cases (console_full n.platform)) [
              | inl z ↦
                  rw (a, x, y, z)
                    (step-Streams t m (some (full, n)) x y first
                      (stay-Streams t n full first.wired))
              | inr z ↦
                  rw (a, x, y, z)
                    (step-Streams t m _ x y first
                      (run_loop-Streams fuel t budget (u32 (cycles + 4)) info n first.wired z))
            ]
          ]
        ]
      ]

  -- On consoles that are rings of 2 ^ k bytes, with k from 3 to 29, a run that starts with room in
  -- the output, at most three quarters of it used, loses no character: there is a trace of its
  -- instructions such that the ring's queue has grown by exactly what they print, in order.
  pub emu86_run-Prints :
      (fuel : ℕ) (t : Emu86Tables) (budget : ℕ) (info info' : Emu86YieldInfo) (m m' : Machine H)
      → Wired k m.platform
      → console_full m.platform ≡ false
      → emu86_run fuel t budget info m ≡ some (info', m')
      → (cs : List ℕ) × Prints t m cs m' × Joined k m.platform cs m'.platform
  unfolding emu86_run
  emu86_run-Prints fuel t budget info info' m m' v room e =
      let (cs, ran) = rw e at (run_loop-Streams fuel t budget 0 info m v room) in
      (cs, ran.prints, ran.joined)
