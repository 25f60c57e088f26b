-- ===== src/Harness/Runs.antt =====
-- packages/emu86/harness/harness.c: a whole run of the lockstep harness.
use huxley.Base.{ℕ, ◌+◌, ◌≡◌, ◌≤◌, ◌<◌, inl, inr, refl, sym, ap, ◌∙◌, arith, ◌==◌, ◌&&◌, is_set}
use huxley.Base.{Bool, true, false, Bool-cases, some, List, [], ◌∷◌, ◌++◌}
use mathlib.Core.Path.{subst}
use huxley.Base.Options.{◌>>=◌}
use huxley.Platform.Fifo.{contents}
use huxley.Platform.{Emu86RingBuf}
use huxley.Decode.{Emu86Tables}
use huxley.Run.Loop.{Emu86YieldInfo}
use huxley.Run.Loop.Console.{Wired}
use huxley.Harness.Keyboard.{KbdQueue, kbd_queue_size, replicate_kbd_byte}
use huxley.Harness.Keyboard.Queue.{
  IsQueue, drain_kbd_fifo-Drained, harness_consume_kbd_byte-kbd_bytes,
}
use huxley.Harness.Reference.{Reference}
use huxley.Harness.Step.{
  Settings, Harness, Ended, goes_on, exits, var_at, at_kbd_enabled, at_step_count,
  inject_divergence, count_step, harness_step_begin, harness_step_end,
}
use huxley.Harness.Trace.{RefStep, poll_kbd, polled, lockstep_step, lockstep}
use huxley.Harness.Lockstep.{Synced, Stepped}
use huxley.Harness.Verdict.{Verdict, clean, harness_step_end-Verdict}

poll_kbd-IsQueue : (b : Bool) (q : KbdQueue) → IsQueue q → IsQueue (poll_kbd b q)
unfolding poll_kbd
poll_kbd-IsQueue false q v = v
poll_kbd-IsQueue true q v = elim (harness_consume_kbd_byte-kbd_bytes q v) [
  | inl (e, _) ↦ rw (poll_kbd, e) v
  | inr (byte, q', e, w, _, _, _) ↦ rw (poll_kbd, e) w
]

replicate_kbd_byte-IsQueue :
    (q : KbdQueue) (rb : Emu86RingBuf) → IsQueue q → IsQueue (replicate_kbd_byte q rb).0
unfolding replicate_kbd_byte
replicate_kbd_byte-IsQueue q rb v = elim (Bool-cases (is_set q.last_consumed_byte_present)) [
  | inl e ↦ rw e (record { head = v.head; tail = v.tail; used = v.used })
  | inr e ↦ rw e v
]

module _ {H : Type 0} where
  -- What every step of the lockstep keeps.
  pub record InStep (k : ℕ) (h : Harness H) : Type 0 where
    pub synced : Synced k h
    pub queue : IsQueue h.keyboard

  harness_step_begin-InStep :
      (k : ℕ) (fifo : List ℕ) (h : Harness H)
      → InStep k h
      → (h1 : Harness H) × (left : List ℕ) × (harness_step_begin fifo h ≡ some (h1, left))
        × InStep k h1
        × (h1.ours ≡ h.ours)
        × (h1.control ≡ h.control)
        × (h1.snapshots ≡ h.snapshots)
  unfolding harness_step_begin
  harness_step_begin-InStep k fifo h v = elim (Bool-cases (is_set (var_at h at_kbd_enabled))) [
    | inr e ↦ (h, fifo, rw e refl, v, refl, refl, refl)
    | inl e ↦
        let (q, bytes, left, drained, w, _, _, _) =
          drain_kbd_fifo-Drained (kbd_queue_size + 1) fifo h.keyboard v.queue
            (omega (arith, v.queue.used)) in
        (
          record h { keyboard = q },
          left,
          rw (harness_step_begin, e, drained) refl,
          record {
            synced = record { wired = v.synced.wired; drained = v.synced.drained };
            queue = w;
          },
          refl,
          refl,
          refl,
        )
  ]

  inject_divergence-kept :
      (z : Settings) (h : Harness H)
      → ((inject_divergence z h).ours.platform ≡ h.ours.platform)
        × ((inject_divergence z h).keyboard ≡ h.keyboard)
        × ((inject_divergence z h).snapshots ≡ h.snapshots)
  unfolding inject_divergence
  inject_divergence-kept z h =
      elim (Bool-cases (is_set z.inject_divergence && (var_at h at_step_count == z.inject_at))) [
        | inl e ↦ rw e (refl, refl, refl)
        | inr e ↦ rw e (refl, refl, refl)
      ]

  -- One step: the hooks of its begin and its end, and the verdict.
  pub record StepOf (k : ℕ) (z : Settings) (t : Emu86Tables) (info : Emu86YieldInfo) (r : RefStep)
      (pipe left : List ℕ) (h : Harness H) (e : Ended H) : Type 0 where
    pub begun : Harness H
    pub h1 : Harness H
    pub printed : List ℕ
    pub begins : harness_step_begin (pipe ++ r.typed) h ≡ some (begun, left)
    pub ends : harness_step_end z t info r.datagrams r.reached (polled r begun) ≡ some e
    pub stepped : Stepped k t info (polled r begun) h1 printed
    pub verdict : Verdict r.reached (inject_divergence z (count_step h1)) e

  -- The steps of the lockstep along the reference's: all but the last one went on.
  pub data Runs (k : ℕ) (z : Settings) (t : Emu86Tables) (info : Emu86YieldInfo)
      : List RefStep → List ℕ → Harness H → Ended H → Type 0 where
    over : {pipe : List ℕ} {h : Harness H} → Runs k z t info [] pipe h (goes_on h)
    last :
        {r : RefStep} {rs : List RefStep} {pipe left : List ℕ} {h h' : Harness H} {code : ℕ}
        → StepOf k z t info r pipe left h (exits code h')
        → Runs k z t info (r ∷ rs) pipe h (exits code h')
    next :
        {r : RefStep} {rs : List RefStep} {pipe left : List ℕ} {h h' : Harness H} {e : Ended H}
        → StepOf k z t info r pipe left h (goes_on h')
        → Runs k z t info rs left h' e
        → Runs k z t info (r ∷ rs) pipe h e

  module _ (k : ℕ) (z : Settings) (t : Emu86Tables) (info : Emu86YieldInfo) (low : 3 ≤ k)
      (high : k < 30) (off : z.selftest_mode ≡ 0) where
    lockstep_step-StepOf :
        (r : RefStep) (pipe : List ℕ) (h : Harness H)
        → InStep k h
        → (left : List ℕ) × (e : Ended H) × (lockstep_step z t info r pipe h ≡ some (left, e))
          × StepOf k z t info r pipe left h e
          × (h1 : Harness H) × InStep k h1
          × Verdict r.reached (inject_divergence z (count_step h1)) e
    unfolding lockstep_step count_step
    lockstep_step-StepOf r pipe h v =
        let (begun, left, begins, w, _, _, _) = harness_step_begin-InStep k (pipe ++ r.typed) h v in
        let polls = polled r begun in
        let synced : Synced k polls = record {
          wired = w.synced.wired;
          drained = w.synced.drained;
        } in
        let (cs, h1, e, ends, stepped, verdict) =
          harness_step_end-Verdict k z t info r.datagrams r.reached polls low high off synced in
        let queue =
          replicate_kbd_byte-IsQueue polls.keyboard polls.ours.platform.console_in
            (poll_kbd-IsQueue r.polls begun.keyboard w.queue) in
        (
          left,
          e,
          rw (lockstep_step, begins, ◌>>=◌, ends) refl,
          record {
            begun = begun;
            h1 = h1;
            printed = cs;
            begins = begins;
            ends = ends;
            stepped = stepped;
            verdict = verdict;
          },
          h1,
          record { synced = stepped.synced; queue = rw (sym stepped.keyboard) at queue },
          verdict,
        )

    goes_on-InStep :
        (ref : Reference) (h h' : Harness H)
        → InStep k h
        → Verdict ref (inject_divergence z (count_step h)) (goes_on h')
        → InStep k h'
    unfolding count_step
    goes_on-InStep ref h h' v (clean c) =
        let (platform, keyboard, _) = inject_divergence-kept z (count_step h) in
        let same : h'.ours.platform ≡ h.ours.platform = ap (λ o. o.platform) c.ours ∙ platform in
        record {
          synced = record {
            wired = subst (Wired k) (sym same) v.synced.wired;
            drained = ap (λ p. contents p.console_out) same ∙ v.synced.drained;
          };
          queue = subst IsQueue (sym (c.keyboard ∙ keyboard)) v.queue;
        }

    lockstep-more :
        (r : RefStep) (rs : List RefStep) (pipe left : List ℕ) (h h' : Harness H)
        → lockstep_step z t info r pipe h ≡ some (left, goes_on h')
        → lockstep z t info (r ∷ rs) pipe h ≡ lockstep z t info rs left h'
    unfolding lockstep
    lockstep-more r rs pipe left h h' e = rw (lockstep, e) refl

    lockstep-exits :
        (r : RefStep) (rs : List RefStep) (pipe left : List ℕ) (h h' : Harness H) (code : ℕ)
        → lockstep_step z t info r pipe h ≡ some (left, exits code h')
        → lockstep z t info (r ∷ rs) pipe h ≡ some (exits code h')
    unfolding lockstep
    lockstep-exits r rs pipe left h h' code e = rw (lockstep, e) refl

    lockstep-nil : (pipe : List ℕ) (h : Harness H) → lockstep z t info [] pipe h ≡ some (goes_on h)
    unfolding lockstep
    lockstep-nil pipe h = refl

    first_step :
        (r : RefStep) (rs : List RefStep) (pipe left : List ℕ) (h h1 : Harness H) (e : Ended H)
        → ((left : List ℕ) (h' : Harness H)
            → InStep k h'
            → (e : Ended H) × (lockstep z t info rs left h' ≡ some e)
              × Runs k z t info rs left h' e)
        → lockstep_step z t info r pipe h ≡ some (left, e)
        → StepOf k z t info r pipe left h e
        → Verdict r.reached (inject_divergence z (count_step h1)) e
        → InStep k h1
        → (e' : Ended H) × (lockstep z t info (r ∷ rs) pipe h ≡ some e')
          × Runs k z t info (r ∷ rs) pipe h e'
    first_step r rs pipe left h h1 (goes_on h') more done step verdict w =
        let later = more left h' (goes_on-InStep r.reached h1 h' w verdict) in
        (later.0, lockstep-more r rs pipe left h h' done ∙ later.1, next step later.2)
    first_step r rs pipe left h h1 (exits code h') more done step verdict w =
        (exits code h', lockstep-exits r rs pipe left h h' code done, last step)

    -- Out of the self-test, with console rings of 2 ^ k bytes, k from 3 to 29, and a keyboard queue
    -- that is one: along any steps of the reference the harness comes to an end, no loop of it is
    -- short of fuel, and each of its steps ends with the verdict on the two states after it: it went
    -- on only with states that match.
    pub lockstep-Runs :
        (rs : List RefStep) (pipe : List ℕ) (h : Harness H)
        → InStep k h
        → (e : Ended H) × (lockstep z t info rs pipe h ≡ some e) × Runs k z t info rs pipe h e
    lockstep-Runs [] pipe h v = (goes_on h, lockstep-nil pipe h, over)
    lockstep-Runs (r ∷ rs) pipe h v =
        let (left, e, done, step, h1, w, verdict) = lockstep_step-StepOf r pipe h v in
        first_step r rs pipe left h h1 e (lockstep-Runs rs) done step verdict w
