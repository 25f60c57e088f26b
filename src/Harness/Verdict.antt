-- ===== src/Harness/Verdict.antt =====
-- packages/emu86/harness/harness.c: how the end of a step relates to the two states.
use huxley.Base.{ℕ, ◌≡◌, ◌≤◌, ◌<◌, ◌⊎◌, inl, inr, refl, ap, arith, ◌==◌, ◌&&◌, ◌%◌, is_set}
use huxley.Base.{true, Bool-cases, some, List}
use huxley.State.{Emu86State}
use huxley.Decode.{Emu86Tables}
use huxley.Run.Loop.{Emu86YieldInfo}
use huxley.Harness.Reference.{Reference}
use huxley.Harness.Scan.{clear_or_zero, zero_clear}
use huxley.Harness.Agree.{AgreeCheap, Agree}
use huxley.Harness.Compare.{compare_step}
use huxley.Harness.Full.{compare_step-Agree}
use huxley.Harness.Snapshots.{
  populate_ref_snapshot, populate_our_snapshot, take_snapshots, rotate_snapshots,
}
use huxley.Harness.Step.{
  Settings, Harness, Ended, goes_on, exits, var_at, at_fast_compare, at_compare_cheap,
  at_compare_full, at_step_count, limit_reached, compared, keep_snapshots, serve_control,
  finish_step, inject_divergence, count_step, step_ours, harness_step_end,
}
use huxley.Harness.Lockstep.{Synced, Stepped, step_ours-Stepped}

-- What a clean comparison means: full agreement, or in the fast mode and outside of a repetition
-- agreement on all but the memory and the ports.
abbrev pub Matches : ℕ → Emu86State → Reference → Type 0
Matches fast ours ref =
    Agree ours ref
    ⊎ (AgreeCheap ours ref
        × (is_set fast ≡ true)
        × (ours.rep_override_en ≡ 0)
        × (ref.rep_override_en ≡ 0))

module _ {H : Type 0} where
  -- The states agree, and are remembered for the report of the next step.
  pub record Confirmed (ref : Reference) (h h' : Harness H) : Type 0 where
    pub matches : Matches (var_at h at_fast_compare) h.ours.state ref
    pub ours : h'.ours ≡ h.ours
    pub keyboard : h'.keyboard ≡ h.keyboard
    pub pre_ref : h'.snapshots.pre_ref ≡ populate_ref_snapshot ref
    pub pre_our : h'.snapshots.pre_our ≡ populate_our_snapshot h.ours.state

  -- The ends of a step: the harness goes on or exits with 0 only if the states agree, and exits with
  -- 2 only if they do not; it then still holds the snapshots of the step before.
  pub data Verdict (ref : Reference) (h : Harness H) : Ended H → Type 0 where
    clean : {h' : Harness H} → Confirmed ref h h' → Verdict ref h (goes_on h')
    passed :
        {h' : Harness H} → Confirmed ref h h' → limit_reached h' ≡ true → Verdict ref h (exits 0 h')
    diverged :
        {h' : Harness H}
        → (Matches (var_at h at_fast_compare) h.ours.state ref → ⊥)
        → h'.ours ≡ h.ours
        → h'.snapshots ≡ h.snapshots
        → Verdict ref h (exits 2 h')

  serve_control-Confirmed :
      (z : Settings) (datagrams : List (List ℕ)) (ref : Reference) (h h' : Harness H)
      → Confirmed ref h h'
      → Confirmed ref h (serve_control z datagrams h')
  unfolding serve_control
  serve_control-Confirmed z datagrams ref h h' v =
      elim (Bool-cases (is_set z.control_enabled && (var_at h' at_step_count % 1000 == 0))) [
        | inl e ↦ rw e (record {
          matches = v.matches;
          ours = v.ours;
          keyboard = v.keyboard;
          pre_ref = v.pre_ref;
          pre_our = v.pre_our;
        })
        | inr e ↦ rw e v
      ]

  snapshots-Confirmed :
      (ref : Reference) (h h' : Harness H)
      → Matches (var_at h at_fast_compare) h.ours.state ref
      → h'.ours ≡ h.ours
      → h'.keyboard ≡ h.keyboard
      → Confirmed ref h (keep_snapshots ref h')
  unfolding take_snapshots rotate_snapshots
  snapshots-Confirmed ref h h' m e f = record {
    matches = m;
    ours = e;
    keyboard = f;
    pre_ref = refl;
    pre_our = ap (λ o. populate_our_snapshot o.state) e;
  }

  pub finish_step-Verdict :
      (z : Settings) (datagrams : List (List ℕ)) (ref : Reference) (h : Harness H)
      → Verdict ref h (finish_step z datagrams ref h)
  unfolding finish_step compared
  finish_step-Verdict z datagrams ref h =
      let fast = var_at h at_fast_compare in
      let m = var_at h at_compare_cheap in
      let n = var_at h at_compare_full in
      let result = compare_step fast h.ours.state ref m n in
      let (to, from) = compare_step-Agree fast h.ours.state ref m n in
      let h1 = (compared ref h).1 in
      let h2 = serve_control z datagrams (keep_snapshots ref h1) in
      elim (Bool-cases (is_set result.dflags)) [
        | inl e ↦ rw e (diverged (λ v. absurd (ground (arith, from v, e))) refl refl)
        | inr e ↦
            let match = to (clear_or_zero result.dflags e) in
            let kept =
              serve_control-Confirmed z datagrams ref h _
                (snapshots-Confirmed ref h h1 match refl refl) in
            elim (Bool-cases (limit_reached h2)) [
              | inl l ↦ rw (e, l) (passed kept l)
              | inr l ↦ rw (e, l) (clean kept)
            ]
      ]

  pub stepped_end :
      (z : Settings) (t : Emu86Tables) (info : Emu86YieldInfo) (datagrams : List (List ℕ))
      (ref : Reference) (h h1 : Harness H)
      → z.selftest_mode ≡ 0
      → step_ours t info h ≡ some h1
      → harness_step_end z t info datagrams ref h
        ≡ some (finish_step z datagrams ref (inject_divergence z (count_step h1)))
  unfolding harness_step_end
  stepped_end z t info datagrams ref h h1 off e =
      rw (harness_step_end, e, zero_clear z.selftest_mode off) refl

  -- Out of the self-test, and with console rings of 2 ^ k bytes, k from 3 to 29, that are in step:
  -- after each instruction of the reference the harness runs its emulator once, reads the console
  -- empty, counts the step, and ends with a verdict on the two states. It goes on, or exits with 0 at
  -- the limit, only with states that match, which it then holds as those before the next step; it
  -- exits with 2 only with states that do not match.
  pub harness_step_end-Verdict :
      (k : ℕ) (z : Settings) (t : Emu86Tables) (info : Emu86YieldInfo) (datagrams : List (List ℕ))
      (ref : Reference) (h : Harness H)
      → 3 ≤ k
      → k < 30
      → z.selftest_mode ≡ 0
      → Synced k h
      → (cs : List ℕ) × (h1 : Harness H) × (e : Ended H) × (harness_step_end z t info datagrams ref
            h
          ≡ some e)
        × Stepped k t info h h1 cs
        × Verdict ref (inject_divergence z (count_step h1)) e
  harness_step_end-Verdict k z t info datagrams ref h low high off v =
      let (cs, h1, e, stepped) = step_ours-Stepped k t info h low high v in
      (
        cs,
        h1,
        _,
        stepped_end z t info datagrams ref h h1 off e,
        stepped,
        finish_step-Verdict z datagrams ref _,
      )
