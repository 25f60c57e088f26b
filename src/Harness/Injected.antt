-- ===== src/Harness/Injected.antt =====
-- packages/emu86/harness/harness.c: the test hook that makes the two states differ is noticed.
use huxley.Base.{ℕ, ◌+◌, ◌≡◌, inl, inr, refl, sym, ap, ◌∙◌, arith, ◌==◌}
use huxley.Base.{true, is_set, u16, u64, bit_xor, some, List}
use huxley.Base.Bits.{bit_xor_step}
use huxley.State.{Emu86State, reg_ax}
use huxley.Decode.{Emu86Tables}
use huxley.Run.Loop.{Emu86YieldInfo}
use huxley.Harness.Reference.{Reference}
use huxley.Harness.Step.{
  Settings, Harness, Ended, exits, var_at, at_fast_compare, at_step_count, inject_divergence,
  count_step, step_ours, harness_step_end,
}
use huxley.Harness.Verdict.{
  Matches, Verdict, clean, passed, diverged, finish_step-Verdict, stepped_end,
}

-- The mask is odd, so that the lowest bit changes.
bit_xor_differs : (n : ℕ) → u16 (bit_xor n 0xBEEF) ≡ n → ⊥
bit_xor_differs n e = absurd (omega (arith, bit_xor_step n 0xBEEF, e))

AgreeCheap-ax :
    (fast : ℕ) (s : Emu86State) (ref : Reference)
    → Matches fast s ref
    → s.regs reg_ax ≡ ref.regs16 0
AgreeCheap-ax fast s ref (inl v) = v.cheap.regs 0 (omega arith) (omega arith)
AgreeCheap-ax fast s ref (inr (v, _, _, _)) = v.regs 0 (omega arith) (omega arith)

module _ {H : Type 0} where
  not_matching :
      (ref : Reference) (h : Harness H) (e : Ended H)
      → Verdict ref h e
      → (Matches (var_at h at_fast_compare) h.ours.state ref → ⊥)
      → (h' : Harness H) × (e ≡ exits 2 h')
  not_matching ref h e (clean c) apart = absurd (apart c.matches)
  not_matching ref h e (passed c l) apart = absurd (apart c.matches)
  not_matching ref h e (diverged {h'} m o s) apart = (h', refl)

  ax-inject_divergence :
      (z : Settings) (h : Harness H)
      → is_set z.inject_divergence ≡ true
      → z.inject_at ≡ u64 (var_at h at_step_count + 1)
      → (inject_divergence z (count_step h)).ours.state.regs reg_ax
        ≡ u16 (bit_xor (h.ours.state.regs reg_ax) 0xBEEF)
  unfolding inject_divergence count_step
  ax-inject_divergence z h on at =
      let here : (u64 (var_at h at_step_count + 1) == z.inject_at) ≡ true = ground (arith, at) in
      rw (inject_divergence, on, here) refl

  -- An injected divergence is noticed: out of the self-test, at the step that the injection is set
  -- for, and if the emulator's AX after the instruction is the reference's, the harness exits with 2.
  pub harness_step_end-exits :
      (z : Settings) (t : Emu86Tables) (info : Emu86YieldInfo) (datagrams : List (List ℕ))
      (ref : Reference) (h h1 : Harness H)
      → z.selftest_mode ≡ 0
      → is_set z.inject_divergence ≡ true
      → step_ours t info h ≡ some h1
      → z.inject_at ≡ u64 (var_at h1 at_step_count + 1)
      → h1.ours.state.regs reg_ax ≡ ref.regs16 0
      → (h' : Harness H) × (harness_step_end z t info datagrams ref h ≡ some (exits 2 h'))
  harness_step_end-exits z t info datagrams ref h h1 off on e at same =
      let hi = inject_divergence z (count_step h1) in
      let apart : Matches (var_at hi at_fast_compare) hi.ours.state ref → ⊥ = λ m.
        bit_xor_differs (h1.ours.state.regs reg_ax) (
          sym (ax-inject_divergence z h1 on at)
          ∙ AgreeCheap-ax (var_at hi at_fast_compare) hi.ours.state ref m
          ∙ sym same) in
      let (h', ends) = not_matching ref hi _ (finish_step-Verdict z datagrams ref hi) apart in
      (h', stepped_end z t info datagrams ref h h1 off e ∙ ap some ends)
