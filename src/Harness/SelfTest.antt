-- ===== src/Harness/SelfTest.antt =====
-- packages/emu86/harness/harness.c: the self-test copies the reference's state and compares.
use huxley.Base.{ℕ, ◌^◌, ◌≡◌, ◌≤◌, ◌<◌, ◌⊎◌, inl, inr, refl, sym, ◌∙◌, arith, bit_and}
use huxley.Base.{Bool, true, false, List, [], ◌∷◌}
use huxley.Base.Marks.{bit_and-bit_or}
use huxley.State.{Emu86State}
use huxley.Harness.Reference.{Reference, mark, marks, ref_flags, pack_ref_flags, ref_to_ours_sreg}
use huxley.Harness.Compare.{compare_states_full, copy_reference, reg_zero}
use huxley.Harness.Agree.{Agree}
use huxley.Harness.Full.{compare_states_full-Agree}

-- The bits of the tests are all in a mask.
abbrev AllMasked : ℕ → List (Bool × ℕ) → Type 0
AllMasked m [] = Unit {0}
AllMasked m ((b, bit) ∷ rest) = (bit_and bit m ≡ bit) × AllMasked m rest

mark_masked :
    (b : Bool) (bit f m : ℕ)
    → bit_and bit m ≡ bit
    → bit_and f m ≡ f
    → bit_and (mark b bit f) m ≡ mark b bit f
unfolding mark
mark_masked false bit f m e g = g
mark_masked true bit f m e g = bit_and-bit_or f bit m ∙ cc (e, g)

marks_masked :
    (m : ℕ) (tests : List (Bool × ℕ)) (f : ℕ)
    → AllMasked m tests
    → bit_and f m ≡ f
    → bit_and (marks tests f) m ≡ marks tests f
unfolding marks
marks_masked m [] f v g = g
marks_masked m ((b, bit) ∷ rest) f (e, v) g =
    marks_masked m rest (mark b bit f) v (mark_masked b bit f m e g)

-- The reference's flags are among the defined ones.
pub pack_ref_flags_masked :
    (ref : Reference) → bit_and (pack_ref_flags ref) 0x0FD5 ≡ pack_ref_flags ref
unfolding pack_ref_flags
pack_ref_flags_masked ref =
    marks_masked 0x0FD5 (ref_flags ref) 0
      (refl, (refl, (refl, (refl, (refl, (refl, (refl, (refl, (refl, tt))))))))) refl

-- An override that is off, the placeholder for LEA, or a segment register.
abbrev pub IsOverride : Reference → Type 0
IsOverride ref =
    (ref.seg_override_en ≡ 0)
    ⊎ ((ref.seg_override ≡ reg_zero) ⊎ ((8 ≤ ref.seg_override) × (ref.seg_override ≤ 11)))

module _ (ours : Emu86State) (ref : Reference) where
  copied_segment :
      8 ≤ ref.seg_override
      → ref.seg_override ≤ 11
      → (copy_reference ours ref).seg_override ≡ ref_to_ours_sreg ref.seg_override
  unfolding copy_reference
  copied_segment l h = ground arith

  segment_of :
      IsOverride ref
      → (ref.seg_override_en ≡ 0)
        ⊎ ((ref.seg_override ≡ reg_zero)
            ⊎ ((copy_reference ours ref).seg_override ≡ ref_to_ours_sreg ref.seg_override))
  segment_of (inl off) = inl off
  segment_of (inr (inl lea)) = inr (inl lea)
  segment_of (inr (inr (l, h))) = inr (inr (copied_segment l h))

  pub copy_reference-Agree :
      IsOverride ref → ref.inst_counter < 2 ^ 32 → Agree (copy_reference ours ref) ref
  unfolding copy_reference
  copy_reference-Agree v h = record {
    cheap = record {
      ip = refl;
      regs = λ i l h. ground arith;
      sregs = λ i l h. ground arith;
      flags = sym (pack_ref_flags_masked ref);
      seg_override_en = refl;
      seg_override = segment_of v;
      rep_override_en = refl;
      rep_mode = inr refl;
      trap_flag = refl;
      int8_asap = refl;
      inst_count = omega arith;
      spkr_en = refl;
      pit_lobyte_pending = refl;
    };
    low = λ i l h. ground arith;
    high = λ i l h. ground arith;
    ports = λ i l h. ground arith;
  }

  -- The self-test passes: after the copy of the reference's state, the full comparison reports no
  -- category. The reference's counter has 32 bits, and an override that is on names a segment
  -- register or the placeholder for LEA.
  copy_reference_clean :
      IsOverride ref
      → ref.inst_counter < 2 ^ 32
      → (compare_states_full (copy_reference ours ref) ref).flags ≡ 0
  copy_reference_clean v h =
      (compare_states_full-Agree (copy_reference ours ref) ref).1 (copy_reference-Agree v h)
