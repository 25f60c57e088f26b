-- ===== src/Harness/Full.antt =====
-- packages/emu86/harness/harness.c: the full comparison, the comparison of a step and the self-test.
use huxley.Base.{
  ℕ, ◌≡◌, ◌⊎◌, ◌↔◌, inl, inr, refl, sym, ap, ◌∙◌, arith, ◌||◌, if◌then◌else◌, is_set, bit_and,
}
use huxley.Base.{Bool, true, false, Option, none, Bool-cases}
use huxley.State.{Emu86State}
use huxley.Harness.Reference.{Reference, mark}
use huxley.Harness.Compare.{
  is_some, compare_states_cheap, compare_states_full, merge, compare_step, div_mem, div_io_ports,
}
use huxley.Harness.Scan.{
  mark_null, or_split, or_join, zero_clear, clear_or_zero, first_difference-SameCells,
  first_difference-none,
}
use huxley.Harness.Agree.{AgreeCheap, Agree, compare_states_cheap-AgreeCheap}

bit_clear : is_set (bit_and 0 div_mem) ≡ false
bit_clear = refl

merge_null :
    (cheap reg : ℕ) (low upper io : Option ℕ)
    → (merge (cheap, reg) low upper io).flags ≡ 0
    → (cheap ≡ 0) × (is_some low ≡ false) × (is_some upper ≡ false) × (is_some io ≡ false)
unfolding merge
merge_null cheap reg low upper io e =
    let f1 = mark (is_some low) div_mem cheap in
    let (no_io, e2) = mark_null (is_some io) div_io_ports _ (omega arith) e in
    let (no_high, e1) = mark_null _ div_mem f1 (omega arith) e2 in
    let (no_low, e0) = mark_null (is_some low) div_mem cheap (omega arith) e1 in
    (e0, no_low, rw e1 at no_high, no_io)

module _ (ours : Emu86State) (ref : Reference) where
  full-Agree : (compare_states_full ours ref).flags ≡ 0 → Agree ours ref
  unfolding compare_states_full
  full-Agree e =
      let (cheap, low, high, io) = merge_null _ _ _ _ _ e in
      record {
        cheap = (compare_states_cheap-AgreeCheap ours ref).0 cheap;
        low = first_difference-SameCells _ _ _ _ low;
        high = first_difference-SameCells _ _ _ _ high;
        ports = first_difference-SameCells _ _ _ _ io;
      }

  merge-none :
      (cheap reg : ℕ) {low upper io : Option ℕ}
      → cheap ≡ 0
      → low ≡ none
      → upper ≡ none
      → io ≡ none
      → (merge (cheap, reg) low upper io).flags ≡ 0
  unfolding merge mark
  merge-none cheap reg e f g h = rw (e, f, g, h) refl

  Agree-full : Agree ours ref → (compare_states_full ours ref).flags ≡ 0
  unfolding compare_states_full
  Agree-full v =
      merge-none _ _ ((compare_states_cheap-AgreeCheap ours ref).1 v.cheap)
        (first_difference-none _ _ _ _ v.low) (first_difference-none _ _ _ _ v.high)
        (first_difference-none _ _ _ _ v.ports)

  pub compare_states_full-Agree : ((compare_states_full ours ref).flags ≡ 0) ↔ Agree ours ref
  compare_states_full-Agree = (full-Agree, Agree-full)

-- The outcome that a step keeps.
chosen : Bool → Bool → ℕ → ℕ → ℕ
chosen fast rep full cheap = if fast then (if is_set cheap || rep then full else cheap) else full

chosen_null :
    (fast rep : Bool) (full cheap : ℕ)
    → chosen fast rep full cheap ≡ 0
    → (full ≡ 0) ⊎ ((cheap ≡ 0) × (fast ≡ true) × (rep ≡ false))
unfolding chosen
chosen_null false rep full cheap e = inl e
chosen_null true rep full cheap e = elim (Bool-cases (is_set cheap || rep)) [
  | inl s ↦ inl (rw s at e)
  | inr s ↦ inr (rw s at e, refl, (or_split _ _ s).1)
]

chosen_cheap :
    (rep : Bool) (full cheap : ℕ) → cheap ≡ 0 → rep ≡ false → chosen true rep full cheap ≡ 0
unfolding chosen
chosen_cheap rep full cheap e f = rw (e, f) refl

chosen_full :
    (fast rep : Bool) (full cheap : ℕ) → full ≡ 0 → cheap ≡ 0 → chosen fast rep full cheap ≡ 0
unfolding chosen
chosen_full false rep full cheap e f = e
chosen_full true false full cheap e f = rw (e, f) refl
chosen_full true true full cheap e f = rw (e, f) refl

module _ (fast : ℕ) (ours : Emu86State) (ref : Reference) (m n : ℕ) where
  rep_this_step : Bool
  rep_this_step = is_set ours.rep_override_en || is_set ref.rep_override_en

  compare_step-chosen :
      (compare_step fast ours ref m n).dflags
      ≡ chosen
          (is_set fast)
          rep_this_step
          (compare_states_full ours ref).flags
          (compare_states_cheap ours ref).0
  unfolding compare_step chosen rep_this_step
  compare_step-chosen = elim (Bool-cases (is_set fast)) [
    | inl e ↦
        elim (Bool-cases (
          is_set (compare_states_cheap ours ref).0
          || (is_set ours.rep_override_en || is_set ref.rep_override_en))) [
            | inl f ↦ rw (e, f) refl
            | inr f ↦ rw (e, f) refl
          ]
    | inr e ↦ rw e refl
  ]

  clean-Agree :
      (compare_step fast ours ref m n).dflags ≡ 0
      → Agree ours ref
        ⊎ (AgreeCheap ours ref
            × (is_set fast ≡ true)
            × (ours.rep_override_en ≡ 0)
            × (ref.rep_override_en ≡ 0))
  unfolding rep_this_step
  clean-Agree e = elim (chosen_null _ _ _ _ (sym compare_step-chosen ∙ e)) [
    | inl full ↦ inl (full-Agree ours ref full)
    | inr (cheap, on, rep) ↦
        let (our_rep, ref_rep) = or_split _ _ rep in
        inr (
          (compare_states_cheap-AgreeCheap ours ref).0 cheap,
          on,
          clear_or_zero _ our_rep,
          clear_or_zero _ ref_rep,
        )
  ]

  Agree-clean : Agree ours ref → (compare_step fast ours ref m n).dflags ≡ 0
  Agree-clean v =
      compare_step-chosen
      ∙ chosen_full (is_set fast) rep_this_step _ _ (Agree-full ours ref v)
          ((compare_states_cheap-AgreeCheap ours ref).1 v.cheap)

  AgreeCheap-clean :
      AgreeCheap ours ref
      → is_set fast ≡ true
      → ours.rep_override_en ≡ 0
      → ref.rep_override_en ≡ 0
      → (compare_step fast ours ref m n).dflags ≡ 0
  unfolding rep_this_step
  AgreeCheap-clean v on our_rep ref_rep =
      compare_step-chosen
      ∙ ap
          (λ b.
            chosen b rep_this_step (compare_states_full ours ref).flags
              (compare_states_cheap ours ref).0)
          on
      ∙ chosen_cheap rep_this_step _ _ ((compare_states_cheap-AgreeCheap ours ref).1 v)
          (or_join _ _ (zero_clear _ our_rep) (zero_clear _ ref_rep))

  -- A step is reported clean exactly if the states agree, or if the fast mode is on, neither
  -- emulator is in a repetition, and all but the memory and the ports agrees.
  pub compare_step-Agree : ((compare_step fast ours ref m n).dflags ≡ 0) ↔ (
      Agree ours ref
      ⊎ (AgreeCheap ours ref
          × (is_set fast ≡ true)
          × (ours.rep_override_en ≡ 0)
          × (ref.rep_override_en ≡ 0)))
  compare_step-Agree = (
    clean-Agree,
    λ r. elim r [
      | inl v ↦ Agree-clean v
      | inr (v, on, our_rep, ref_rep) ↦ AgreeCheap-clean v on our_rep ref_rep
    ],
  )
