-- ===== src/Harness/Agree.antt =====
-- packages/emu86/harness/harness.c: what it means that the comparison finds nothing.
use huxley.Base.{◌+◌, ◌-◌, ◌≡◌, ◌⊎◌, ◌↔◌, inl, inr, ap, arith, ◌&&◌, is_set, bit_and, u32}
use huxley.Base.{false}
use huxley.State.{Emu86State}
use huxley.Harness.Reference.{Reference, pack_ref_flags, ref_to_ours_sreg}
use huxley.Harness.Reference.{ref_ram_size, ref_io_port_count, ref_regs_base, ref_reg_es}
use huxley.Harness.Compare.{
  is_some, differ, prefix_differs, reg_zero, cheap_tests, compare_states_cheap,
}
use huxley.Harness.Scan.{
  AllFalse, AllPositive, SameCells, marks_null, marks_none, differ_eq, differ_same, or_split,
  and_split, or_join, and_join, zero_clear, clear_or_zero, first_difference-SameCells,
  first_difference-none,
}

-- What the cheap comparison compares. The segment of an override counts only where one is in force
-- and is not the reference's placeholder for LEA, the mode of a repetition only under a prefix.
pub record AgreeCheap (ours : Emu86State) (ref : Reference) : Type 0 where
  pub ip : ours.ip ≡ ref.reg_ip
  pub regs : SameCells ours.regs ref.regs16 0 8
  pub sregs : SameCells ours.sregs (λ i. ref.regs16 (ref_reg_es + i)) 0 4
  pub flags : pack_ref_flags ref ≡ bit_and ours.flags 0x0FD5
  pub seg_override_en : ours.seg_override_en ≡ ref.seg_override_en
  pub seg_override :
      (ref.seg_override_en ≡ 0)
      ⊎ ((ref.seg_override ≡ reg_zero) ⊎ (ours.seg_override ≡ ref_to_ours_sreg ref.seg_override))
  pub rep_override_en : ours.rep_override_en ≡ ref.rep_override_en
  pub rep_mode : (ref.rep_override_en ≡ 0) ⊎ (ours.rep_mode ≡ ref.rep_mode)
  pub trap_flag : ours.trap_flag ≡ ref.trap_flag
  pub int8_asap : ours.int8_asap ≡ ref.int8_asap
  pub inst_count : u32 ours.inst_count ≡ ref.inst_counter
  pub spkr_en : ours.spkr_en ≡ ref.spkr_en
  pub pit_lobyte_pending : ours.pit_lobyte_pending ≡ ref.io_hi_lo

-- What the full comparison adds: the ports, and the memory but for the reference's registers.
pub record Agree (ours : Emu86State) (ref : Reference) : Type 0 where
  pub cheap : AgreeCheap ours ref
  pub low : SameCells ours.mem ref.mem 0 ref_regs_base
  pub high :
      SameCells ours.mem ref.mem (ref_regs_base + 0x100) (ref_ram_size - (ref_regs_base + 0x100))
  pub ports : SameCells ours.io_ports ref.io_ports 0 ref_io_port_count

module _ (ours : Emu86State) (ref : Reference) where
  SegmentAgrees : Type 0
  SegmentAgrees =
      (ref.seg_override_en ≡ 0)
      ⊎ ((ref.seg_override ≡ reg_zero) ⊎ (ours.seg_override ≡ ref_to_ours_sreg ref.seg_override))

  segment_split :
      (is_set ref.seg_override_en
          && (differ ref.seg_override reg_zero
              && differ ours.seg_override (ref_to_ours_sreg ref.seg_override)))
        ≡ false
      → SegmentAgrees
  unfolding SegmentAgrees
  segment_split e = elim (and_split _ _ e) [
    | inl f ↦ inl (clear_or_zero _ f)
    | inr f ↦ elim (and_split _ _ f) [
      | inl g ↦ inr (inl (differ_eq _ _ g))
      | inr g ↦ inr (inr (differ_eq _ _ g))
    ]
  ]

  segment_join :
      SegmentAgrees
      → (is_set ref.seg_override_en
          && (differ ref.seg_override reg_zero
              && differ ours.seg_override (ref_to_ours_sreg ref.seg_override)))
        ≡ false
  unfolding SegmentAgrees
  segment_join (inl e) = and_join _ _ (inl (zero_clear _ e))
  segment_join (inr (inl e)) = and_join _ _ (inr (and_join _ _ (inl (differ_same _ _ e))))
  segment_join (inr (inr e)) = and_join _ _ (inr (and_join _ _ (inr (differ_same _ _ e))))

  mode_split :
      (is_set ref.rep_override_en && differ ours.rep_mode ref.rep_mode) ≡ false
      → (ref.rep_override_en ≡ 0) ⊎ (ours.rep_mode ≡ ref.rep_mode)
  mode_split e = elim (and_split _ _ e) [
    | inl f ↦ inl (clear_or_zero _ f)
    | inr f ↦ inr (differ_eq _ _ f)
  ]

  mode_join :
      (ref.rep_override_en ≡ 0) ⊎ (ours.rep_mode ≡ ref.rep_mode)
      → (is_set ref.rep_override_en && differ ours.rep_mode ref.rep_mode) ≡ false
  mode_join (inl e) = and_join _ _ (inl (zero_clear _ e))
  mode_join (inr e) = and_join _ _ (inr (differ_same _ _ e))

  cheap_tests-AgreeCheap : AllFalse (cheap_tests ours ref) → AgreeCheap ours ref
  unfolding prefix_differs SegmentAgrees
  cheap_tests-AgreeCheap
        (ip, (regs, (sregs, (flags, (prefix, (trap, (int8, (count, (spkr, (pit, _)))))))))) =
      let (en, p1) = or_split _ _ prefix in
      let (seg, p2) = or_split _ _ p1 in
      let (rep, mode) = or_split _ _ p2 in
      record {
        ip = differ_eq _ _ ip;
        regs = first_difference-SameCells _ _ _ _ regs;
        sregs = first_difference-SameCells _ _ _ _ sregs;
        flags = differ_eq _ _ flags;
        seg_override_en = differ_eq _ _ en;
        seg_override = segment_split seg;
        rep_override_en = differ_eq _ _ rep;
        rep_mode = mode_split mode;
        trap_flag = differ_eq _ _ trap;
        int8_asap = differ_eq _ _ int8;
        inst_count = differ_eq _ _ count;
        spkr_en = differ_eq _ _ spkr;
        pit_lobyte_pending = differ_eq _ _ pit;
      }

  AgreeCheap-cheap_tests : AgreeCheap ours ref → AllFalse (cheap_tests ours ref)
  unfolding prefix_differs SegmentAgrees
  AgreeCheap-cheap_tests v = (
    differ_same _ _ v.ip,
    (
      ap is_some (first_difference-none _ _ _ _ v.regs),
      (
        ap is_some (first_difference-none _ _ _ _ v.sregs),
        (
          differ_same _ _ v.flags,
          (
            or_join _ _ (differ_same _ _ v.seg_override_en) (
                or_join _ _ (segment_join v.seg_override)
                  (or_join _ _ (differ_same _ _ v.rep_override_en) (mode_join v.rep_mode))),
            (
              differ_same _ _ v.trap_flag,
              (
                differ_same _ _ v.int8_asap,
                (
                  differ_same _ _ v.inst_count,
                  (differ_same _ _ v.spkr_en, (differ_same _ _ v.pit_lobyte_pending, tt)),
                ),
              ),
            ),
          ),
        ),
      ),
    ),
  )

  positive : AllPositive (cheap_tests ours ref)
  positive = (
    omega arith,
    (
      omega arith,
      (
        omega arith,
        (
          omega arith,
          (
            omega arith,
            (omega arith, (omega arith, (omega arith, (omega arith, (omega arith, tt))))),
          ),
        ),
      ),
    ),
  )

  -- The cheap comparison reports no category exactly if the two states agree on all but the memory
  -- and the ports.
  pub compare_states_cheap-AgreeCheap :
      ((compare_states_cheap ours ref).0 ≡ 0) ↔ AgreeCheap ours ref
  unfolding compare_states_cheap
  compare_states_cheap-AgreeCheap = (
    λ e. cheap_tests-AgreeCheap (marks_null (cheap_tests ours ref) 0 positive e).1,
    λ v. marks_none (cheap_tests ours ref) 0 (AgreeCheap-cheap_tests v),
  )
