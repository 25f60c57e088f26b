-- ===== src/Harness/Compare.antt =====
-- packages/emu86/harness/harness.c: the comparison of the two emulators' states.
use huxley.Base.{ℕ, zero, suc, ◌+◌, ◌-◌, leb, ◌==◌, if◌then◌else◌, is_set, bit_and, u32, u64}
use huxley.Base.{Bool, true, false, not, ◌&&◌, ◌||◌, Option, none, some, List, [], ◌∷◌}
use huxley.State.{Emu86State}
use huxley.Harness.Reference.{Reference, mark, marks, pack_ref_flags, ref_to_ours_sreg}
use huxley.Harness.Reference.{ref_ram_size, ref_io_port_count, ref_regs_base, ref_reg_es}

abbrev pub div_ip : ℕ
div_ip = 0x001

abbrev pub div_regs : ℕ
div_regs = 0x002

abbrev pub div_sregs : ℕ
div_sregs = 0x004

abbrev pub div_flags : ℕ
div_flags = 0x008

abbrev pub div_prefix : ℕ
div_prefix = 0x010

abbrev pub div_trap_flag : ℕ
div_trap_flag = 0x020

abbrev pub div_int8_asap : ℕ
div_int8_asap = 0x040

abbrev pub div_inst_count : ℕ
div_inst_count = 0x080

abbrev pub div_mem : ℕ
div_mem = 0x100

abbrev pub div_io_ports : ℕ
div_io_ports = 0x200

abbrev pub div_spkr_en : ℕ
div_spkr_en = 0x400

abbrev pub div_io_hi_lo : ℕ
div_io_hi_lo = 0x800

abbrev pub reg_zero : ℕ
reg_zero = 12

-- A comparing loop over the `n` cells from `start` on, up to the first that differs.
unfoldable pub first_difference : (ℕ → ℕ) → (ℕ → ℕ) → ℕ → ℕ → Option ℕ
first_difference f g start zero = none
first_difference f g start (suc n) =
    let rest = first_difference f g (start + 1) n in if f start == g start then rest else some start

abbrev pub is_some : Option ℕ → Bool
is_some none = false
is_some (some i) = true

abbrev pub index_of : Option ℕ → ℕ
index_of none = 0xFFFF_FFFF
index_of (some i) = i

abbrev pub differ : ℕ → ℕ → Bool
differ a b = not (a == b)

unfoldable pub prefix_differs : Emu86State → Reference → Bool
unfolding ref_to_ours_sreg
prefix_differs ours ref =
    let seg_override_differs =
      is_set ref.seg_override_en
      && (differ ref.seg_override reg_zero
          && differ ours.seg_override (ref_to_ours_sreg ref.seg_override)) in
    differ ours.seg_override_en ref.seg_override_en
    || (seg_override_differs
        || (differ ours.rep_override_en ref.rep_override_en
            || (is_set ref.rep_override_en && differ ours.rep_mode ref.rep_mode)))

abbrev pub differing_reg : Emu86State → Reference → Option ℕ
differing_reg ours ref = first_difference ours.regs ref.regs16 0 8

abbrev pub differing_sreg : Emu86State → Reference → Option ℕ
differing_sreg ours ref = first_difference ours.sregs (λ i. ref.regs16 (ref_reg_es + i)) 0 4

-- The tests of `compare_states_cheap` with their categories.
abbrev pub cheap_tests : Emu86State → Reference → List (Bool × ℕ)
cheap_tests ours ref =
    (differ ours.ip ref.reg_ip, div_ip)
    ∷ (is_some (differing_reg ours ref), div_regs)
    ∷ (is_some (differing_sreg ours ref), div_sregs)
    ∷ (differ (pack_ref_flags ref) (bit_and ours.flags 0x0FD5), div_flags)
    ∷ (prefix_differs ours ref, div_prefix)
    ∷ (differ ours.trap_flag ref.trap_flag, div_trap_flag)
    ∷ (differ ours.int8_asap ref.int8_asap, div_int8_asap)
    ∷ (differ (u32 ours.inst_count) ref.inst_counter, div_inst_count)
    ∷ (differ ours.spkr_en ref.spkr_en, div_spkr_en)
    ∷ (differ ours.pit_lobyte_pending ref.io_hi_lo, div_io_hi_lo)
    ∷ []

-- The categories that differ, and `*reg_diff_idx`.
unfoldable pub compare_states_cheap : Emu86State → Reference → ℕ × ℕ
unfolding marks
compare_states_cheap ours ref = (marks (cheap_tests ours ref) 0, index_of (differing_reg ours ref))

pub record Differences : Type 0 where
  pub flags : ℕ
  pub mem_diff_addr : ℕ
  pub io_diff_addr : ℕ
  pub reg_diff_idx : ℕ

-- The outcome of the scans. The upper memory is only looked at if the lower one is the same.
unfoldable pub merge : ℕ × ℕ → Option ℕ → Option ℕ → Option ℕ → Differences
unfolding mark
merge (cheap, reg) low upper io =
    let f1 = mark (is_some low) div_mem cheap in
    let high = if is_set (bit_and f1 div_mem) then none else upper in
    let f2 = mark (is_some high) div_mem f1 in
    record {
      flags = mark (is_some io) div_io_ports f2;
      mem_diff_addr = index_of (if is_some low then low else high);
      io_diff_addr = index_of io;
      reg_diff_idx = reg;
    }

-- The register file of the reference lies at `ref_regs_base` in its memory: 256 bytes are skipped.
unfoldable pub compare_states_full : Emu86State → Reference → Differences
compare_states_full ours ref =
    let start = ref_regs_base + 0x100 in
    merge (compare_states_cheap ours ref) (first_difference ours.mem ref.mem 0 ref_regs_base)
      (first_difference ours.mem ref.mem start (ref_ram_size - start))
      (first_difference ours.io_ports ref.io_ports 0 ref_io_port_count)

-- What `harness_step_end` keeps of a comparison: the categories and the two counters.
pub record Compared : Type 0 where
  pub dflags : ℕ
  pub compare_cheap_count : ℕ
  pub compare_full_count : ℕ

-- The comparison of `harness_step_end`, with `harness_fast_compare` and the two counters.
unfoldable pub compare_step : ℕ → Emu86State → Reference → ℕ → ℕ → Compared
compare_step fast_compare ours ref cheap_count full_count =
    let full = (compare_states_full ours ref).flags in
    let cheap = (compare_states_cheap ours ref).0 in
    let rep_this_step = is_set ours.rep_override_en || is_set ref.rep_override_en in
    let both : Compared = record {
      dflags = full;
      compare_cheap_count = u64 (cheap_count + 1);
      compare_full_count = u64 (full_count + 1);
    } in
    if is_set fast_compare
    then (if is_set cheap || rep_this_step
        then both
        else record both { dflags = cheap; compare_full_count = full_count })
    else record both { compare_cheap_count = cheap_count }

-- The copy of the reference's state that `harness_step_end` makes in self-test mode.
unfoldable pub copy_reference : Emu86State → Reference → Emu86State
unfolding pack_ref_flags ref_to_ours_sreg
copy_reference ours ref =
    let so = ref_to_ours_sreg ref.seg_override in
    record ours {
      regs = λ i. if leb 8 i then ours.regs i else ref.regs16 i;
      sregs = λ i. if leb 4 i then ours.sregs i else ref.regs16 (ref_reg_es + i);
      ip = ref.reg_ip;
      flags = pack_ref_flags ref;
      mem = λ a.
          if (leb ref_regs_base a && not (leb (ref_regs_base + 0x100) a)) || leb ref_ram_size a
          then ours.mem a
          else ref.mem a;
      io_ports = λ p. if leb ref_io_port_count p then ours.io_ports p else ref.io_ports p;
      seg_override_en = ref.seg_override_en;
      seg_override = if so == 0xFF then 0 else so;
      rep_override_en = ref.rep_override_en;
      rep_mode = ref.rep_mode;
      trap_flag = ref.trap_flag;
      int8_asap = ref.int8_asap;
      spkr_en = ref.spkr_en;
      pit_lobyte_pending = ref.io_hi_lo;
      inst_count = ref.inst_counter;
    }
