-- ===== src/Harness/Snapshots.antt =====
-- packages/emu86/harness/harness.c: the snapshots of the two states before a step.
--
-- The two buffers of a side are called by the role that the pointers give them.
use huxley.Base.{ℕ, ◌+◌, ◌*◌, ltb, if◌then◌else◌, u32}
use huxley.State.{Emu86State, sreg_cs, emu86_mem_size}
use huxley.Harness.Reference.{Reference, pack_ref_flags, ref_to_ours_sreg}
use huxley.Harness.Reference.{ref_ram_size, ref_reg_es, ref_reg_cs}

pub record StepSnapshot : Type 0 where
  pub regs : ℕ → ℕ
  pub sregs : ℕ → ℕ
  pub ip : ℕ
  pub flags : ℕ
  pub int8_asap : ℕ
  pub seg_override_en : ℕ
  pub rep_override_en : ℕ
  pub trap_flag : ℕ
  pub seg_override : ℕ
  pub rep_mode : ℕ
  pub opcode_bytes : ℕ → ℕ
  pub inst_count : ℕ

-- The bytes at CS:IP, or 0 behind the end of the memory.
abbrev pub opcodes_at : (ℕ → ℕ) → ℕ → ℕ → ℕ → ℕ
opcodes_at mem size lin i = if ltb (lin + i) size then mem (lin + i) else 0

unfoldable pub populate_ref_snapshot : Reference → StepSnapshot
populate_ref_snapshot r = record {
  regs = r.regs16;
  sregs = λ i. r.regs16 (ref_reg_es + i);
  ip = r.reg_ip;
  flags = pack_ref_flags r;
  int8_asap = r.int8_asap;
  seg_override_en = r.seg_override_en;
  rep_override_en = r.rep_override_en;
  trap_flag = r.trap_flag;
  seg_override = ref_to_ours_sreg r.seg_override;
  rep_mode = r.rep_mode;
  opcode_bytes = opcodes_at r.mem ref_ram_size (r.regs16 ref_reg_cs * 16 + r.reg_ip);
  inst_count = r.inst_counter;
}

unfoldable pub populate_our_snapshot : Emu86State → StepSnapshot
populate_our_snapshot s = record {
  regs = s.regs;
  sregs = s.sregs;
  ip = s.ip;
  flags = s.flags;
  int8_asap = s.int8_asap;
  seg_override_en = s.seg_override_en;
  rep_override_en = s.rep_override_en;
  trap_flag = s.trap_flag;
  seg_override = s.seg_override;
  rep_mode = s.rep_mode;
  opcode_bytes = opcodes_at s.mem emu86_mem_size (s.sregs sreg_cs * 16 + s.ip);
  inst_count = u32 s.inst_count;
}

pub record Snapshots : Type 0 where
  pub pre_ref : StepSnapshot
  pub next_ref : StepSnapshot
  pub pre_our : StepSnapshot
  pub next_our : StepSnapshot

unfoldable pub rotate_snapshots : Snapshots → Snapshots
rotate_snapshots s = record {
  pre_ref = s.next_ref;
  next_ref = s.pre_ref;
  pre_our = s.next_our;
  next_our = s.pre_our;
}

-- The end of a clean step: the two buffers are filled, and the pointers swapped.
unfoldable pub take_snapshots : Emu86State → Reference → Snapshots → Snapshots
unfolding rotate_snapshots
take_snapshots ours ref s =
    rotate_snapshots
      (record s { next_ref = populate_ref_snapshot ref; next_our = populate_our_snapshot ours })
