-- ===== src/Harness/Reference.antt =====
-- packages/emu86/harness/harness.c: the reference emulator's globals, as the harness reads them.
--
-- The reference emulator itself is vendored; its variables are the fields of a record. The arrays
-- `regs16` and `regs8` are pointers into its memory, and fields of their own here.
use huxley.Base.{ℕ, ◌-◌, leb, if◌then◌else◌, is_set, bit_or, u8}
use huxley.Base.{Bool, ◌&&◌, List, [], ◌∷◌}
use huxley.State.{flag_cf, flag_pf, flag_af, flag_zf, flag_sf, flag_tf, flag_if, flag_df, flag_of}

pub record Reference : Type 0 where
  pub mem : ℕ → ℕ
  pub io_ports : ℕ → ℕ
  pub regs16 : ℕ → ℕ
  pub regs8 : ℕ → ℕ
  pub reg_ip : ℕ
  pub inst_counter : ℕ
  pub int8_asap : ℕ
  pub trap_flag : ℕ
  pub seg_override_en : ℕ
  pub seg_override : ℕ
  pub rep_override_en : ℕ
  pub rep_mode : ℕ
  pub spkr_en : ℕ
  pub io_hi_lo : ℕ

abbrev pub ref_ram_size : ℕ
ref_ram_size = 0x10_FFF0

abbrev pub ref_io_port_count : ℕ
ref_io_port_count = 0x1_0000

abbrev pub ref_regs_base : ℕ
ref_regs_base = 0xF_0000

abbrev pub ref_reg_es : ℕ
ref_reg_es = 8

abbrev pub ref_reg_cs : ℕ
ref_reg_cs = 9

-- `if (b) f |= bit;`
unfoldable pub mark : Bool → ℕ → ℕ → ℕ
mark b bit f = if b then bit_or f bit else f

-- A sequence of such statements.
unfoldable pub marks : List (Bool × ℕ) → ℕ → ℕ
unfolding mark
marks [] f = f
marks ((b, bit) ∷ rest) f = marks rest (mark b bit f)

-- `regs8[REF_FLAG_CF]` to `regs8[REF_FLAG_OF]` are the bytes 40 to 48.
abbrev pub ref_flags : Reference → List (Bool × ℕ)
ref_flags r =
    (is_set (r.regs8 40), flag_cf)
    ∷ (is_set (r.regs8 41), flag_pf)
    ∷ (is_set (r.regs8 42), flag_af)
    ∷ (is_set (r.regs8 43), flag_zf)
    ∷ (is_set (r.regs8 44), flag_sf)
    ∷ (is_set (r.regs8 45), flag_tf)
    ∷ (is_set (r.regs8 46), flag_if)
    ∷ (is_set (r.regs8 47), flag_df)
    ∷ (is_set (r.regs8 48), flag_of)
    ∷ []

unfoldable pub pack_ref_flags : Reference → ℕ
unfolding marks
pack_ref_flags r = marks (ref_flags r) 0

unfoldable pub ref_to_ours_sreg : ℕ → ℕ
ref_to_ours_sreg ref_sreg = if leb 8 ref_sreg && leb ref_sreg 11 then u8 (ref_sreg - 8) else 0xFF
