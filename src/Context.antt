-- ===== src/Context.antt =====
-- The decode context of packages/emu86/src/emulator/decode.h: the transient result of decoding one
-- instruction. The signed scratch fields, which nothing writes, stand for their zero bits.
use huxley.Base.{ℕ}

pub record DecodeContext : Type 0 where
  pub opcode : ℕ
  pub xlat_id : ℕ
  pub extra : ℕ
  pub has_modrm : ℕ
  pub operand_width : ℕ
  pub direction : ℕ
  pub mode : ℕ
  pub reg : ℕ
  pub rm : ℕ
  pub reg4bit : ℕ
  pub set_flags_type : ℕ
  pub inst_length : ℕ
  pub data0 : ℕ
  pub data1 : ℕ
  pub data2 : ℕ
  pub immediate : ℕ
  pub displacement : ℕ
  pub rm_addr : ℕ
  pub op_to_addr : ℕ
  pub op_from_addr : ℕ
  pub op_source : ℕ
  pub op_dest : ℕ
  pub op_result : ℕ
  pub scratch_uint : ℕ
  pub scratch2_uint : ℕ
  pub scratch_int : ℕ
  pub scratch_uchar : ℕ
  pub ip_changed : ℕ

-- `memset(d, 0, sizeof(DecodeContext))`
abbrev pub blank : DecodeContext
blank = record {
  opcode = 0;
  xlat_id = 0;
  extra = 0;
  has_modrm = 0;
  operand_width = 0;
  direction = 0;
  mode = 0;
  reg = 0;
  rm = 0;
  reg4bit = 0;
  set_flags_type = 0;
  inst_length = 0;
  data0 = 0;
  data1 = 0;
  data2 = 0;
  immediate = 0;
  displacement = 0;
  rm_addr = 0;
  op_to_addr = 0;
  op_from_addr = 0;
  op_source = 0;
  op_dest = 0;
  op_result = 0;
  scratch_uint = 0;
  scratch2_uint = 0;
  scratch_int = 0;
  scratch_uchar = 0;
  ip_changed = 0;
}
