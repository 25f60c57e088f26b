-- ===== src/State.antt =====
-- packages/emu86/src/emulator/state.h: the machine state and its boot values.
--
-- An array is a function of its index; the C array's length bounds the indices that the program may
-- use. The padding bytes of the C struct, which nothing reads or writes, have no field.
pub mod Words
pub mod Updates
use huxley.Base.{ℕ, update, u8, u16}

abbrev pub reg_ax : ℕ
reg_ax = 0

abbrev pub reg_cx : ℕ
reg_cx = 1

abbrev pub reg_dx : ℕ
reg_dx = 2

abbrev pub reg_bx : ℕ
reg_bx = 3

abbrev pub reg_sp : ℕ
reg_sp = 4

abbrev pub reg_bp : ℕ
reg_bp = 5

abbrev pub reg_si : ℕ
reg_si = 6

abbrev pub reg_di : ℕ
reg_di = 7

abbrev pub sreg_es : ℕ
sreg_es = 0

abbrev pub sreg_cs : ℕ
sreg_cs = 1

abbrev pub sreg_ss : ℕ
sreg_ss = 2

abbrev pub sreg_ds : ℕ
sreg_ds = 3

abbrev pub flag_cf : ℕ
flag_cf = 0x0001

abbrev pub flag_pf : ℕ
flag_pf = 0x0004

abbrev pub flag_af : ℕ
flag_af = 0x0010

abbrev pub flag_zf : ℕ
flag_zf = 0x0040

abbrev pub flag_sf : ℕ
flag_sf = 0x0080

abbrev pub flag_tf : ℕ
flag_tf = 0x0100

abbrev pub flag_if : ℕ
flag_if = 0x0200

abbrev pub flag_df : ℕ
flag_df = 0x0400

abbrev pub flag_of : ℕ
flag_of = 0x0800

abbrev pub emu86_mem_size : ℕ
emu86_mem_size = 0x11_0000

abbrev pub emu86_io_ports : ℕ
emu86_io_ports = 0x1_0000

abbrev pub emu86_num_disks : ℕ
emu86_num_disks = 3

abbrev pub emu86_num_pit : ℕ
emu86_num_pit = 3

abbrev pub emu86_kb_buf_size : ℕ
emu86_kb_buf_size = 16

pub record Disk : Type 0 where
  pub size : ℕ
  pub cylinders : ℕ
  pub heads : ℕ
  pub sectors : ℕ
  pub position : ℕ

pub record Pit : Type 0 where
  pub reload : ℕ
  pub counter : ℕ
  pub mode : ℕ

pub record Emu86State : Type 0 where
  pub regs : ℕ → ℕ
  pub sregs : ℕ → ℕ
  pub ip : ℕ
  pub flags : ℕ
  pub halted : ℕ
  pub trap_flag : ℕ
  pub int_pending : ℕ
  pub int_vector : ℕ
  pub seg_override_en : ℕ
  pub seg_override : ℕ
  pub rep_override_en : ℕ
  pub rep_mode : ℕ
  pub mem : ℕ → ℕ
  pub io_ports : ℕ → ℕ
  pub disk : ℕ → Disk
  pub pit : ℕ → Pit
  pub pit_lobyte_pending : ℕ
  pub kb_buffer : ℕ → ℕ
  pub kb_head : ℕ
  pub kb_tail : ℕ
  pub video_mode : ℕ
  pub cursor_row : ℕ
  pub cursor_col : ℕ
  pub spkr_en : ℕ
  pub wave_counter : ℕ
  pub graphics_x : ℕ
  pub graphics_y : ℕ
  pub inst_count : ℕ
  pub int8_asap : ℕ

-- `memset(state, 0, sizeof(Emu86State))`
abbrev pub zeroed : Emu86State
zeroed = record {
  regs = λ _. 0;
  sregs = λ _. 0;
  ip = 0;
  flags = 0;
  halted = 0;
  trap_flag = 0;
  int_pending = 0;
  int_vector = 0;
  seg_override_en = 0;
  seg_override = 0;
  rep_override_en = 0;
  rep_mode = 0;
  mem = λ _. 0;
  io_ports = λ _. 0;
  disk = λ _. record { size = 0; cylinders = 0; heads = 0; sectors = 0; position = 0 };
  pit = λ _. record { reload = 0; counter = 0; mode = 0 };
  pit_lobyte_pending = 0;
  kb_buffer = λ _. 0;
  kb_head = 0;
  kb_tail = 0;
  video_mode = 0;
  cursor_row = 0;
  cursor_col = 0;
  spkr_en = 0;
  wave_counter = 0;
  graphics_x = 0;
  graphics_y = 0;
  inst_count = 0;
  int8_asap = 0;
}

-- Assignments to one cell, with the conversion to the cell's type.
abbrev pub set_reg : Emu86State → ℕ → ℕ → Emu86State
set_reg s i v = record s { regs = update s.regs i (u16 v) }

abbrev pub set_sreg : Emu86State → ℕ → ℕ → Emu86State
set_sreg s i v = record s { sregs = update s.sregs i (u16 v) }

abbrev pub set_ip : Emu86State → ℕ → Emu86State
set_ip s v = record s { ip = u16 v }

abbrev pub set_mem : Emu86State → ℕ → ℕ → Emu86State
set_mem s a v = record s { mem = update s.mem a (u8 v) }

abbrev pub set_port : Emu86State → ℕ → ℕ → Emu86State
set_port s a v = record s { io_ports = update s.io_ports a (u8 v) }

unfoldable pub emu86_init : Emu86State
emu86_init = set_ip (set_sreg zeroed sreg_cs 0xF000) 0x0100
