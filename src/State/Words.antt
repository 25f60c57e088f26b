-- ===== src/State/Words.antt =====
-- The ranges of the fields of `Emu86State`: each value fits the C type of its field.
use huxley.Base.{ℕ, ◌^◌, ◌<◌}
use huxley.State.{Emu86State, Disk, Pit}

abbrev pub IsByte : ℕ → Type 0
IsByte n = n < 0x100

abbrev pub IsWord : ℕ → Type 0
IsWord n = n < 0x1_0000

pub record DiskIsWords (d : Disk) : Type 0 where
  pub size : d.size < 0x1_0000_0000
  pub cylinders : IsWord d.cylinders
  pub heads : IsByte d.heads
  pub sectors : IsByte d.sectors
  pub position : d.position < 0x1_0000_0000

pub record PitIsWords (t : Pit) : Type 0 where
  pub reload : IsWord t.reload
  pub counter : IsWord t.counter
  pub mode : IsByte t.mode

-- The fields that no instruction writes. By computation this says the same of two states that
-- agree on those fields.
abbrev pub DeviceWords : Emu86State → Type 0
DeviceWords s =
    ((i : ℕ) → DiskIsWords (s.disk i))
    × ((i : ℕ) → PitIsWords (s.pit i))
    × ((i : ℕ) → IsByte (s.kb_buffer i))
    × IsByte s.kb_head
    × IsByte s.kb_tail
    × IsByte s.video_mode
    × IsWord s.cursor_row
    × IsWord s.cursor_col
    × IsWord s.wave_counter
    × IsWord s.graphics_x
    × IsWord s.graphics_y

pub record IsWords (s : Emu86State) : Type 0 where
  pub regs : (i : ℕ) → IsWord (s.regs i)
  pub sregs : (i : ℕ) → IsWord (s.sregs i)
  pub mem : (i : ℕ) → IsByte (s.mem i)
  pub io_ports : (i : ℕ) → IsByte (s.io_ports i)
  pub ip : IsWord s.ip
  pub flags : IsWord s.flags
  pub halted : IsByte s.halted
  pub trap_flag : IsByte s.trap_flag
  pub int_pending : IsByte s.int_pending
  pub int_vector : IsByte s.int_vector
  pub seg_override_en : IsByte s.seg_override_en
  pub seg_override : IsByte s.seg_override
  pub rep_override_en : IsByte s.rep_override_en
  pub rep_mode : IsByte s.rep_mode
  pub pit_lobyte_pending : IsByte s.pit_lobyte_pending
  pub spkr_en : IsByte s.spkr_en
  pub inst_count : s.inst_count < 2 ^ 64
  pub int8_asap : IsByte s.int8_asap
  pub devices : DeviceWords s
