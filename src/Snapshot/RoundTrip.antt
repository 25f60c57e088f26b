-- ===== src/Snapshot/RoundTrip.antt =====
-- A snapshot that was saved is restored: the readers of the format undo its writers.
use huxley.Base.{ℕ, ◌<◌, ◌≡◌, refl, ◌∙◌, arith}
use huxley.Base.{Option, some, List}
use huxley.State.{Emu86State, Disk, Pit, emu86_mem_size, emu86_io_ports, emu86_num_disks}
use huxley.State.{emu86_num_pit, emu86_kb_buf_size}
use huxley.State.Words.{IsWords, DiskIsWords, PitIsWords}
use huxley.Snapshot.Bytes.{
  Parsed, ◌>>=◌, >>=-eq, write_each, read_each, read_u8, read_u16, read_u32,
}
use huxley.Snapshot.Bytes.{write_u8, write_u16, copied, copied_lem}
use huxley.Snapshot.Bytes.{read_u8-write_u8, read_u16-write_u16, read_u32-write_u32}
use huxley.Snapshot.Bytes.{read_u64-write_u64, read_each-write_each}
use huxley.Snapshot.Format.{write_disk, read_disk, write_pit, read_pit, write_cpu, read_cpu}
use huxley.Snapshot.Format.{write_arrays, read_arrays, write_devices, read_devices}
use huxley.Snapshot.Format.{write_state, read_state}

abbrev pub parsed : {A : Type 0} → A → List ℕ → Option (Parsed A)
parsed a rest = some (record { value = a; rest = rest })

read_disk-write_disk :
    (d : Disk) (rest : List ℕ) → DiskIsWords d → read_disk (write_disk d rest) ≡ parsed d rest
unfolding read_disk write_disk
read_disk-write_disk d rest v =
    >>=-eq read_u32 _ _ (read_u32-write_u32 d.size _ v.size)
    ∙ >>=-eq read_u16 _ _ (read_u16-write_u16 d.cylinders _ v.cylinders)
    ∙ >>=-eq read_u8 _ _ (read_u8-write_u8 d.heads _ v.heads)
    ∙ >>=-eq read_u8 _ _ (read_u8-write_u8 d.sectors _ v.sectors)
    ∙ >>=-eq read_u32 _ _ (read_u32-write_u32 d.position rest v.position)

read_pit-write_pit :
    (t : Pit) (rest : List ℕ) → PitIsWords t → read_pit (write_pit t rest) ≡ parsed t rest
unfolding read_pit write_pit
read_pit-write_pit t rest v =
    >>=-eq read_u16 _ _ (read_u16-write_u16 t.reload _ v.reload)
    ∙ >>=-eq read_u16 _ _ (read_u16-write_u16 t.counter _ v.counter)
    ∙ >>=-eq read_u8 _ _ (read_u8-write_u8 t.mode rest v.mode)

read_u8s :
    (src dst : ℕ → ℕ) (n : ℕ) (rest : List ℕ)
    → ((i : ℕ) → src i < 0x100)
    → read_each read_u8 dst 0 n (write_each write_u8 src 0 n rest)
      ≡ parsed (copied dst src 0 n) rest
read_u8s src dst n rest v =
    read_each-write_each read_u8 write_u8 src n 0 dst rest
      (λ j more p q. read_u8-write_u8 (src j) more (v j))

read_u16s :
    (src dst : ℕ → ℕ) (n : ℕ) (rest : List ℕ)
    → ((i : ℕ) → src i < 0x1_0000)
    → read_each read_u16 dst 0 n (write_each write_u16 src 0 n rest)
      ≡ parsed (copied dst src 0 n) rest
read_u16s src dst n rest v =
    read_each-write_each read_u16 write_u16 src n 0 dst rest
      (λ j more p q. read_u16-write_u16 (src j) more (v j))

-- The state `s0` with the fields of `s` that each part of the format holds.
cpu_of : Emu86State → Emu86State → Emu86State
cpu_of s0 s = record s0 {
  regs = copied s0.regs s.regs 0 8;
  sregs = copied s0.sregs s.sregs 0 4;
  ip = s.ip;
  flags = s.flags;
  halted = s.halted;
  trap_flag = s.trap_flag;
  int_pending = s.int_pending;
  int_vector = s.int_vector;
  seg_override_en = s.seg_override_en;
  seg_override = s.seg_override;
  rep_override_en = s.rep_override_en;
  rep_mode = s.rep_mode;
}

read_cpu-write_cpu :
    (s0 s : Emu86State) (rest : List ℕ)
    → IsWords s
    → read_cpu s0 (write_cpu s rest) ≡ parsed (cpu_of s0 s) rest
unfolding read_cpu write_cpu cpu_of
read_cpu-write_cpu s0 s rest v = rw (
  read_u16s s.regs s0.regs 8 _ v.regs,
  read_u16s s.sregs s0.sregs 4 _ v.sregs,
  read_u16-write_u16 s.ip _ v.ip,
  read_u16-write_u16 s.flags _ v.flags,
  read_u8-write_u8 s.halted _ v.halted,
  read_u8-write_u8 s.trap_flag _ v.trap_flag,
  read_u8-write_u8 s.int_pending _ v.int_pending,
  read_u8-write_u8 s.int_vector _ v.int_vector,
  read_u8-write_u8 s.seg_override_en _ v.seg_override_en,
  read_u8-write_u8 s.seg_override _ v.seg_override,
  read_u8-write_u8 s.rep_override_en _ v.rep_override_en,
  read_u8-write_u8 s.rep_mode rest v.rep_mode,
  ◌>>=◌,
)

arrays_of : Emu86State → Emu86State → Emu86State
arrays_of s0 s = record s0 {
  mem = copied s0.mem s.mem 0 emu86_mem_size;
  io_ports = copied s0.io_ports s.io_ports 0 emu86_io_ports;
  disk = copied s0.disk s.disk 0 emu86_num_disks;
  pit = copied s0.pit s.pit 0 emu86_num_pit;
  pit_lobyte_pending = s.pit_lobyte_pending;
  kb_buffer = copied s0.kb_buffer s.kb_buffer 0 emu86_kb_buf_size;
}

read_disks :
    (src dst : ℕ → Disk) (n : ℕ) (rest : List ℕ)
    → ((i : ℕ) → DiskIsWords (src i))
    → read_each read_disk dst 0 n (write_each write_disk src 0 n rest)
      ≡ parsed (copied dst src 0 n) rest
read_disks src dst n rest v =
    read_each-write_each read_disk write_disk src n 0 dst rest
      (λ j more p q. read_disk-write_disk (src j) more (v j))

read_pits :
    (src dst : ℕ → Pit) (n : ℕ) (rest : List ℕ)
    → ((i : ℕ) → PitIsWords (src i))
    → read_each read_pit dst 0 n (write_each write_pit src 0 n rest)
      ≡ parsed (copied dst src 0 n) rest
read_pits src dst n rest v =
    read_each-write_each read_pit write_pit src n 0 dst rest
      (λ j more p q. read_pit-write_pit (src j) more (v j))

read_arrays-write_arrays :
    (s0 s : Emu86State) (rest : List ℕ)
    → IsWords s
    → read_arrays s0 (write_arrays s rest) ≡ parsed (arrays_of s0 s) rest
unfolding read_arrays write_arrays arrays_of
read_arrays-write_arrays s0 s rest v = rw (
  read_u8s s.mem s0.mem emu86_mem_size _ v.mem,
  read_u8s s.io_ports s0.io_ports emu86_io_ports _ v.io_ports,
  read_disks s.disk s0.disk emu86_num_disks _ v.devices.0,
  read_pits s.pit s0.pit emu86_num_pit _ v.devices.1,
  read_u8-write_u8 s.pit_lobyte_pending _ v.pit_lobyte_pending,
  read_u8s s.kb_buffer s0.kb_buffer emu86_kb_buf_size rest v.devices.2,
  ◌>>=◌,
)

devices_of : Emu86State → Emu86State → Emu86State
devices_of s0 s = record s0 {
  kb_head = s.kb_head;
  kb_tail = s.kb_tail;
  video_mode = s.video_mode;
  cursor_row = s.cursor_row;
  cursor_col = s.cursor_col;
  spkr_en = s.spkr_en;
  wave_counter = s.wave_counter;
  graphics_x = s.graphics_x;
  graphics_y = s.graphics_y;
  inst_count = s.inst_count;
  int8_asap = s.int8_asap;
}

read_devices-write_devices :
    (s0 s : Emu86State) (rest : List ℕ)
    → IsWords s
    → read_devices s0 (write_devices s rest) ≡ parsed (devices_of s0 s) rest
unfolding read_devices write_devices devices_of
read_devices-write_devices s0 s rest v = rw (
  read_u8-write_u8 s.kb_head _ v.devices.3,
  read_u8-write_u8 s.kb_tail _ v.devices.4,
  read_u8-write_u8 s.video_mode _ v.devices.5,
  read_u16-write_u16 s.cursor_row _ v.devices.6,
  read_u16-write_u16 s.cursor_col _ v.devices.7,
  read_u8-write_u8 s.spkr_en _ v.spkr_en,
  read_u16-write_u16 s.wave_counter _ v.devices.8,
  read_u16-write_u16 s.graphics_x _ v.devices.9,
  read_u16-write_u16 s.graphics_y _ v.devices.10,
  read_u64-write_u64 s.inst_count _ v.inst_count,
  read_u8-write_u8 s.int8_asap rest v.int8_asap,
  ◌>>=◌,
)

-- The state that restoring a snapshot of `s` makes of `s0`.
pub merged : Emu86State → Emu86State → Emu86State
merged s0 s = devices_of (arrays_of (cpu_of s0 s) s) s

pub read_state-write_state :
    (s0 s : Emu86State) (rest : List ℕ)
    → IsWords s
    → read_state s0 (write_state s rest) ≡ parsed (merged s0 s) rest
unfolding read_state write_state merged
read_state-write_state s0 s rest v = rw (
  read_cpu-write_cpu s0 s _ v,
  read_arrays-write_arrays (cpu_of s0 s) s _ v,
  read_devices-write_devices (arrays_of (cpu_of s0 s) s) s rest v,
  ◌>>=◌,
)

-- Two states that a program cannot tell apart: the cells inside the C arrays are equal, and so is
-- every other field.
pub record SameState (s t : Emu86State) : Type 0 where
  pub regs : (i : ℕ) → i < 8 → s.regs i ≡ t.regs i
  pub sregs : (i : ℕ) → i < 4 → s.sregs i ≡ t.sregs i
  pub mem : (i : ℕ) → i < emu86_mem_size → s.mem i ≡ t.mem i
  pub io_ports : (i : ℕ) → i < emu86_io_ports → s.io_ports i ≡ t.io_ports i
  pub disk : (i : ℕ) → i < emu86_num_disks → s.disk i ≡ t.disk i
  pub pit : (i : ℕ) → i < emu86_num_pit → s.pit i ≡ t.pit i
  pub kb_buffer : (i : ℕ) → i < emu86_kb_buf_size → s.kb_buffer i ≡ t.kb_buffer i
  pub scalars :
      record s {
        regs = t.regs;
        sregs = t.sregs;
        mem = t.mem;
        io_ports = t.io_ports;
        disk = t.disk;
        pit = t.pit;
        kb_buffer = t.kb_buffer;
      }
      ≡ t

pub merged-SameState : (s0 s : Emu86State) → SameState (merged s0 s) s
unfolding merged devices_of arrays_of cpu_of
merged-SameState s0 s = record {
  regs = λ i h. copied_lem 8 0 i s0.regs s.regs (omega arith) (omega arith);
  sregs = λ i h. copied_lem 4 0 i s0.sregs s.sregs (omega arith) (omega arith);
  mem = λ i h. copied_lem emu86_mem_size 0 i s0.mem s.mem (omega arith) (omega arith);
  io_ports =
      λ i h. copied_lem emu86_io_ports 0 i s0.io_ports s.io_ports (omega arith) (omega arith);
  disk = λ i h. copied_lem emu86_num_disks 0 i s0.disk s.disk (omega arith) (omega arith);
  pit = λ i h. copied_lem emu86_num_pit 0 i s0.pit s.pit (omega arith) (omega arith);
  kb_buffer =
      λ i h. copied_lem emu86_kb_buf_size 0 i s0.kb_buffer s.kb_buffer (omega arith) (omega arith);
  scalars = refl;
}
