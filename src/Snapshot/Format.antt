-- ===== src/Snapshot/Format.antt =====
-- The layout of a snapshot: `data_size`, `emu86_snapshot_size`, `emu86_snapshot_save` and
-- `emu86_snapshot_restore` of snapshot.c, and the constants of snapshot.h.
use huxley.Base.{ℕ, zero, suc, ◌+◌, ◌*◌, ltb, ◌==◌, not, if◌then◌else◌, length, u32, sub32}
use huxley.Base.{Option, none, some, List, [], ◌∷◌}
use huxley.State.{Emu86State, Disk, Pit, emu86_mem_size, emu86_io_ports, emu86_num_disks}
use huxley.State.{emu86_num_pit, emu86_kb_buf_size}
use huxley.Snapshot.Crc.{crc32_compute}
use huxley.Snapshot.Bytes.{Parsed, Reader, ◌>>=◌, pure, write_u8, write_u16, write_u32, write_u64}
use huxley.Snapshot.Bytes.{read_u8, read_u16, read_u32, read_u64, write_each, read_each}

abbrev pub emu86_snapshot_magic : ℕ
emu86_snapshot_magic = 0x5336_3845

abbrev pub emu86_snapshot_version : ℕ
emu86_snapshot_version = 1

abbrev pub header_size : ℕ
header_size = 12

abbrev pub crc_size : ℕ
crc_size = 4

-- The summands stand in the order of the C function.
abbrev pub data_size : ℕ
data_size =
    8 * 2
    + 4 * 2
    + 2
    + 2
    + 4 * 1
    + 4 * 1
    + emu86_mem_size
    + emu86_io_ports
    + emu86_num_disks * 12
    + emu86_num_pit * 5
    + 1
    + emu86_kb_buf_size
    + 2
    + 1
    + 2
    + 2
    + 1
    + 2
    + 2
    + 2
    + 8
    + 1

abbrev pub emu86_snapshot_size : ℕ
emu86_snapshot_size = header_size + data_size + crc_size

unfoldable pub write_disk : Disk → List ℕ → List ℕ
write_disk d rest =
    write_u32 d.size
      (write_u16 d.cylinders (write_u8 d.heads (write_u8 d.sectors (write_u32 d.position rest))))

unfoldable pub read_disk : Reader Disk
read_disk = do
  size ← read_u32
  cylinders ← read_u16
  heads ← read_u8
  sectors ← read_u8
  position ← read_u32
  pure (record {
    size = size;
    cylinders = cylinders;
    heads = heads;
    sectors = sectors;
    position = position;
  })

unfoldable pub write_pit : Pit → List ℕ → List ℕ
write_pit t rest = write_u16 t.reload (write_u16 t.counter (write_u8 t.mode rest))

unfoldable pub read_pit : Reader Pit
read_pit = do
  reload ← read_u16
  counter ← read_u16
  mode ← read_u8
  pure (record { reload = reload; counter = counter; mode = mode })

-- The fields from the registers to the prefix state.
unfoldable pub write_cpu : Emu86State → List ℕ → List ℕ
write_cpu s rest = write_each write_u16 s.regs 0 8 (
    write_each write_u16 s.sregs 0 4 (
      write_u16 s.ip (
        write_u16 s.flags (
          write_u8 s.halted (
            write_u8 s.trap_flag (
              write_u8 s.int_pending (
                write_u8 s.int_vector (
                  write_u8 s.seg_override_en (
                    write_u8 s.seg_override
                      (write_u8 s.rep_override_en (write_u8 s.rep_mode rest)))))))))))

unfoldable pub read_cpu : Emu86State → Reader Emu86State
read_cpu s = do
  regs ← read_each read_u16 s.regs 0 8
  sregs ← read_each read_u16 s.sregs 0 4
  ip ← read_u16
  flags ← read_u16
  halted ← read_u8
  trap_flag ← read_u8
  int_pending ← read_u8
  int_vector ← read_u8
  seg_override_en ← read_u8
  seg_override ← read_u8
  rep_override_en ← read_u8
  rep_mode ← read_u8
  pure (record s {
    regs = regs;
    sregs = sregs;
    ip = ip;
    flags = flags;
    halted = halted;
    trap_flag = trap_flag;
    int_pending = int_pending;
    int_vector = int_vector;
    seg_override_en = seg_override_en;
    seg_override = seg_override;
    rep_override_en = rep_override_en;
    rep_mode = rep_mode;
  })

-- Memory, ports, disks, PIT and keyboard buffer.
unfoldable pub write_arrays : Emu86State → List ℕ → List ℕ
write_arrays s rest = write_each write_u8 s.mem 0 emu86_mem_size (
    write_each write_u8 s.io_ports 0 emu86_io_ports (
      write_each write_disk s.disk 0 emu86_num_disks (
        write_each write_pit s.pit 0 emu86_num_pit (
          write_u8 s.pit_lobyte_pending
            (write_each write_u8 s.kb_buffer 0 emu86_kb_buf_size rest)))))

unfoldable pub read_arrays : Emu86State → Reader Emu86State
read_arrays s = do
  mem ← read_each read_u8 s.mem 0 emu86_mem_size
  io_ports ← read_each read_u8 s.io_ports 0 emu86_io_ports
  disk ← read_each read_disk s.disk 0 emu86_num_disks
  pit ← read_each read_pit s.pit 0 emu86_num_pit
  pit_lobyte_pending ← read_u8
  kb_buffer ← read_each read_u8 s.kb_buffer 0 emu86_kb_buf_size
  pure (record s {
    mem = mem;
    io_ports = io_ports;
    disk = disk;
    pit = pit;
    pit_lobyte_pending = pit_lobyte_pending;
    kb_buffer = kb_buffer;
  })

-- The fields behind the keyboard buffer.
unfoldable pub write_devices : Emu86State → List ℕ → List ℕ
write_devices s rest = write_u8 s.kb_head (
    write_u8 s.kb_tail (
      write_u8 s.video_mode (
        write_u16 s.cursor_row (
          write_u16 s.cursor_col (
            write_u8 s.spkr_en (
              write_u16 s.wave_counter (
                write_u16 s.graphics_x (
                  write_u16 s.graphics_y
                    (write_u64 s.inst_count (write_u8 s.int8_asap rest))))))))))

unfoldable pub read_devices : Emu86State → Reader Emu86State
read_devices s = do
  kb_head ← read_u8
  kb_tail ← read_u8
  video_mode ← read_u8
  cursor_row ← read_u16
  cursor_col ← read_u16
  spkr_en ← read_u8
  wave_counter ← read_u16
  graphics_x ← read_u16
  graphics_y ← read_u16
  inst_count ← read_u64
  int8_asap ← read_u8
  pure (record s {
    kb_head = kb_head;
    kb_tail = kb_tail;
    video_mode = video_mode;
    cursor_row = cursor_row;
    cursor_col = cursor_col;
    spkr_en = spkr_en;
    wave_counter = wave_counter;
    graphics_x = graphics_x;
    graphics_y = graphics_y;
    inst_count = inst_count;
    int8_asap = int8_asap;
  })

unfoldable pub write_header : ℕ → List ℕ → List ℕ
write_header ds rest =
    write_u32 emu86_snapshot_magic (write_u32 emu86_snapshot_version (write_u32 ds rest))

unfoldable pub write_state : Emu86State → List ℕ → List ℕ
write_state s rest = write_cpu s (write_arrays s (write_devices s rest))

-- Everything in front of the checksum.
unfoldable pub snapshot_body : Emu86State → List ℕ → List ℕ
snapshot_body s rest = write_header data_size (write_state s rest)

-- `none`: the C function returns 0, for a buffer that is too small.
unfoldable pub emu86_snapshot_save : Emu86State → ℕ → Option (List ℕ)
emu86_snapshot_save s buf_size =
    if ltb buf_size emu86_snapshot_size
    then none
    else some (snapshot_body s (write_u32 (crc32_compute (snapshot_body s [])) []))

unfoldable pub take : ℕ → List ℕ → List ℕ
take zero bytes = []
take (suc n) [] = []
take (suc n) (a ∷ bytes) = a ∷ take n bytes

unfoldable pub drop : ℕ → List ℕ → List ℕ
drop zero bytes = bytes
drop (suc n) [] = []
drop (suc n) (a ∷ bytes) = drop n bytes

-- What `emu86_snapshot_restore` returns, -1 to -4 by name; `overread` is a read behind the end of
-- the buffer, which C leaves undefined.
pub data Restored : Type 0 where
  restored : Emu86State → Restored
  bad_magic bad_version bad_checksum bad_size overread : Restored

abbrev pub of_reader : Option (Parsed Emu86State) → Restored
of_reader none = overread
of_reader (some r) = restored r.value

unfoldable pub read_state : Emu86State → Reader Emu86State
read_state s = do s1 ← read_cpu s; s2 ← read_arrays s1; read_devices s2

-- The part behind the header: the size, the checksum, and the fields. `buf` is the whole buffer. A
-- total that wrapped to less than 4 puts the checksum behind every buffer.
unfoldable pub restore_fields : Emu86State → List ℕ → Parsed ℕ → Restored
restore_fields s buf ds =
    let expected_total = u32 (header_size + ds.value + crc_size) in
    let computed_crc = crc32_compute (take (sub32 expected_total crc_size) buf) in
    let fields = of_reader (read_state s ds.rest) in
    if ltb (length buf) expected_total
    then bad_size
    else elim (read_u32 (drop (sub32 expected_total crc_size) buf)) [
      | none ↦ overread
      | some stored ↦ if stored.value == computed_crc then fields else bad_checksum
    ]

unfoldable pub restore_version : Emu86State → List ℕ → Parsed ℕ → Restored
restore_version s buf version =
    if not (version.value == emu86_snapshot_version)
    then bad_version
    else elim (read_u32 version.rest) [ none ↦ overread | some ds ↦ restore_fields s buf ds ]

unfoldable pub restore_magic : Emu86State → List ℕ → Parsed ℕ → Restored
restore_magic s buf magic =
    if not (magic.value == emu86_snapshot_magic) then bad_magic else elim (read_u32 magic.rest) [
      | none ↦ overread
      | some version ↦ restore_version s buf version
    ]

unfoldable pub emu86_snapshot_restore : Emu86State → List ℕ → Restored
emu86_snapshot_restore s buf =
    if ltb (length buf) (header_size + crc_size)
    then bad_size
    else elim (read_u32 buf) [ none ↦ overread | some magic ↦ restore_magic s buf magic ]
