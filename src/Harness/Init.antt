-- ===== src/Harness/Init.antt =====
-- packages/emu86/harness/harness.c: the emulator's side of the lockstep, made from the reference.
--
-- The files are a parameter, and so are the reference's disk of the BIOS and its decode tables. An
-- `exit(1)` is `none`. The settings that come from the environment are no part of it.
pub mod Clone
use huxley.Base.{ℕ, zero, suc, ◌+◌, ◌==◌, leb, ltb, if◌then◌else◌, u32, not, ◌&&◌}
use huxley.Base.{Bool, true, false, Option, none, some, List, [], ◌∷◌}
use huxley.Base.Options.{◌>>=◌}
use huxley.State.{Emu86State, emu86_init}
use huxley.Platform.{Emu86RingBuf, Emu86Platform, DiskRead, DiskWrite}
use huxley.Decode.{Emu86Tables, emu86_load_tables}
use huxley.Run.Loop.{Machine, machine}
use huxley.Host.{DiskImage, max_disks, platform_disk_read, platform_disk_write}
use huxley.Host.Start.{Files, o_rdwr, no_disk, disk_table}
use huxley.Harness.Reference.{Reference}
use huxley.Harness.Compare.{first_difference, is_some, copy_reference}

abbrev pub rb_size : ℕ
rb_size = 4096

abbrev pub table_count : ℕ
table_count = 20

-- The copy of the reference's state into a zeroed one; the count of instructions is not copied.
unfoldable pub clone_reference : Reference → Emu86State
clone_reference ref = record (copy_reference emu86_init ref) { inst_count = emu86_init.inst_count }

-- `memcmp` on the first `n` tables of 256 bytes.
unfoldable pub tables_match : Emu86Tables → (ℕ → ℕ → ℕ) → ℕ → Bool
tables_match t lookup zero = true
tables_match t lookup (suc n) =
    let rest = tables_match t lookup n in
    not (is_some (first_difference (t n) (lookup n) 0 256)) && rest

-- Our disk callbacks do what the Linux host's do.
unfoldable pub our_disk_read :
    {F : Type 0} → Files F → ℕ → ℕ → ℕ → (ℕ → DiskImage) × F → DiskRead ((ℕ → DiskImage) × F)
our_disk_read sys = platform_disk_read sys.lseek sys.read sys.write

unfoldable pub our_disk_write :
    {F : Type 0} → Files F → ℕ → ℕ → List ℕ → (ℕ → DiskImage) × F → DiskWrite ((ℕ → DiskImage) × F)
our_disk_write sys = platform_disk_write sys.lseek sys.read sys.write

unfoldable pub our_get_time_us : {C : Type 0} → C → ℕ × C
our_get_time_us ctx = (0, ctx)

-- A ring over a static buffer of `rb_size` bytes.
abbrev pub static_ring : Emu86RingBuf
static_ring = record { attached = true; buf = λ i. 0; size = rb_size; head = 0; tail = 0 }

unfoldable pub set_sizes : Emu86State → (ℕ → DiskImage) → Emu86State
set_sizes s disks = record s {
  disk = λ d. if leb max_disks d then s.disk d else record (s.disk d) { size = (disks d).size };
}

module _ {F : Type 0} (sys : Files F) where
  -- `(sz > 0) ? (uint32_t)sz : 0`
  unfoldable pub end_of : ℕ → F → ℕ × F
  end_of fd files =
      let (end, files1) = sys.lseek_end fd files in (elim end [ none ↦ 0 | some n ↦ u32 n ], files1)

  -- A scratch image; an empty path is none.
  unfoldable pub open_scratch : List ℕ → F → Option (DiskImage × F)
  unfolding end_of
  open_scratch [] files = some (no_disk, files)
  open_scratch (c ∷ path) files =
      let (opened, files1) = sys.open_file (c ∷ path) o_rdwr files in
      do
        fd ← opened
        let (size, files2) = end_of fd files1 in some (record { fd = fd; size = size }, files2)

  abbrev our_platform : (ℕ → DiskImage) → F → Emu86Platform ((ℕ → DiskImage) × F)
  our_platform disks files = record {
    disk_read = some (our_disk_read sys);
    disk_write = some (our_disk_write sys);
    console_out = static_ring;
    console_in = static_ring;
    get_time_us = some our_get_time_us;
    ctx = (disks, files);
  }

  -- The three images: the hard disk, the floppy and the reference's BIOS.
  unfoldable pub open_our_disks : ℕ → List ℕ → List ℕ → F → Option ((ℕ → DiskImage) × F)
  unfolding open_scratch
  open_our_disks bios_fd hux_floppy_path hux_hd_path files =
      let (size, files1) = if ltb 0 bios_fd then end_of bios_fd files else (0, files) in
      do
        (floppy, files2) ← open_scratch hux_floppy_path files1
        (hd, files3) ← open_scratch hux_hd_path files2
        some (
          λ d. if d == 2 then record { fd = bios_fd; size = size } else disk_table 0 floppy hd d,
          files3,
        )

  abbrev our_machine :
      Emu86State
      → Emu86Tables
      → (ℕ → DiskImage) × F
      → Option (Emu86Tables × Machine ((ℕ → DiskImage) × F))
  our_machine s t (disks, files) = some (t, machine (set_sizes s disks) (our_platform disks files))

  unfoldable pub harness_init :
      Reference
      → (ℕ → ℕ → ℕ)
      → ℕ
      → List ℕ
      → List ℕ
      → F
      → Option (Emu86Tables × Machine ((ℕ → DiskImage) × F))
  unfolding open_our_disks our_disk_read our_disk_write our_get_time_us
  harness_init ref bios_table_lookup bios_fd hux_floppy_path hux_hd_path files =
      let s = clone_reference ref in
      let t = emu86_load_tables s in
      if tables_match t bios_table_lookup table_count
      then open_our_disks bios_fd hux_floppy_path hux_hd_path files >>= our_machine s t
      else none
