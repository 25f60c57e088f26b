-- ===== src/Host/Start.antt =====
-- packages/emu86/src/hosts/linux/main.c: `main` up to the main loop, and the snapshot files.
--
-- The system's files are a parameter: an interface of calls. An early `return 1` is `none`.
use huxley.Base.{ℕ, ◌==◌, if◌then◌else◌, u32, Bool, Option, none, some, List, length}
use huxley.Base.Options.{◌>>=◌}
use huxley.State.{Emu86State}
use huxley.Decode.{Emu86Tables, emu86_load_tables}
use huxley.Harness.Text.{take}
use huxley.Snapshot.Format.{
  Restored, restored, emu86_snapshot_size, emu86_snapshot_save, emu86_snapshot_restore,
}
use huxley.Host.{DiskImage, Session}
use huxley.Host.Arguments.{Arguments}
use huxley.Host.Boot.{boot_state}
use huxley.Host.MainLoop.{start_session}

-- `open` (`none`: negative), `lseek` to an offset and to the end, `read`, `write`, and the stdio
-- calls that read a whole file and that replace one.
pub record Files (F : Type 0) : Type 0 where
  pub open_file : List ℕ → ℕ → F → Option ℕ × F
  pub lseek : ℕ → ℕ → F → Option F
  pub lseek_end : ℕ → F → Option ℕ × F
  pub read : ℕ → ℕ → F → Option (List ℕ) × F
  pub write : ℕ → List ℕ → F → Bool × F
  pub read_file : List ℕ → F → Option (List ℕ)
  pub write_file : List ℕ → List ℕ → F → F

abbrev pub o_rdonly : ℕ
o_rdonly = 0

abbrev pub o_rdwr : ℕ
o_rdwr = 2

abbrev pub no_disk : DiskImage
no_disk = record { fd = 0; size = 0 }

-- `disks[2]` is the BIOS, `disks[1]` the floppy, `disks[0]` the hard disk.
unfoldable pub disk_table : ℕ → DiskImage → DiskImage → ℕ → DiskImage
disk_table bios floppy hd d =
    if d == 0
    then hd
    else if d == 1
    then floppy
    else if d == 2
    then record { fd = bios; size = 0 }
    else no_disk

-- What a restore leaves, if it succeeds. A read behind the end of the buffer counts as a failure.
abbrev pub restored_state : Restored → Option Emu86State
restored_state (restored s) = some s
restored_state _ = none

module _ {F : Type 0} (sys : Files F) where
  -- The size goes into a `uint32_t`; a failing `lseek` gives -1.
  unfoldable pub image_of : ℕ → F → DiskImage × F
  image_of fd files =
      let (end, files1) = sys.lseek_end fd files in
      let size = u32 (elim end [ none ↦ 0xFFFF_FFFF | some n ↦ n ]) in
      let files2 : F = elim (sys.lseek fd 0 files1) [ none ↦ files1 | some f ↦ f ] in
      (record { fd = fd; size = size }, files2)

  -- The hard disk is optional, and only warned about if it cannot be opened.
  unfoldable pub open_hd : Option (List ℕ) → F → DiskImage × F
  unfolding image_of
  open_hd none files = (no_disk, files)
  open_hd (some path) files =
      let (opened, files1) = sys.open_file path o_rdwr files in
      elim opened [ none ↦ (no_disk, files1) | some fd ↦ image_of fd files1 ]

  -- The three images: the hard disk, the floppy and the BIOS.
  unfoldable pub open_disks : List ℕ → List ℕ → Option (List ℕ) → F → Option ((ℕ → DiskImage) × F)
  unfolding open_hd
  open_disks bios_path fd_path hd_path files =
      let (bios_opened, files1) = sys.open_file bios_path o_rdonly files in
      let (fd_opened, files2) = sys.open_file fd_path o_rdwr files1 in
      do
        bios ← bios_opened
        fd ← fd_opened
        let (floppy, files3) = image_of fd files2 in
            let (hd, files4) = open_hd hd_path files3 in some (disk_table bios floppy hd, files4)

  unfoldable pub save_snapshot : List ℕ → Emu86State → F → F
  save_snapshot path s files = elim (emu86_snapshot_save s emu86_snapshot_size) [
    | none ↦ files
    | some bytes ↦ sys.write_file path bytes files
  ]

  unfoldable pub load_snapshot : List ℕ → Emu86State → F → Option Emu86State
  load_snapshot path s files = do
    bytes ← sys.read_file path files
    restored_state (emu86_snapshot_restore s (take (u32 (length bytes)) bytes))

  unfoldable pub with_snapshot : Option (List ℕ) → Emu86State → F → Option Emu86State
  unfolding load_snapshot
  with_snapshot none s files = some s
  with_snapshot (some path) s files = load_snapshot path s files

  -- `main` up to the loop: the tables and the session that the loop starts with.
  unfoldable pub start_host :
      ((ℕ → DiskImage) × F → ℕ × ((ℕ → DiskImage) × F))
      → Arguments
      → F
      → Option (Emu86Tables × Session ((ℕ → DiskImage) × F))
  unfolding open_disks with_snapshot
  start_host clock a files = do
    bios_path ← a.bios_path
    fd_path ← a.fd_path
    (disks, files1) ← open_disks bios_path fd_path a.hd_path files
    let (bios, files2) = sys.read (disks 2).fd 0xFF00 files1 in
        do
          bytes ← bios
          booted ← boot_state a.boot_hd disks bytes
          s ← with_snapshot a.snapshot_in_path booted files2
          some
              (emu86_load_tables s, start_session sys.lseek sys.read sys.write clock s disks files2)
