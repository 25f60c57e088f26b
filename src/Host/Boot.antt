-- ===== src/Host/Boot.antt =====
-- packages/emu86/src/hosts/linux/main.c: the state that the host boots.
pub mod Words
pub mod Image
use huxley.Base.{ℕ, ◌+◌, ◌*◌, ◌/◌, ◌^◌, ◌≡◌, ltb, leb, if◌then◌else◌, store, u16}
use huxley.Base.{Bool, true, false, Option, none, some, List, [], ◌∷◌}
use huxley.State.{Emu86State, Disk, emu86_init, set_reg, reg_ax, reg_cx, reg_dx}
use huxley.Harness.Text.{take}
use huxley.Host.{DiskImage, max_disks}

-- `DL` is the boot drive, `CX:AX` the size of the hard disk in sectors, if there is one.
unfoldable pub boot_registers : Bool → (ℕ → DiskImage) → Emu86State
boot_registers boot_hd disks =
    let s1 = set_reg emu86_init reg_dx (if boot_hd then 0x80 else 0x00) in
    let sectors = (disks 0).size / 2 ^ 9 in
    if ltb 0 (disks 0).fd then set_reg (set_reg s1 reg_ax sectors) reg_cx (sectors / 2 ^ 16) else s1

-- The BIOS at F000:0100, of which 0xFF00 bytes are read at most.
unfoldable pub load_bios : Emu86State → List ℕ → Emu86State
load_bios s bios = record s { mem = store s.mem 0xF0100 (take 0xFF00 bios) }

unfoldable pub set_disk_sizes : Emu86State → (ℕ → DiskImage) → Emu86State
set_disk_sizes s disks = record s {
  disk = λ d. if leb max_disks d then s.disk d else record (s.disk d) { size = (disks d).size };
}

-- The state before the main loop, without a snapshot; `none` if no byte of a BIOS can be read.
unfoldable pub boot_state : Bool → (ℕ → DiskImage) → List ℕ → Option Emu86State
unfolding boot_registers load_bios set_disk_sizes
boot_state boot_hd disks [] = none
boot_state boot_hd disks (byte ∷ bios) =
    some (set_disk_sizes (load_bios (boot_registers boot_hd disks) (byte ∷ bios)) disks)
