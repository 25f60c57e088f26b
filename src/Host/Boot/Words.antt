-- ===== src/Host/Boot/Words.antt =====
-- packages/emu86/src/hosts/linux/main.c: the state that the host boots is well-formed.
use huxley.Base.{ℕ, ◌+◌, ◌*◌, ◌/◌, ◌^◌, ◌≡◌, ◌<◌, ◌⊎◌, inl, inr, refl, arith, ltb, if◌then◌else◌}
use huxley.Base.{Bool, true, false, Bool-cases, none, some, List, [], ◌∷◌}
use huxley.State.{Emu86State, Disk, emu86_init, reg_ax, reg_cx}
use huxley.State.Words.{IsWords, DiskIsWords}
use huxley.State.Updates.{parts-IsWords, store-IsWords, state_words}
use huxley.Harness.Text.{take}
use huxley.Host.{DiskImage}
use huxley.Host.Boot.{boot_registers, load_bios, set_disk_sizes, boot_state}

pub emu86_init-IsWords : IsWords emu86_init
unfolding emu86_init
emu86_init-IsWords = record {
  regs = λ i. ground arith;
  sregs = λ i. ground arith;
  mem = λ i. ground arith;
  io_ports = λ i. ground arith;
  ip = ground arith;
  flags = ground arith;
  halted = ground arith;
  trap_flag = ground arith;
  int_pending = ground arith;
  int_vector = ground arith;
  seg_override_en = ground arith;
  seg_override = ground arith;
  rep_override_en = ground arith;
  rep_mode = ground arith;
  pit_lobyte_pending = ground arith;
  spkr_en = ground arith;
  inst_count = ground arith;
  int8_asap = ground arith;
  devices = (
    λ i. record {
      size = ground arith;
      cylinders = ground arith;
      heads = ground arith;
      sectors = ground arith;
      position = ground arith;
    },
    λ i. record { reload = ground arith; counter = ground arith; mode = ground arith },
    λ i. ground arith,
    ground arith,
    ground arith,
    ground arith,
    ground arith,
    ground arith,
    ground arith,
    ground arith,
    ground arith,
  );
}

sized :
    (b : Bool) (old : Disk) {n : ℕ}
    → n < 2 ^ 32
    → DiskIsWords old
    → DiskIsWords (if b then old else record old { size = n })
sized true old h v = v
sized false old h v = record {
  size = omega arith;
  cylinders = v.cylinders;
  heads = v.heads;
  sectors = v.sectors;
  position = v.position;
}

module _ (boot_hd : Bool) (disks : ℕ → DiskImage) where
  boot_registers-IsWords : IsWords (boot_registers boot_hd disks)
  unfolding boot_registers
  boot_registers-IsWords = let v = emu86_init-IsWords in search (state_words) depth 12

  load_bios-IsWords : {s : Emu86State} (bios : List ℕ) → IsWords s → IsWords (load_bios s bios)
  unfolding load_bios
  load_bios-IsWords bios v = store-IsWords 0xF0100 (take 0xFF00 bios) v

  set_disk_sizes-IsWords :
      {s : Emu86State}
      → ((d : ℕ) → (disks d).size < 2 ^ 32)
      → IsWords s
      → IsWords (set_disk_sizes s disks)
  unfolding set_disk_sizes
  set_disk_sizes-IsWords {s} h v = parts-IsWords v.regs v.sregs v.mem v.io_ports (omega arith) (
    λ d. sized _ _ (h d) (v.devices.0 d),
    v.devices.1,
    v.devices.2,
    v.devices.3,
    v.devices.4,
    v.devices.5,
    v.devices.6,
    v.devices.7,
    v.devices.8,
    v.devices.9,
    v.devices.10,
  )

  sectors :
      (disks 0).size < 2 ^ 32
      → ((disks 0).fd ≡ 0)
        ⊎ ((boot_registers boot_hd disks).regs reg_ax
              + 2 ^ 16 * (boot_registers boot_hd disks).regs reg_cx
            ≡ (disks 0).size / 512)
  unfolding boot_registers
  sectors h = elim (Bool-cases (ltb 0 (disks 0).fd)) [
    | inl e ↦ inr (rw e (omega arith))
    | inr e ↦ inl (ground arith)
  ]

  -- The host boots exactly with a BIOS of one byte at least. With disk sizes that fit 32 bits it
  -- then starts from a well-formed state, in which CX:AX is the size of the hard disk in sectors,
  -- if there is one.
  pub boot_state-IsWords :
      (bios : List ℕ)
      → ((d : ℕ) → (disks d).size < 2 ^ 32)
      → ((bios ≡ []) × (boot_state boot_hd disks bios ≡ none))
        ⊎ ((s : Emu86State) × (boot_state boot_hd disks bios ≡ some s)
            × IsWords s
            × (((disks 0).fd ≡ 0)
                ⊎ (s.regs reg_ax + 2 ^ 16 * s.regs reg_cx ≡ (disks 0).size / 512)))
  unfolding boot_state
  boot_state-IsWords [] h = inl (refl, refl)
  boot_state-IsWords (byte ∷ bios) h = inr (
    _,
    refl,
    set_disk_sizes-IsWords h (load_bios-IsWords (byte ∷ bios) boot_registers-IsWords),
    sectors (h 0),
  )
