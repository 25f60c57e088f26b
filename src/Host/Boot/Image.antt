-- ===== src/Host/Boot/Image.antt =====
-- packages/emu86/src/hosts/linux/main.c: what is in the machine that the host boots.
use huxley.Base.{
  ℕ, ◌+◌, ◌*◌, ◌/◌, ◌%◌, ◌^◌, ◌≡◌, ◌<◌, ◌≤◌, ◌⊎◌, inl, inr, refl, ap, ◌∙◌, arith, update, store,
  cells, length, if◌then◌else◌,
}
use huxley.Base.{Bool, none, some, List, [], ◌∷◌}
use huxley.State.{Emu86State, emu86_init, reg_ax, reg_cx, reg_dx, sreg_cs}
use huxley.State.Words.{IsWords}
use huxley.Harness.Text.{take}
use huxley.Host.{DiskImage}
use huxley.Host.Keyboard.{bytes_of}
use huxley.Host.Boot.{boot_registers, load_bios, set_disk_sizes, boot_state}
use huxley.Host.Boot.Words.{boot_state-IsWords}

store-before : (f : ℕ → ℕ) (i a : ℕ) (xs : List ℕ) → a < i → store f i xs a ≡ f a
unfolding store
store-before f i a [] h = refl
store-before f i a (x ∷ xs) h =
    store-before (update f i (x % 0x100)) (i + 1) a xs (omega arith) ∙ ground arith

store-behind : (f : ℕ → ℕ) (i a : ℕ) (xs : List ℕ) → i + length xs ≤ a → store f i xs a ≡ f a
unfolding store
store-behind f i a [] h = refl
store-behind f i a (x ∷ xs) h =
    store-behind (update f i (x % 0x100)) (i + 1) a xs (omega arith) ∙ ground arith

cells-store : (f : ℕ → ℕ) (i : ℕ) (xs : List ℕ) → cells (store f i xs) i (length xs) ≡ bytes_of xs
unfolding store cells
cells-store f i [] = refl
cells-store f i (x ∷ xs) = cc (
  store-before (update f i (x % 0x100)) (i + 1) i xs (omega arith),
  cells-store (update f i (x % 0x100)) (i + 1) xs,
  first,
)
  where
    first : update f i (x % 0x100) i ≡ x % 0x100
    first = ground arith

-- The machine as the host boots it from the bytes of a BIOS: at F000:0100, where the BIOS stands in
-- an empty memory, with the boot drive in DX, the sectors of the hard disk in CX:AX and the sizes of
-- the images.
pub record Boots (boot_hd : Bool) (disks : ℕ → DiskImage) (image : List ℕ) (s : Emu86State)
    : Type 0 where
  pub words : IsWords s
  pub entry : (s.sregs sreg_cs ≡ 0xF000) × (s.ip ≡ 0x0100)
  pub drive : s.regs reg_dx ≡ (if boot_hd then 0x80 else 0)
  pub sectors : ((disks 0).fd ≡ 0) ⊎ (s.regs reg_ax + 2 ^ 16 * s.regs reg_cx ≡ (disks 0).size / 512)
  pub bios : cells s.mem 0xF0100 (length image) ≡ bytes_of image
  pub clear : (a : ℕ) → (a < 0xF0100) ⊎ (0xF0100 + length image ≤ a) → s.mem a ≡ 0
  pub sizes : (d : ℕ) → d < 3 → (s.disk d).size ≡ (disks d).size

module _ (boot_hd : Bool) (disks : ℕ → DiskImage) where
  abbrev start : List ℕ → Emu86State
  start bios = set_disk_sizes (load_bios (boot_registers boot_hd disks) bios) disks

  started :
      (bios : List ℕ) (s : Emu86State) → boot_state boot_hd disks bios ≡ some s → s ≡ start bios
  unfolding boot_state
  started [] s e = absurd (cc e)
  started (byte ∷ bios) s e = cc e

  start_drive : (bios : List ℕ) → (start bios).regs reg_dx ≡ (if boot_hd then 0x80 else 0)
  unfolding set_disk_sizes load_bios boot_registers emu86_init
  start_drive bios = ground arith

  start_entry : (bios : List ℕ) → ((start bios).sregs sreg_cs ≡ 0xF000) × ((start bios).ip ≡ 0x0100)
  unfolding set_disk_sizes load_bios boot_registers emu86_init
  start_entry bios = ground arith

  start_memory : (bios : List ℕ) → (start bios).mem ≡ store (λ a. 0) 0xF0100 (take 0xFF00 bios)
  unfolding set_disk_sizes load_bios boot_registers emu86_init
  start_memory bios = ground arith

  start_sizes : (bios : List ℕ) (d : ℕ) → d < 3 → ((start bios).disk d).size ≡ (disks d).size
  unfolding set_disk_sizes
  start_sizes bios d h = ground arith

  start_clear :
      (image : List ℕ) (a : ℕ)
      → (a < 0xF0100) ⊎ (0xF0100 + length image ≤ a)
      → store (λ a. 0) 0xF0100 image a ≡ 0
  start_clear image a (inl h) = store-before _ 0xF0100 a image h
  start_clear image a (inr h) = store-behind _ 0xF0100 a image h

  -- The host boots exactly with a BIOS of one byte at least. With disk sizes that fit 32 bits the
  -- machine is then well-formed and starts at F000:0100, where the first 0xFF00 bytes of the BIOS
  -- stand, with the rest of the memory clear, the boot drive in DX, the size of the hard disk in
  -- sectors in CX:AX, if there is one, and the sizes of the images.
  pub boot_state-Boots :
      (bios : List ℕ)
      → ((d : ℕ) → (disks d).size < 2 ^ 32)
      → ((bios ≡ []) × (boot_state boot_hd disks bios ≡ none))
        ⊎ ((s : Emu86State) × (boot_state boot_hd disks bios ≡ some s)
            × Boots boot_hd disks (take 0xFF00 bios) s)
  boot_state-Boots bios h = elim (boot_state-IsWords boot_hd disks bios h) [
    | inl refused ↦ inl refused
    | inr (s, booted, words, sectors) ↦
        let same = started bios s booted in
        let memory = ap (λ t. t.mem) same ∙ start_memory bios in
        inr (
          s,
          booted,
          record {
            words = words;
            entry = rw same (start_entry bios);
            drive = rw same (start_drive bios);
            sectors = sectors;
            bios = rw memory (cells-store (λ a. 0) 0xF0100 (take 0xFF00 bios));
            clear = λ a l. rw memory (start_clear (take 0xFF00 bios) a l);
            sizes = λ d l. rw same (start_sizes bios d l);
          },
        )
  ]
