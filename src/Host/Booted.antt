-- ===== src/Host/Booted.antt =====
-- packages/emu86/src/hosts/linux/main.c: from the command line to the end of the session.
use huxley.Base.{ℕ, zero, suc, ◌^◌, ◌<◌, ◌≡◌, inl, inr, refl, ap, ◌∙◌, arith}
use huxley.Base.{Bool, Option, none, some, Option-cases, List, [], ◌∷◌, ◌++◌}
use huxley.Base.Options.{Every, bind-Every, some-Every, none-Every}
use huxley.State.{Emu86State}
use huxley.State.Words.{IsWords}
use huxley.Decode.{Emu86Tables}
use huxley.Harness.Text.{take}
use huxley.Snapshot.Reads.{AllBytes, done, byte}
use huxley.Snapshot.Bounds.{emu86_snapshot_restore-IsWords}
use huxley.Snapshot.Format.{
  Restored, restored, bad_magic, bad_version, bad_checksum, bad_size, overread,
  emu86_snapshot_restore,
}
use huxley.Run.Loop.{Emu86YieldInfo}
use huxley.Run.Loop.Console.{Wired}
use huxley.Host.{DiskImage, Session, alloc_ring_buffer}
use huxley.Host.Console.{alloc_ring_buffer-IsRing}
use huxley.Host.Boot.Words.{boot_state-IsWords}
use huxley.Host.Boot.{boot_state}
use huxley.Host.Arguments.{Arguments}
use huxley.Host.MainLoop.{Turn, Loop, set_up_platform, start_session, run_session}
use huxley.Host.MainLoop.Ready.{stream, empty-room}
use huxley.Host.MainLoop.Stream.{Ready, Serves, run_session-Serves}
use huxley.Host.Start.{
  Files, o_rdonly, o_rdwr, disk_table, image_of, open_hd, open_disks, restored_state, load_snapshot,
  with_snapshot, start_host,
}

take-AllBytes : (n : ℕ) (bytes : List ℕ) → AllBytes bytes → AllBytes (take n bytes)
unfolding take
take-AllBytes zero bytes v = done
take-AllBytes (suc n) [] v = done
take-AllBytes (suc n) (a ∷ bytes) (byte h v) = byte h (take-AllBytes n bytes v)

restored_state-IsWords :
    (s : Emu86State) (bytes : List ℕ)
    → IsWords s
    → AllBytes bytes
    → Every IsWords (restored_state (emu86_snapshot_restore s bytes))
restored_state-IsWords s bytes w v = go (emu86_snapshot_restore s bytes) refl
  where
    go : (r : Restored) → emu86_snapshot_restore s bytes ≡ r → Every IsWords (restored_state r)
    go (restored s') e = some-Every (emu86_snapshot_restore-IsWords s s' bytes w v e)
    go bad_magic e = none-Every
    go bad_version e = none-Every
    go bad_checksum e = none-Every
    go bad_size e = none-Every
    go overread e = none-Every

boot_state-Every :
    (boot_hd : Bool) (disks : ℕ → DiskImage) (bios : List ℕ)
    → ((d : ℕ) → (disks d).size < 2 ^ 32)
    → Every IsWords (boot_state boot_hd disks bios)
boot_state-Every boot_hd disks bios h = elim (boot_state-IsWords boot_hd disks bios h) [
  | inl (_, e) ↦ rw e none-Every
  | inr (s, e, w, _) ↦ rw e (some-Every w)
]

module _ {F : Type 0} (sys : Files F)
    (files_hold_bytes : (path : List ℕ) (files : F) (bytes : List ℕ)
      → sys.read_file path files ≡ some bytes
      → AllBytes bytes) where
  size-image_of : (fd : ℕ) (files : F) → (image_of sys fd files).0.size < 2 ^ 32
  unfolding image_of
  size-image_of fd files = omega arith

  size-open_hd : (path : Option (List ℕ)) (files : F) → (open_hd sys path files).0.size < 2 ^ 32
  unfolding open_hd
  size-open_hd none files = omega arith
  size-open_hd (some path) files = elim (Option-cases (sys.open_file path 2 files).0) [
    | inl e ↦ rw (open_hd, e) (omega arith)
    | inr (fd, e) ↦ rw (open_hd, e) (size-image_of fd _)
  ]

  disk_table-lt :
      (bios : ℕ) (floppy hd : DiskImage) (d : ℕ)
      → floppy.size < 2 ^ 32
      → hd.size < 2 ^ 32
      → (disk_table bios floppy hd d).size < 2 ^ 32
  unfolding disk_table
  disk_table-lt bios floppy hd d h k = ground arith

  Sized : (ℕ → DiskImage) × F → Type 0
  Sized r = (d : ℕ) → (r.0 d).size < 2 ^ 32

  open_disks-Sized :
      (bios_path fd_path : List ℕ) (hd_path : Option (List ℕ)) (files : F)
      → Every Sized (open_disks sys bios_path fd_path hd_path files)
  unfolding open_disks Sized
  open_disks-Sized bios_path fd_path hd_path files =
      let (bios_opened, files1) = sys.open_file bios_path o_rdonly files in
      let (fd_opened, files2) = sys.open_file fd_path o_rdwr files1 in
      elim (Option-cases bios_opened) [
        | inl e ↦ rw (open_disks, e) none-Every
        | inr (bios, e) ↦ elim (Option-cases fd_opened) [
          | inl e' ↦ rw (open_disks, e, e') none-Every
          | inr (fd, e') ↦
              rw (open_disks, e, e')
                (some-Every (λ d.
                  disk_table-lt bios (image_of sys fd files2).0
                    (open_hd sys hd_path (image_of sys fd files2).1).0 d (size-image_of fd files2)
                    (size-open_hd hd_path _)))
        ]
      ]

  module _ (clock : (ℕ → DiskImage) × F → ℕ × ((ℕ → DiskImage) × F)) where
    -- The consoles are connected, empty rings, and nothing has been put out.
    Fresh : Emu86Tables × Session ((ℕ → DiskImage) × F) → Type 0
    Fresh r = Ready 12 r.1 × stream r.1 ≡ []

    start_session-Fresh :
        (t : Emu86Tables) (s : Emu86State) (disks : ℕ → DiskImage) (files : F)
        → IsWords s
        → Fresh (t, start_session sys.lseek sys.read sys.write clock s disks files)
    unfolding Fresh start_session set_up_platform alloc_ring_buffer
    start_session-Fresh t s disks files w =
        let (ring, empty) = alloc_ring_buffer-IsRing 12 (omega arith) in
        let wired : Wired 12 (set_up_platform sys.lseek sys.read sys.write clock disks files) =
          record { output = ring; attached = refl; input = ring } in
        (record { wired = wired; words = w; room = inr (empty-room 12 _ wired empty) }, empty)

    with_snapshot-IsWords :
        (path : Option (List ℕ)) (s : Emu86State) (files : F)
        → IsWords s
        → Every IsWords (with_snapshot sys path s files)
    unfolding with_snapshot load_snapshot
    with_snapshot-IsWords none s files w = some-Every w
    with_snapshot-IsWords (some path) s files w = bind-Every (sys.read_file path files) (λ bytes e.
        restored_state-IsWords s _ w (take-AllBytes _ bytes (files_hold_bytes path files bytes e)))

    start_host-Fresh : (a : Arguments) (files : F) → Every Fresh (start_host sys clock a files)
    unfolding start_host Sized
    start_host-Fresh a files = bind-Every a.bios_path (λ bios_path e0.
        bind-Every a.fd_path (λ fd_path e1.
          bind-Every (open_disks sys bios_path fd_path a.hd_path files) (λ opened e2.
            bind-Every (sys.read (opened.0 2).fd 0xFF00 opened.1).0 (λ bytes e3.
              bind-Every (boot_state a.boot_hd opened.0 bytes) (λ booted e4.
                let sized = (open_disks-Sized bios_path fd_path a.hd_path files).at in
                let words = (boot_state-Every a.boot_hd opened.0 bytes (sized opened e2)).at in
                bind-Every (with_snapshot sys a.snapshot_in_path booted _) (λ s e5.
                  let kept = with_snapshot-IsWords a.snapshot_in_path booted _ in
                  some-Every
                    (start_session-Fresh _ s opened.0 _ ((kept (words booted e4)).at s e5))))))))

    -- From the command line to the end: if the host starts at all, from whatever images and snapshot
    -- file, then it serves every schedule: the session ends, no run and no flush is short of fuel,
    -- the fields are in their ranges at the end, and standard output was given exactly the
    -- characters that the program printed, in order. The files are supposed to hold bytes.
    pub start_host-Serves :
        (a : Arguments) (files : F) (t : Emu86Tables) (x : Session ((ℕ → DiskImage) × F))
        (us : List Turn) (buf : ℕ → ℕ) (info : Emu86YieldInfo)
        → start_host sys clock a files ≡ some (t, x)
        → (cs : List ℕ) × (l : Loop ((ℕ → DiskImage) × F)) × (y : Session ((ℕ → DiskImage) × F))
          × (run_session t us buf (info, x) ≡ some y)
          × Serves t us (info, x) cs l
          × IsWords y.machine.state
          × y.output ≡ cs
    unfolding Fresh
    start_host-Serves a files t x us buf info e =
        let (ready, empty) = (start_host-Fresh a files).at (t, x) e in
        let (cs, l, y, served, serves, words, out) =
          run_session-Serves 12 (omega arith) (omega arith) t us buf info x ready in
        (cs, l, y, served, serves, words, out ∙ ap (λ q. q ++ cs) empty)
