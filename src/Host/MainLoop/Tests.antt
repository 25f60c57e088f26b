-- ===== src/Host/MainLoop/Tests.antt =====
-- The main loop at a concrete session.
use huxley.Base.{ℕ, ◌≡◌, refl, arith, inr}
use huxley.Base.{true, false, none, some, List, [], ◌∷◌, ◌++◌}
use huxley.State.{Emu86State, emu86_init, zeroed, set_reg, set_sreg, sreg_cs, reg_ax}
use huxley.Platform.{Emu86RingBuf, Emu86Platform}
use huxley.Decode.{Emu86Tables}
use huxley.Run.Loop.{
  Machine, machine, Emu86YieldInfo, emu86_run, run_loop, run_step, service_pending, console_full,
}
use huxley.Run.Loop.{count_prefixes, execute_and_advance, service_trap, poll_timer, service_timer}
use huxley.Run.Dispatch.{execute_instruction, case_bios}
use huxley.Opcodes.FlagsIo.{exec_bios_putchar}
use huxley.Platform.{ringbuf_write, ringbuf_available}
use huxley.Decode.{
  decode_instruction, decode_opcode, decode_modrm, resolve_operands, instruction_length,
}
use huxley.Decode.{emu86_load_tables}
use huxley.State.Words.{IsWords}
use huxley.State.Updates.{parts-IsWords}
use huxley.Platform.Wrap.{IsRing}
use huxley.Harness.Text.{codes, is_same}
use huxley.Snapshot.RoundTrip.{SameState}
use huxley.Run.Loop.Console.{Wired, Prints, Joined, emu86_run-Prints}
use huxley.Host.{Session, DiskImage}
use huxley.Host.Arguments.{Arguments, no_arguments, parse_arguments, take_path, take_hd_path}
use huxley.Host.Boot.{boot_registers, load_bios, set_disk_sizes, boot_state}
use huxley.Host.Boot.Words.{emu86_init-IsWords}
use huxley.Host.MainLoop.{Turn, Loop, run_session, start_session}
use huxley.Host.MainLoop.Ready.{stream}
use huxley.Host.MainLoop.Stream.{Ready, Serves, run_session-Serves}
use huxley.Host.Start.{
  Files, disk_table, image_of, open_hd, open_disks, with_snapshot, start_host, save_snapshot,
  load_snapshot,
}
use huxley.Host.Saved.{load_snapshot-save_snapshot}
use huxley.Host.Booted.{start_host-Serves}

abbrev ring : Emu86RingBuf
ring = record { attached = true; buf = λ i. 0; size = 4096; head = 0; tail = 0 }

abbrev quiet : Emu86Platform ℕ
quiet = record {
  disk_read = none;
  disk_write = none;
  console_out = ring;
  console_in = ring;
  get_time_us = none;
  ctx = 0;
}

-- Every instruction is the emulator's call 0: it prints AL, the letter A.
abbrev printing : Machine ℕ
printing = machine (set_reg (set_sreg zeroed sreg_cs 0xF000) reg_ax b'A') quiet

abbrev putchar_tables : Emu86Tables
putchar_tables i j = 48

abbrev no_info : Emu86YieldInfo
no_info = record { reason = 0; cycles_used = 0; io_type = 0; io_port = 0 }

abbrev printed : Machine ℕ
printed = run_step (service_pending printing.state) quiet putchar_tables

abbrev budget_info : Emu86YieldInfo
budget_info = record { reason = 0; cycles_used = 4; io_type = 0; io_port = 0 }

one_character : emu86_run 2 putchar_tables 4 no_info printing ≡ some (budget_info, printed)
unfolding emu86_run run_loop run_step decode_instruction ringbuf_available decode_opcode
    decode_modrm resolve_operands instruction_length execute_and_advance service_pending
    count_prefixes execute_instruction case_bios exec_bios_putchar ringbuf_write service_trap
    poll_timer service_timer
one_character = refl

ring-IsRing : IsRing 12 ring
ring-IsRing = record { small = omega arith; size = refl; head = omega arith; tail = omega arith }

quiet-Wired : Wired 12 quiet
quiet-Wired = record { output = ring-IsRing; attached = refl; input = ring-IsRing }

quiet_room : console_full quiet ≡ false
unfolding ringbuf_available
quiet_room = refl

prints_example :
    (cs : List ℕ) × Prints putchar_tables printing cs printed × Joined 12 quiet cs printed.platform
prints_example =
    emu86_run-Prints 12 (omega arith) (omega arith) 2 putchar_tables 4 no_info budget_info printing
      printed quiet-Wired quiet_room one_character

printing-IsWords : IsWords printing.state
unfolding emu86_init
printing-IsWords =
    let v = emu86_init-IsWords in
    parts-IsWords (λ i. ground arith) (λ i. ground arith) v.mem v.io_ports (omega arith) v.devices

abbrev session : Session ℕ
session = record { machine = printing; output = b'>' ∷ []; running = 1 }

session-Ready : Ready 12 session
session-Ready = record { wired = quiet-Wired; words = printing-IsWords; room = inr quiet_room }

-- Two turns: a key is typed, then the signal comes.
abbrev schedule : List Turn
schedule =
    record { ready = true; typed = b'x' ∷ []; stack = λ i. 0; signalled = false }
    ∷ record { ready = false; typed = []; stack = λ i. 0; signalled = true }
    ∷ []

session_example :
    (cs : List ℕ) × (l : Loop ℕ) × (y : Session ℕ) × (run_session putchar_tables schedule
        (λ i. 0)
        (no_info, session)
      ≡ some y)
    × Serves putchar_tables schedule (no_info, session) cs l
    × IsWords y.machine.state
    × y.output ≡ stream session ++ cs
session_example =
    run_session-Serves 12 (omega arith) (omega arith) putchar_tables schedule (λ i. 0) no_info
      session session-Ready

-- One file, which every path names.
abbrev one_file : Files (List ℕ)
one_file = record {
  open_file = λ path flags files. (some 3, files);
  lseek = λ fd offset files. some files;
  lseek_end = λ fd files. (some 368640, files);
  read = λ fd n files. (some (0x90 ∷ []), files);
  write = λ fd bytes files. (false, files);
  read_file = λ path files. some files;
  write_file = λ path bytes files. bytes;
}

saved_example :
    (s' : Emu86State) × (load_snapshot one_file [] emu86_init
        (save_snapshot one_file [] printing.state [])
      ≡ some s')
    × SameState s' printing.state
saved_example =
    load_snapshot-save_snapshot one_file (λ path bytes files. refl) [] emu86_init printing.state []
      printing-IsWords

-- Files that hold no snapshot.
abbrev two_images : Files (List ℕ)
two_images = record one_file { read_file = λ path files. none }

abbrev clock : (ℕ → DiskImage) × List ℕ → ℕ × ((ℕ → DiskImage) × List ℕ)
clock c = (0, c)

abbrev arguments : Arguments
arguments = parse_arguments (codes "bios" ∷ codes "fd.img" ∷ codes "@hd.img" ∷ []) no_arguments

abbrev images : ℕ → DiskImage
images = disk_table 3 (record { fd = 3; size = 368640 }) (record { fd = 3; size = 368640 })

abbrev booted : Emu86State
booted = set_disk_sizes (load_bios (boot_registers true images) (0x90 ∷ [])) images

abbrev started : Session ((ℕ → DiskImage) × List ℕ)
started = start_session two_images.lseek two_images.read two_images.write clock booted images []

start_host-started :
    start_host two_images clock arguments [] ≡ some (emu86_load_tables booted, started)
unfolding start_host parse_arguments take_path take_hd_path is_same open_disks open_hd image_of
    boot_state with_snapshot
start_host-started = refl

start_example :
    (cs : List ℕ) × (l : Loop ((ℕ → DiskImage) × List ℕ)) × (y : Session ((ℕ → DiskImage) × List ℕ))
    × (run_session (emu86_load_tables booted) schedule (λ i. 0) (no_info, started) ≡ some y)
    × Serves (emu86_load_tables booted) schedule (no_info, started) cs l
    × IsWords y.machine.state
    × y.output ≡ cs
start_example =
    start_host-Serves two_images (λ path files bytes e. absurd (cc e)) clock arguments []
      (emu86_load_tables booted) started schedule (λ i. 0) no_info start_host-started
