-- ===== src/Harness/StepTests.antt =====
-- The lockstep at a concrete harness.
use huxley.Base.{ℕ, ◌≡◌, refl, arith, ◌==◌}
use huxley.Base.{true, false, none, some, List, [], ◌∷◌, if◌then◌else◌}
use huxley.Platform.Wrap.{IsRing}
use huxley.Platform.Fifo.{contents, queued}
use huxley.Decode.{Emu86Tables, emu86_load_tables}
use huxley.Run.Loop.{Machine, machine, Emu86YieldInfo}
use huxley.Host.{DiskImage}
use huxley.Host.Start.{Files, no_disk, disk_table}
use huxley.Harness.Reference.{Reference}
use huxley.Harness.Snapshots.{populate_ref_snapshot, populate_our_snapshot}
use huxley.Harness.Step.{
  Settings, Harness, Ended, control_vars, count_step, inject_divergence, harness_step_end,
}
use huxley.Harness.Trace.{RefStep, lockstep}
use huxley.Harness.Lockstep.{Stepped}
use huxley.Harness.Verdict.{Verdict, harness_step_end-Verdict}
use huxley.Harness.Runs.{InStep, Runs, lockstep-Runs}
use huxley.Harness.Init.{
  clone_reference, static_ring, set_sizes, our_disk_read, our_disk_write, our_get_time_us,
}
use huxley.Harness.Injected.{harness_step_end-exits}
use huxley.State.{emu86_init, reg_ax}
use huxley.Platform.{ringbuf_available, ringbuf_read}
use huxley.Decode.{
  decode_instruction, decode_opcode, decode_modrm, resolve_operands, instruction_length,
}
use huxley.Run.Loop.{
  emu86_run, run_loop, run_step, execute_and_advance, service_pending, count_prefixes, service_trap,
  poll_timer, service_timer,
}
use huxley.Run.Dispatch.{execute_instruction, execute_core, execute_high}
use huxley.Harness.Compare.{copy_reference}
use huxley.Harness.Keyboard.{replicate_kbd_byte}
use huxley.Harness.Step.{step_ours, drain_console, exits}

-- The reference as it starts.
abbrev at_start : Reference
at_start = record {
  mem = λ a. 0;
  io_ports = λ p. 0;
  regs16 = λ i. if i == 9 then 0xF000 else 0;
  regs8 = λ i. 0;
  reg_ip = 0x100;
  inst_counter = 0;
  int8_asap = 0;
  trap_flag = 0;
  seg_override_en = 0;
  seg_override = 0;
  rep_override_en = 0;
  rep_mode = 0;
  spkr_en = 0;
  io_hi_lo = 0;
}

abbrev no_files : Files (List ℕ)
no_files = record {
  open_file = λ path flags files. (none, files);
  lseek = λ fd offset files. none;
  lseek_end = λ fd files. (none, files);
  read = λ fd n files. (none, files);
  write = λ fd bytes files. (true, files);
  read_file = λ path files. none;
  write_file = λ path bytes files. files;
}

abbrev tables : Emu86Tables
tables = emu86_load_tables (clone_reference at_start)

abbrev disks : ℕ → DiskImage
disks d = if d == 2 then no_disk else disk_table 0 no_disk no_disk d

abbrev ours : Machine ((ℕ → DiskImage) × List ℕ)
ours = machine (set_sizes (clone_reference at_start) disks) (record {
  disk_read = some (our_disk_read no_files);
  disk_write = some (our_disk_write no_files);
  console_out = static_ring;
  console_in = static_ring;
  get_time_us = some our_get_time_us;
  ctx = (disks, []);
})

abbrev start : Harness ((ℕ → DiskImage) × List ℕ)
start = record {
  ours = ours;
  control = record { registered_vars = some control_vars; memory = λ i. 1 };
  keyboard = record {
    kbd_queue = λ i. 0;
    kbd_queue_head = 0;
    kbd_queue_tail = 0;
    last_consumed_byte = 0;
    last_consumed_byte_present = 0;
  };
  snapshots = record {
    pre_ref = populate_ref_snapshot at_start;
    next_ref = populate_ref_snapshot at_start;
    pre_our = populate_our_snapshot ours.state;
    next_our = populate_our_snapshot ours.state;
  };
  hux_fifo = [];
  replies = [];
}

static_ring-IsRing : IsRing 12 static_ring
static_ring-IsRing = record {
  small = omega arith;
  size = refl;
  head = omega arith;
  tail = omega arith;
}

start-InStep : InStep 12 start
unfolding contents queued
start-InStep = record {
  synced = record {
    wired = record { output = static_ring-IsRing; attached = refl; input = static_ring-IsRing };
    drained = refl;
  };
  queue = record { head = omega arith; tail = omega arith; used = omega arith };
}

abbrev settings : Settings
settings = record { inject_divergence = 1; inject_at = 7; selftest_mode = 0; control_enabled = 1 }

abbrev no_info : Emu86YieldInfo
no_info = record { reason = 0; cycles_used = 0; io_type = 0; io_port = 0 }

verdict_example :
    (cs : List ℕ) × (h1 : Harness ((ℕ → DiskImage) × List ℕ)) × (e : Ended
      ((ℕ → DiskImage) × List ℕ))
    × (harness_step_end settings tables no_info [] at_start start ≡ some e)
    × Stepped 12 tables no_info start h1 cs
    × Verdict at_start (inject_divergence settings (count_step h1)) e
verdict_example =
    harness_step_end-Verdict 12 settings tables no_info [] at_start start (omega arith)
      (omega arith) refl start-InStep.synced

-- The reference runs two instructions, and polls the keyboard in the second one.
abbrev two_steps : List RefStep
two_steps =
    record { typed = b'x' ∷ []; polls = false; reached = at_start; datagrams = [] }
    ∷ record {
      typed = [];
      polls = true;
      reached = record at_start { inst_counter = 2 };
      datagrams = [];
    }
    ∷ []

lockstep_example :
    (e : Ended ((ℕ → DiskImage) × List ℕ)) × (lockstep settings tables no_info two_steps [] start
      ≡ some e)
    × Runs 12 settings tables no_info two_steps [] start e
lockstep_example =
    lockstep-Runs 12 settings tables no_info (omega arith) (omega arith) refl two_steps [] start
      start-InStep

-- No instruction at all.
abbrev idle_tables : Emu86Tables
idle_tables i j = 99

abbrev idle : Harness ((ℕ → DiskImage) × List ℕ)
idle = record start { ours = run_step (service_pending ours.state) ours.platform idle_tables }

idle_step : step_ours idle_tables no_info start ≡ some idle
unfolding step_ours replicate_kbd_byte drain_console emu86_run run_loop run_step decode_instruction
    ringbuf_available ringbuf_read decode_opcode decode_modrm resolve_operands instruction_length
    execute_and_advance service_pending count_prefixes execute_instruction execute_core execute_high
    service_trap poll_timer service_timer clone_reference set_sizes copy_reference emu86_init
idle_step = refl

abbrev at_two : Settings
at_two = record settings { inject_at = 2 }

idle_ax : idle.ours.state.regs reg_ax ≡ at_start.regs16 0
unfolding run_step decode_instruction decode_opcode decode_modrm resolve_operands instruction_length
    execute_and_advance service_pending count_prefixes execute_instruction execute_core execute_high
    service_trap poll_timer service_timer clone_reference set_sizes copy_reference emu86_init
idle_ax = refl

exits_example :
    (h' : Harness ((ℕ → DiskImage) × List ℕ)) × (harness_step_end at_two idle_tables no_info []
        at_start start
      ≡ some (exits 2 h'))
exits_example =
    harness_step_end-exits at_two idle_tables no_info [] at_start start idle refl refl idle_step
      refl idle_ax
