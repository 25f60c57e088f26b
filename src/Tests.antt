-- ===== src/Tests.antt =====
-- Concrete runs: the theorems of the library at states where their hypotheses hold.
use huxley.Base.{
  ℕ, ◌+◌, ◌≡◌, ◌≢◌, ◌⊎◌, refl, arith, ◌==◌, if◌then◌else◌, length, List, [], ◌∷◌, ◌++◌, none, some,
  true,
}
use huxley.State.{
  Emu86State, emu86_init, zeroed, set_reg, set_sreg, set_ip, reg_ax, reg_cx, reg_sp, sreg_cs,
}
use huxley.State.Words.{IsWords}
use huxley.Context.{DecodeContext, blank}
use huxley.Platform.{
  Emu86RingBuf, Emu86Platform, ringbuf_available, ringbuf_free, ringbuf_write, ringbuf_read,
}
use huxley.Decode.{Emu86Tables, decode_instruction}
use huxley.Decode.Bounds.{InRange, decode_instruction-InRange}
use huxley.Opcodes.Arithmetic.{read_dest, read_src, exec_cmp}
use huxley.Opcodes.Arithmetic.Sum.{DifferenceFlags}
use huxley.Opcodes.Arithmetic.Specs.{with_flags}
use huxley.Opcodes.Arithmetic.Specs.{exec_cmp_lem}
use huxley.Platform.Wrap.{IsRing}
use huxley.Platform.Fifo.{contents, ringbuf_available-contents, ringbuf_write-contents}
use huxley.Platform.Fifo.{ringbuf_read-contents}
use huxley.Run.Loop.{Emu86YieldInfo, Machine, machine, yield_budget, emu86_run, emu86_step_single}
use huxley.Run.Loop.{run_loop, service_pending, poll_timer, service_timer}
use huxley.Run.Budget.{Ends, emu86_run-Ends, emu86_run_unspent}
use huxley.Run.Single.{turned, run_loop-emu86_step_single}
use huxley.Snapshot.Format.{
  emu86_snapshot_size, emu86_snapshot_save, emu86_snapshot_restore, restored,
}
use huxley.Snapshot.RoundTrip.{SameState}
use huxley.Snapshot.Restore.{IsAccepted, restore-save, restored-IsAccepted}
use huxley.Access.{read_rm}
use huxley.Opcodes.Arithmetic.{exec_div}
use huxley.Opcodes.Arithmetic.Divide.{Divides, exec_div-Divides}
use huxley.Opcodes.Strings.{exec_string_op}
use huxley.Opcodes.Strings.Rounds.{rounds, GoesOn, HasEnded, exec_string_op-rounds}
use huxley.Access.{write_reg16}
use huxley.Decode.{resolve_operands, operand_offset}
use huxley.Run.Cases.{load_effective_address}
use huxley.Run.Address.{load_effective_address_lem}

-- A state shortly after boot, with a stack, two operands and the carry flag.
abbrev sample : Emu86State
sample =
    record (set_reg
      (set_reg (set_reg (set_sreg (set_ip zeroed 0x0100) sreg_cs 0xF000) reg_sp 1) reg_ax 0x7FFF)
      reg_cx 0x8001) { flags = 0xF203 }

sample-IsWords : IsWords sample
sample-IsWords = record {
  regs = λ i. ground arith;
  sregs = λ i. ground arith;
  mem = λ i. ground arith;
  io_ports = λ i. ground arith;
  ip = ground arith;
  flags = ground arith;
  halted = ground arith;
  trap_flag = ground arith;
  int_pending = ground arith;
  int_vector = ground arith;
  seg_override_en = ground arith;
  seg_override = ground arith;
  rep_override_en = ground arith;
  rep_mode = ground arith;
  pit_lobyte_pending = ground arith;
  spkr_en = ground arith;
  inst_count = ground arith;
  int8_asap = ground arith;
  devices = (
    λ i. record {
      size = ground arith;
      cylinders = ground arith;
      heads = ground arith;
      sectors = ground arith;
      position = ground arith;
    },
    λ i. record { reload = ground arith; counter = ground arith; mode = ground arith },
    λ i. ground arith,
    ground arith,
    ground arith,
    ground arith,
    ground arith,
    ground arith,
    ground arith,
    ground arith,
    ground arith,
  );
}

-- AX, CX as the operands of a word instruction, the destination first.
abbrev ax_cx : DecodeContext
ax_cx = record blank { operand_width = 1; mode = 3; reg = 1 }

exec_cmp_example :
    DifferenceFlags 1
      (read_dest sample ax_cx)
      (read_src sample ax_cx)
      0
      sample
      (exec_cmp sample ax_cx)
    × with_flags sample (exec_cmp sample ax_cx) ≡ exec_cmp sample ax_cx
exec_cmp_example = exec_cmp_lem sample ax_cx sample-IsWords (omega arith)

exec_div_example : Divides 1 (read_rm sample ax_cx) sample (exec_div sample ax_cx)
exec_div_example = exec_div-Divides sample ax_cx sample-IsWords

-- REP MOVSB with CX = 3.
abbrev repeating : Emu86State
repeating = record (set_reg sample reg_cx 3) { rep_override_en = 1; rep_mode = 1 }

abbrev movsb : DecodeContext
movsb = record blank { opcode = 0xA4 }

string_example :
    (n : ℕ) × (exec_string_op repeating movsb ≡ rounds n 0 0xA4 repeating)
    × ((exec_string_op repeating movsb).regs reg_cx + n ≡ 3)
    × GoesOn n 0 0xA4 1 repeating
    × HasEnded n 0xA4 1 (exec_string_op repeating movsb)
string_example = exec_string_op-rounds repeating movsb (omega arith) (omega arith)

-- A console of four cells that wraps around: the queue is 5, 6.
abbrev console : Emu86RingBuf
console = record {
  attached = true;
  buf = λ i. if i == 3 then 5 else 6;
  size = 4;
  head = 1;
  tail = 3;
}

console-IsRing : IsRing 2 console
console-IsRing = record { small = omega arith; size = refl; head = omega arith; tail = omega arith }

available_example :
    (ringbuf_available console ≡ length (contents console))
    × (ringbuf_free console + length (contents console) + 1 ≡ 4)
available_example = ringbuf_available-contents 2 console console-IsRing

write_example :
    ((ringbuf_write console 0x141 ≡ none) × (length (contents console) + 1 ≡ 4))
    ⊎ ((rb' : Emu86RingBuf) × (ringbuf_write console 0x141 ≡ some rb')
        × IsRing 2 rb'
        × contents rb' ≡ contents console ++ 0x41 ∷ [])
write_example = ringbuf_write-contents 2 console console-IsRing 0x141

read_example :
    ((ringbuf_read console ≡ none) × (contents console ≡ []))
    ⊎ ((byte : ℕ) × (rb' : Emu86RingBuf) × (ringbuf_read console ≡ some (byte, rb'))
        × IsRing 2 rb'
        × contents console ≡ byte ∷ contents rb')
read_example = ringbuf_read-contents 2 console console-IsRing

abbrev flat_tables : Emu86Tables
flat_tables i j = 1

decode_example : InRange (decode_instruction sample flat_tables)
decode_example = decode_instruction-InRange sample flat_tables

-- A host without disks and a clock.
abbrev host : Emu86Platform ℕ
host = record {
  disk_read = none;
  disk_write = none;
  console_out = console;
  console_in = console;
  get_time_us = none;
  ctx = 0;
}

abbrev no_info : Emu86YieldInfo
no_info = record { reason = 0; cycles_used = 0; io_type = 0; io_port = 0 }

run_example : Ends 10 (emu86_run 4 flat_tables 10 no_info (machine sample host))
run_example =
    emu86_run-Ends 4 flat_tables 10 no_info (machine sample host) (omega arith) (omega arith)

step_example :
    let single = (emu86_step_single flat_tables (machine sample host)).1 in
    run_loop 4 flat_tables 10 0 no_info (machine sample host)
    ≡ turned 3 flat_tables 10 0 no_info (service_timer (poll_timer single.state) single.platform)
step_example =
    run_loop-emu86_step_single 3 flat_tables 10 0 no_info (machine sample host) (omega arith) refl
      refl refl (ground arith)

-- A machine that a HLT has stopped.
abbrev halted_machine : Machine ℕ
halted_machine = machine (record sample { halted = 1 }) host

abbrev halt_info : Emu86YieldInfo
halt_info = record no_info { reason = 1 }

halted_run :
    emu86_run 1 flat_tables 0xFFFF_FFFF no_info halted_machine ≡ some (halt_info, halted_machine)
unfolding emu86_run run_loop service_pending
halted_run = refl

unspent_example : halt_info.reason ≢ yield_budget
unspent_example =
    emu86_run_unspent 1 flat_tables 0xFFFF_FFFF no_info halt_info halted_machine halted_machine
      (omega arith) halted_run

snapshot_example :
    (bytes : List ℕ) × (s' : Emu86State) × (emu86_snapshot_save sample emu86_snapshot_size
      ≡ some bytes)
    × (length bytes ≡ emu86_snapshot_size)
    × (emu86_snapshot_restore emu86_init bytes ≡ restored s')
    × SameState s' sample
snapshot_example = restore-save emu86_init sample emu86_snapshot_size sample-IsWords (omega arith)

-- The bytes that a saving of `sample` gives, and the state that they restore.
abbrev saved_sample :
    (bytes : List ℕ) × (s' : Emu86State) × (emu86_snapshot_save sample emu86_snapshot_size
      ≡ some bytes)
    × (length bytes ≡ emu86_snapshot_size)
    × (emu86_snapshot_restore emu86_init bytes ≡ restored s')
    × SameState s' sample
saved_sample = restore-save emu86_init sample emu86_snapshot_size sample-IsWords (omega arith)

restored-IsAccepted_example : IsAccepted saved_sample.0
restored-IsAccepted_example =
    restored-IsAccepted emu86_init saved_sample.1 saved_sample.0 saved_sample.4

-- LEA CX, [...]
abbrev lea : DecodeContext
lea = record blank { opcode = 0x8D; operand_width = 1; mode = 1; reg = 1; rm = 2; data1 = 5 }

lea_example :
    load_effective_address sample flat_tables (resolve_operands sample flat_tables lea)
    ≡ record (write_reg16 sample 1 (operand_offset sample flat_tables lea)) { seg_override_en = 1 }
lea_example = load_effective_address_lem sample flat_tables lea sample-IsWords (omega arith)
