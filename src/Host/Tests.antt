-- ===== src/Host/Tests.antt =====
-- The Linux host at concrete rings and sessions.
use huxley.Base.{ℕ, ◌≡◌, ◌<◌, ◌==◌, if◌then◌else◌, refl, arith, true}
use huxley.Base.{List, none, some, [], ◌∷◌, ◌++◌, length}
use huxley.State.{zeroed, set_sreg, sreg_cs}
use huxley.Platform.{Emu86RingBuf, ringbuf_free}
use huxley.Platform.Wrap.{IsRing}
use huxley.Platform.Fifo.{contents, queued}
use huxley.Decode.{Emu86Tables}
use huxley.Harness.Text.{take}
use huxley.Run.Loop.{machine, Emu86YieldInfo, emu86_run, run_step, service_pending, yield_halted}
use huxley.Host.{
  Session, ring_buf_size, cycle_budget, service_keyboard, flush_console, wake, handle_yield,
}
use huxley.Host.{DiskImage}
use huxley.Host.Boot.{boot_state}
use huxley.Host.Boot.Image.{Boots, boot_state-Boots}
use huxley.State.{Emu86State}
use huxley.Base.{◌⊎◌}
use huxley.Host.Console.{Flushed, flush_console-contents}
use huxley.Host.Keyboard.{bytes_of, service_keyboard-contents}
use huxley.Host.Resume.{stepped, handle_yield-stepped}
use huxley.Host.Yield.{Handled, handle_yield-Handled}

-- A ring with two bytes, "ok".
abbrev two_bytes : Emu86RingBuf
two_bytes = record {
  attached = true;
  buf = λ i. if i == 0 then b'o' else b'k';
  size = ring_buf_size;
  head = 2;
  tail = 0;
}

two_bytes-IsRing : IsRing 12 two_bytes
two_bytes-IsRing = record {
  small = omega arith;
  size = refl;
  head = omega arith;
  tail = omega arith;
}

short : length (contents two_bytes) < 3
unfolding contents queued
short = omega arith

flush_example :
    Flushed 12 (flush_console 3 (λ i. 0) two_bytes (b'>' ∷ [])) (b'>' ∷ contents two_bytes)
flush_example = flush_console-contents 12 3 (λ i. 0) two_bytes (b'>' ∷ []) two_bytes-IsRing short

keys_example :
    IsRing 12 (service_keyboard (b'd' ∷ b'i' ∷ b'r' ∷ []) two_bytes)
    × (contents (service_keyboard (b'd' ∷ b'i' ∷ b'r' ∷ []) two_bytes)
        ≡ contents two_bytes ++ take (ringbuf_free two_bytes) (bytes_of (b'd' ∷ b'i' ∷ b'r' ∷ [])))
keys_example = service_keyboard-contents 12 (b'd' ∷ b'i' ∷ b'r' ∷ []) two_bytes two_bytes-IsRing

abbrev session : Session ℕ
session = record {
  machine =
      machine (record (set_sreg zeroed sreg_cs 0xF000) { halted = 1 })
        (record {
          disk_read = none;
          disk_write = none;
          console_out = two_bytes;
          console_in = two_bytes;
          get_time_us = none;
          ctx = 0;
        });
  output = [];
  running = 1;
}

abbrev one_byte_tables : Emu86Tables
one_byte_tables i j = 1

abbrev empty_info : Emu86YieldInfo
empty_info = record { reason = 0; cycles_used = 0; io_type = 0; io_port = 0 }

resume_example :
    (y : Session ℕ) × (handle_yield yield_halted true (b'x' ∷ []) (λ i. 0) session ≡ some y)
    × (y.output ≡ session.output ++ contents session.machine.platform.console_out)
    × (emu86_run 9 one_byte_tables cycle_budget empty_info y.machine
        ≡ stepped 8 one_byte_tables cycle_budget empty_info (
            run_step
              (service_pending (wake session.machine.state))
              y.machine.platform
              one_byte_tables))
resume_example =
    handle_yield-stepped 12 (λ i. 0) session two_bytes-IsRing true (b'x' ∷ []) 8 one_byte_tables
      cycle_budget empty_info (omega arith) refl

yield_example :
    (y : Session ℕ) × (handle_yield 1 true (b'x' ∷ []) (λ i. 0) session ≡ some y)
    × Handled 1 true (b'x' ∷ []) session y
yield_example =
    handle_yield-Handled 12 12 (λ i. 0) session two_bytes-IsRing two_bytes-IsRing 1 true (b'x' ∷ [])

-- A floppy and a hard disk of 20 MB.
abbrev images : ℕ → DiskImage
images d = if d == 0 then record { fd = 4; size = 20971520 } else record { fd = 3; size = 368640 }

abbrev bios : List ℕ
bios = b'x' ∷ []

boot_example :
    ((bios ≡ []) × (boot_state true images bios ≡ none))
    ⊎ ((s : Emu86State) × (boot_state true images bios ≡ some s)
        × Boots true images (take 0xFF00 bios) s)
boot_example = boot_state-Boots true images bios (λ d. ground arith)
