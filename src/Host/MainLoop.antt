-- ===== src/Host/MainLoop.antt =====
-- packages/emu86/src/hosts/linux/main.c: from the booted state through the main loop to the last
-- flush.
--
-- What comes from outside during a turn of the loop is a `Turn`; a schedule lists the turns. The
-- loop ends where `running` is 0, or with the schedule.
pub mod Ready
pub mod Stream
mod Tests
use huxley.Base.{ℕ, zero, ◌==◌, if◌then◌else◌, Bool, true, Option, none, some, List, [], ◌∷◌}
use huxley.Base.Options.{◌>>=◌}
use huxley.State.{Emu86State}
use huxley.Platform.{Emu86Platform}
use huxley.Decode.{Emu86Tables}
use huxley.Run.Loop.{machine, Emu86YieldInfo, emu86_run}
use huxley.Host.{DiskImage, Session, alloc_ring_buffer, ring_buf_size, cycle_budget}
use huxley.Host.{platform_disk_read, platform_disk_write, flush, handle_yield}

-- A quarter of the budget, and one: every instruction counts 4 cycles.
abbrev pub run_fuel : ℕ
run_fuel = 5001

-- The answer of `select`, the bytes that wait at the terminal, what the local buffer of
-- `flush_console` holds, and whether SIGINT or SIGTERM arrives.
pub record Turn : Type 0 where
  pub ready : Bool
  pub typed : List ℕ
  pub stack : ℕ → ℕ
  pub signalled : Bool

-- `yield` and the rest: what one turn of the loop reads and writes.
abbrev pub Loop : Type 0 → Type 0
Loop H = Emu86YieldInfo × Session H

module _ {H : Type 0} where
  -- `running = 0`
  unfoldable pub signal_handler : Bool → Session H → Session H
  signal_handler signalled x = if signalled then record x { running = 0 } else x

  -- The body of the loop.
  unfoldable pub turn : Emu86Tables → Turn → Loop H → Option (Loop H)
  unfolding signal_handler
  turn t u (info, x) = do
    (info', m) ← emu86_run run_fuel t cycle_budget info x.machine
    y ← handle_yield info'.reason u.ready u.typed u.stack (record x { machine = m })
    some (info', signal_handler u.signalled y)

  unfoldable pub main_loop : Emu86Tables → List Turn → Loop H → Option (Loop H)
  unfolding turn
  main_loop t [] l = some l
  main_loop t (u ∷ us) l =
      let rest = turn t u l >>= main_loop t us in if l.1.running == 0 then some l else rest

  -- The loop, and the flush behind it.
  unfoldable pub run_session : Emu86Tables → List Turn → (ℕ → ℕ) → Loop H → Option (Session H)
  unfolding main_loop
  run_session t us buf l = do (info, x) ← main_loop t us l; flush buf x

-- `platform` before the loop: the callbacks, the disks as context, and two empty rings.
module _ {F : Type 0} (lseek : ℕ → ℕ → F → Option F) (read : ℕ → ℕ → F → Option (List ℕ) × F)
    (write : ℕ → List ℕ → F → Bool × F)
    (clock : (ℕ → DiskImage) × F → ℕ × ((ℕ → DiskImage) × F)) where
  unfoldable pub set_up_platform : (ℕ → DiskImage) → F → Emu86Platform ((ℕ → DiskImage) × F)
  set_up_platform disks files = record {
    disk_read = some (platform_disk_read lseek read write);
    disk_write = some (platform_disk_write lseek read write);
    console_out = alloc_ring_buffer ring_buf_size;
    console_in = alloc_ring_buffer ring_buf_size;
    get_time_us = some clock;
    ctx = (disks, files);
  }

  unfoldable pub start_session : Emu86State → (ℕ → DiskImage) → F → Session ((ℕ → DiskImage) × F)
  unfolding set_up_platform
  start_session s disks files = record {
    machine = machine s (set_up_platform disks files);
    output = [];
    running = 1;
  }
