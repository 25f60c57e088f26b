-- ===== src/Host.antt =====
-- packages/emu86/src/hosts/linux: the Linux host's console, its disks and its main loop.
--
-- The terminal is two lists: the bytes that wait on standard input, until a read finds none, and
-- the bytes that `write` was given for standard output. Files are a parameter. A file descriptor
-- that is not positive is 0.
pub mod Console
pub mod Keyboard
pub mod Resume
pub mod Yield
pub mod Boot
pub mod MainLoop
pub mod Arguments
pub mod Terminal
pub mod Start
pub mod Booted
pub mod Saved
mod Tests
use huxley.Base.{ℕ, zero, suc, ◌+◌, ◌-◌, ◌*◌, ltb, leb, ◌==◌, if◌then◌else◌, u8, u16, update, cells}
use huxley.Base.{Bool, true, false, ◌||◌, Option, none, some, List, [], ◌∷◌, ◌++◌}
use huxley.State.{Emu86State, Disk}
use huxley.Platform.{
  Emu86RingBuf, Emu86Platform, DiskRead, DiskWrite, ringbuf_available, ringbuf_read, ringbuf_write,
}
use huxley.Decode.{Emu86Tables}
use huxley.Run.Loop.{
  Machine, machine, Emu86YieldInfo, emu86_run, yield_budget, yield_halted, yield_io_needed,
  yield_exit,
}

abbrev pub ring_buf_size : ℕ
ring_buf_size = 4096

abbrev pub cycle_budget : ℕ
cycle_budget = 20000

abbrev pub max_disks : ℕ
max_disks = 3

-- `calloc` succeeds.
unfoldable pub alloc_ring_buffer : ℕ → Emu86RingBuf
alloc_ring_buffer size = record { attached = true; buf = λ i. 0; size = size; head = 0; tail = 0 }

-- Every waiting byte is offered to the ring; one that it refuses is lost.
unfoldable pub service_keyboard : List ℕ → Emu86RingBuf → Emu86RingBuf
service_keyboard [] rb = rb
service_keyboard (ch ∷ typed) rb =
    service_keyboard typed (elim (ringbuf_write rb (u8 ch)) [ none ↦ rb | some rb' ↦ rb' ])

-- The inner loop of `flush_console`, from index `i` of the local buffer on.
unfoldable pub fill_chunk : ℕ → ℕ → (ℕ → ℕ) → Emu86RingBuf → (ℕ → ℕ) × Emu86RingBuf
fill_chunk zero i buf rb = (buf, rb)
fill_chunk (suc n) i buf rb = elim (ringbuf_read rb) [
  | none ↦ (buf, rb)
  | some (byte, rb') ↦ fill_chunk n (i + 1) (update buf i byte) rb'
]

abbrev pub chunk_of : ℕ → ℕ
chunk_of avail = if ltb 256 avail then 256 else avail

-- `buf` is what the local buffer holds; `out` is what standard output was given before. `none`: the
-- fuel ran out.
unfoldable pub flush_console : ℕ → (ℕ → ℕ) → Emu86RingBuf → List ℕ → Option (Emu86RingBuf × List ℕ)
flush_console zero buf rb out = none
flush_console (suc fuel) buf rb out =
    let chunk = chunk_of (ringbuf_available rb) in
    let filled = fill_chunk chunk 0 buf rb in
    let rest = flush_console fuel filled.0 filled.1 (out ++ cells filled.0 0 chunk) in
    if ltb 0 (ringbuf_available rb) then rest else some (rb, out)

pub record DiskImage : Type 0 where
  pub fd : ℕ
  pub size : ℕ

-- The disk callbacks, over the system's files.
module _ {F : Type 0} (lseek : ℕ → ℕ → F → Option F) (read : ℕ → ℕ → F → Option (List ℕ) × F)
    (write : ℕ → List ℕ → F → Bool × F) where
  abbrev pub no_image : (ℕ → DiskImage) → ℕ → Bool
  no_image disks drive = leb max_disks drive || (disks drive).fd == 0

  unfoldable pub platform_disk_read :
      ℕ → ℕ → ℕ → (ℕ → DiskImage) × F → DiskRead ((ℕ → DiskImage) × F)
  platform_disk_read drive offset len (disks, files) =
      let refused : DiskRead ((ℕ → DiskImage) × F) = record {
        failed = true;
        bytes = [];
        after = (disks, files);
      } in
      if no_image disks drive then refused else elim (lseek (disks drive).fd offset files) [
        | none ↦ refused
        | some sought ↦
            let (result, files') = read (disks drive).fd len sought in
            elim result [
              | none ↦ record { failed = true; bytes = []; after = (disks, files') }
              | some bytes ↦ record { failed = false; bytes = bytes; after = (disks, files') }
            ]
      ]

  unfoldable pub platform_disk_write :
      ℕ → ℕ → List ℕ → (ℕ → DiskImage) × F → DiskWrite ((ℕ → DiskImage) × F)
  platform_disk_write drive offset bytes (disks, files) =
      let refused : DiskWrite ((ℕ → DiskImage) × F) = record {
        failed = true;
        after = (disks, files);
      } in
      if no_image disks drive then refused else elim (lseek (disks drive).fd offset files) [
        | none ↦ refused
        | some sought ↦
            let (failed, files') = write (disks drive).fd bytes sought in
            record { failed = failed; after = (disks, files') }
      ]

-- `EMU86_YIELD_ERROR`, which `emu86_run` never gives.
abbrev pub yield_error : ℕ
yield_error = 4

-- What the main loop keeps.
pub record Session (H : Type 0) : Type 0 where
  pub machine : Machine H
  pub output : List ℕ
  pub running : ℕ

-- `state->halted = 0; state->int_pending = 1; state->int_vector = 0x0A;`
unfoldable pub wake : Emu86State → Emu86State
wake s = record s { halted = 0; int_pending = 1; int_vector = 0x0A }

module _ {H : Type 0} where
  unfoldable pub type_keys : List ℕ → Machine H → Machine H
  unfolding service_keyboard
  type_keys typed m =
      machine m.state
        (record m.platform { console_in = service_keyboard typed m.platform.console_in })

  -- `flush_console` on a session; a ring never holds more bytes than its size.
  unfoldable pub flush : (ℕ → ℕ) → Session H → Option (Session H)
  flush buf x =
      let p = x.machine.platform in
      elim (flush_console (p.console_out.size + 1) buf p.console_out x.output) [
        | none ↦ none
        | some (rb, out) ↦ some (record x {
          machine = machine x.machine.state (record p { console_out = rb });
          output = out;
        })
      ]

  -- The arm for a halted processor: `ready` is the answer of `select`.
  unfoldable pub resume : Bool → List ℕ → Session H → Session H
  unfolding wake type_keys
  resume ready typed x =
      let m = if ready then type_keys typed x.machine else x.machine in
      record x { machine = machine (wake m.state) m.platform }

  -- The `switch` of the main loop, with the bytes that wait at the terminal.
  unfoldable pub handle_yield : ℕ → Bool → List ℕ → (ℕ → ℕ) → Session H → Option (Session H)
  unfolding flush resume type_keys
  handle_yield reason ready typed buf x =
      if reason == yield_budget
      then elim (flush buf x) [
        | none ↦ none
        | some y ↦ some (record y { machine = type_keys typed y.machine })
      ]
      else if reason == yield_io_needed
      then flush buf x
      else if reason == yield_halted
      then elim (flush buf x) [ none ↦ none | some y ↦ some (resume ready typed y) ]
      else if (reason == yield_exit) || (reason == yield_error)
      then some (record x { running = 0 })
      else some x
