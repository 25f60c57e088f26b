-- ===== src/Harness/Keyboard.antt =====
-- packages/emu86/harness/harness.c: the queue of the keyboard pipe.
--
-- `kbd_queue_head` and `kbd_queue_tail` grow without bound, in 32 bits. The bytes that wait in the
-- pipe are a list: a read takes as many as it asks for, or all of them. `drain_kbd_fifo` is the loop
-- behind its test of `kbd_enabled`.
pub mod Queue
pub mod Replay
use huxley.Base.{
  ℕ, zero, suc, ◌+◌, ◌-◌, ◌%◌, ◌^◌, ◌≡◌, ◌≤◌, ◌<◌, ◌⊎◌, inl, inr, refl, sym, ap, ◌∙◌, arith, ltb,
  ◌==◌, if◌then◌else◌,
}
use huxley.Base.{
  u8, u32, sub32, update, is_set, Bool, true, false, Bool-cases, Option, none, some, List, [], ◌∷◌,
  ◌++◌, length,
}
use huxley.Harness.Text.{is_empty}
use huxley.Platform.{Emu86RingBuf, ringbuf_write}

abbrev pub kbd_queue_size : ℕ
kbd_queue_size = 256

pub record KbdQueue : Type 0 where
  pub kbd_queue : ℕ → ℕ
  pub kbd_queue_head : ℕ
  pub kbd_queue_tail : ℕ
  pub last_consumed_byte : ℕ
  pub last_consumed_byte_present : ℕ

unfoldable pub harness_consume_kbd_byte : KbdQueue → Option (ℕ × KbdQueue)
harness_consume_kbd_byte q =
    let byte = q.kbd_queue (q.kbd_queue_head % kbd_queue_size) in
    if q.kbd_queue_head == q.kbd_queue_tail
    then none
    else some (
      byte,
      record q {
        kbd_queue_head = u32 (q.kbd_queue_head + 1);
        last_consumed_byte = byte;
        last_consumed_byte_present = 1;
      },
    )

-- `kbd_queue[kbd_queue_tail % KBD_QUEUE_SIZE] = byte; kbd_queue_tail++;`
unfoldable pub store_kbd_byte : KbdQueue → ℕ → KbdQueue
store_kbd_byte q byte = record q {
  kbd_queue = update q.kbd_queue (q.kbd_queue_tail % kbd_queue_size) byte;
  kbd_queue_tail = u32 (q.kbd_queue_tail + 1);
}

abbrev pub used : KbdQueue → ℕ
used q = sub32 q.kbd_queue_tail q.kbd_queue_head

unfoldable pub store_kbd_bytes : List ℕ → KbdQueue → KbdQueue
store_kbd_bytes [] q = q
store_kbd_bytes (byte ∷ bytes) q = store_kbd_bytes bytes (store_kbd_byte q byte)

-- `read(kbd_fifo_fd, buf, n)`: the bytes read, and those that are left.
unfoldable pub read_fifo : ℕ → List ℕ → List ℕ × List ℕ
read_fifo zero fifo = ([], fifo)
read_fifo (suc n) [] = ([], [])
read_fifo (suc n) (byte ∷ fifo) = let (bytes, left) = read_fifo n fifo in (byte ∷ bytes, left)

abbrev pub free_space : KbdQueue → ℕ
free_space q = sub32 kbd_queue_size (used q)

abbrev pub to_read : ℕ → ℕ
to_read free = if ltb free 64 then free else 64

-- The queue after the loop, and what is left in the pipe. `none`: the fuel ran out.
unfoldable pub drain_kbd_fifo : ℕ → List ℕ → KbdQueue → Option (KbdQueue × List ℕ)
drain_kbd_fifo zero fifo q = none
drain_kbd_fifo (suc fuel) fifo q =
    let got = read_fifo (to_read (free_space q)) fifo in
    let rest = drain_kbd_fifo fuel got.1 (store_kbd_bytes got.0 q) in
    if free_space q == 0 then some (q, fifo) else if is_empty got.0 then some (q, fifo) else rest

-- The byte that the reference took is given to the emulator's console, and a refusal ignored.
unfoldable pub replicate_kbd_byte : KbdQueue → Emu86RingBuf → KbdQueue × Emu86RingBuf
replicate_kbd_byte q console_in =
    let written : Emu86RingBuf = elim (ringbuf_write console_in q.last_consumed_byte) [
      | none ↦ console_in
      | some rb ↦ rb
    ] in
    if is_set q.last_consumed_byte_present
    then (record q { last_consumed_byte_present = 0 }, written)
    else (q, console_in)
