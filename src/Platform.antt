-- ===== src/Platform.antt =====
-- packages/emu86/src/emulator/platform.h: the ring buffers and the host interface.
--
-- `buf`, `head` and `tail` are memory that the host provides. `attached` is the test `buf != NULL`.
-- Where the C functions return -1 and change nothing, these return `none`.
pub mod Wrap
pub mod Fifo
use huxley.Base.{ℕ, zero, suc, ◌+◌, ◌-◌, bit_and, ltb, ◌==◌, if◌then◌else◌, Bool, u8, u32, sub32}
use huxley.Base.{Option, none, some, List, [], ◌∷◌, update, length}

pub record Emu86RingBuf : Type 0 where
  pub attached : Bool
  pub buf : ℕ → ℕ
  pub size : ℕ
  pub head : ℕ
  pub tail : ℕ

-- `& (rb->size - 1)`
abbrev wrap : Emu86RingBuf → ℕ → ℕ
wrap rb n = bit_and n (sub32 rb.size 1)

unfoldable pub ringbuf_available : Emu86RingBuf → ℕ
ringbuf_available rb = wrap rb (sub32 rb.head rb.tail)

unfoldable pub ringbuf_free : Emu86RingBuf → ℕ
unfolding ringbuf_available
ringbuf_free rb = sub32 (sub32 rb.size 1) (ringbuf_available rb)

unfoldable pub ringbuf_write : Emu86RingBuf → ℕ → Option Emu86RingBuf
ringbuf_write rb byte =
    let next = wrap rb (u32 (rb.head + 1)) in
    if next == rb.tail
    then none
    else some (record rb { buf = update rb.buf rb.head (u8 byte); head = next })

unfoldable pub ringbuf_read : Emu86RingBuf → Option (ℕ × Emu86RingBuf)
ringbuf_read rb =
    if rb.tail == rb.head
    then none
    else some (rb.buf rb.tail, record rb { tail = wrap rb (u32 (rb.tail + 1)) })

-- The copying loop of `ringbuf_write_buf`: the space is tested before it.
unfoldable pub write_bytes : Emu86RingBuf → List ℕ → Emu86RingBuf
write_bytes rb [] = rb
write_bytes rb (byte ∷ rest) =
    write_bytes
      (record rb { buf = update rb.buf rb.head (u8 byte); head = wrap rb (u32 (rb.head + 1)) }) rest

unfoldable pub ringbuf_write_buf : Emu86RingBuf → List ℕ → Option Emu86RingBuf
unfolding write_bytes ringbuf_free
ringbuf_write_buf rb bytes =
    if ltb (ringbuf_free rb) (length bytes) then none else some (write_bytes rb bytes)

-- The copying loop of `ringbuf_read_buf`.
unfoldable pub read_bytes : ℕ → Emu86RingBuf → List ℕ × Emu86RingBuf
read_bytes zero rb = ([], rb)
read_bytes (suc n) rb =
    let (rest, rb') = read_bytes n (record rb { tail = wrap rb (u32 (rb.tail + 1)) }) in
    (rb.buf rb.tail ∷ rest, rb')

unfoldable pub ringbuf_read_buf : Emu86RingBuf → ℕ → Option (List ℕ × Emu86RingBuf)
unfolding read_bytes ringbuf_available
ringbuf_read_buf rb len = if ltb (ringbuf_available rb) len then none else some (read_bytes len rb)

-- What a disk callback does: whether it failed (a negative result), the bytes that it left at the
-- start of the buffer, and the host's context after it.
pub record DiskRead (H : Type 0) : Type 0 where
  pub failed : Bool
  pub bytes : List ℕ
  pub after : H

pub record DiskWrite (H : Type 0) : Type 0 where
  pub failed : Bool
  pub after : H

-- The callbacks are the host's code; `none` is a null pointer. `ctx` is the host's context.
-- The emulator never uses `nic`, which has no field.
pub record Emu86Platform (H : Type 0) : Type 0 where
  pub disk_read : Option (ℕ → ℕ → ℕ → H → DiskRead H)
  pub disk_write : Option (ℕ → ℕ → List ℕ → H → DiskWrite H)
  pub console_out : Emu86RingBuf
  pub console_in : Emu86RingBuf
  pub get_time_us : Option (H → ℕ × H)
  pub ctx : H
