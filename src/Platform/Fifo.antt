-- ===== src/Platform/Fifo.antt =====
-- A ring buffer is a bounded queue: the bytes from `tail` up to `head`, one cell always empty.
use huxley.Base.{ℕ, zero, suc, ◌+◌, ◌^◌, ◌<◌, ◌≡◌, ◌⊎◌, inl, inr, refl, ◌∙◌, sym, ap, arith}
use huxley.Base.{
  bit_and, ◌==◌, u8, u32, sub32, none, some, List, [], ◌∷◌, ◌++◌, update, length, Bool-cases,
}
use huxley.Base.Masks.{pow-lt}
use huxley.Platform.{Emu86RingBuf, ringbuf_available, ringbuf_free, ringbuf_write, ringbuf_read}
use huxley.Platform.Wrap.{IsRing, next, distance, wrap_next, wrap_distance}

-- The queue: `n` bytes from index `i` on.
unfoldable pub queued : (ℕ → ℕ) → ℕ → ℕ → ℕ → List ℕ
queued buf size i zero = []
queued buf size i (suc n) = buf i ∷ queued buf size (next size i) n

unfoldable pub contents : Emu86RingBuf → List ℕ
contents rb = queued rb.buf rb.size rb.tail (distance rb.size rb.tail rb.head)

length-queued : (buf : ℕ → ℕ) (size i n : ℕ) → length (queued buf size i n) ≡ n
unfolding queued
length-queued buf size i zero = refl
length-queued buf size i (suc n) = ap suc (length-queued buf size (next size i) n)

-- A byte written behind the last one joins the queue.
queued-update :
    (buf : ℕ → ℕ) (size i h b n : ℕ)
    → i < size
    → h < size
    → distance size i h ≡ n
    → queued (update buf h b) size i (suc n) ≡ queued buf size i n ++ b ∷ []
unfolding queued
queued-update buf size i h b zero k l e = let here : i ≡ h = ground arith in rw here (ground arith)
queued-update buf size i h b (suc n) k l e =
    let kept : update buf h b i ≡ buf i = ground arith in
    rw (kept, queued-update buf size (next size i) h b n (ground arith) l (ground arith)) refl

module _ (k : ℕ) (rb : Emu86RingBuf) (v : IsRing k rb) where
  head-lt : rb.head < rb.size
  head-lt = omega (arith, v.head, v.size)

  tail-lt : rb.tail < rb.size
  tail-lt = omega (arith, v.tail, v.size)

  size-lt : rb.size < 2 ^ 32
  size-lt = omega (arith, v.size, pow-lt k 32 v.small)

  after_head : bit_and (u32 (rb.head + 1)) (sub32 rb.size 1) ≡ next rb.size rb.head
  after_head = rw v.size (wrap_next rb.head k v.small v.head)

  after_tail : bit_and (u32 (rb.tail + 1)) (sub32 rb.size 1) ≡ next rb.size rb.tail
  after_tail = rw v.size (wrap_next rb.tail k v.small v.tail)

  between : bit_and (sub32 rb.head rb.tail) (sub32 rb.size 1) ≡ distance rb.size rb.tail rb.head
  between = rw v.size (wrap_distance rb.tail rb.head k v.small v.tail v.head)

  count : length (contents rb) ≡ distance rb.size rb.tail rb.head
  unfolding contents
  count = length-queued rb.buf rb.size rb.tail (distance rb.size rb.tail rb.head)

  next-lt : (i : ℕ) → i < rb.size → next rb.size i < 2 ^ k
  next-lt i h = ground (arith, v.size)

  -- Of a ring with a power of 2 cells, `ringbuf_available` is the length of its queue, and the free
  -- cells, the queue and one empty cell make up the size.
  pub ringbuf_available-contents :
      (ringbuf_available rb ≡ length (contents rb))
      × (ringbuf_free rb + length (contents rb) + 1 ≡ rb.size)
  unfolding ringbuf_available ringbuf_free
  ringbuf_available-contents =
      (between ∙ sym count, rw between (ground (arith, count, head-lt, tail-lt, size-lt)))

  -- On a ring with a power of 2 cells, a write is refused exactly with a queue one shorter than the
  -- size; otherwise the byte joins the end of the queue and the ring stays a ring.
  pub ringbuf_write-contents :
      (byte : ℕ)
      → ((ringbuf_write rb byte ≡ none) × (length (contents rb) + 1 ≡ rb.size))
        ⊎ ((rb' : Emu86RingBuf) × (ringbuf_write rb byte ≡ some rb')
            × IsRing k rb'
            × contents rb' ≡ contents rb ++ u8 byte ∷ [])
  unfolding ringbuf_write contents
  ringbuf_write-contents byte = elim (Bool-cases (next rb.size rb.head == rb.tail)) [
    | inl e ↦ inl (rw (after_head, e) refl, ground (arith, count, head-lt, tail-lt))
    | inr e ↦
        let rb' : Emu86RingBuf = record rb {
          buf = update rb.buf rb.head (u8 byte);
          head = next rb.size rb.head;
        } in
        let longer : distance rb.size rb.tail (next rb.size rb.head)
            ≡ suc (distance rb.size rb.tail rb.head) =
          ground (arith, head-lt, tail-lt) in
        inr (
          rb',
          rw (after_head, e) refl,
          record { small = v.small; size = v.size; head = next-lt rb.head head-lt; tail = v.tail },
          rw longer (queued-update rb.buf rb.size rb.tail rb.head (u8 byte) _ tail-lt head-lt refl),
        )
  ]

  -- On a ring with a power of 2 cells, a read fails with an empty queue; otherwise it takes the first
  -- byte off the queue and the ring stays a ring.
  pub ringbuf_read-contents :
      ((ringbuf_read rb ≡ none) × (contents rb ≡ []))
      ⊎ ((byte : ℕ) × (rb' : Emu86RingBuf) × (ringbuf_read rb ≡ some (byte, rb'))
          × IsRing k rb'
          × contents rb ≡ byte ∷ contents rb')
  unfolding ringbuf_read contents queued
  ringbuf_read-contents = elim (Bool-cases (rb.tail == rb.head)) [
    | inl e ↦
        let empty : distance rb.size rb.tail rb.head ≡ 0 = ground arith in
        inl (rw e refl, rw empty refl)
    | inr e ↦
        let rb' : Emu86RingBuf = record rb { tail = next rb.size rb.tail } in
        let shorter : distance rb.size rb.tail rb.head
            ≡ suc (distance rb.size (next rb.size rb.tail) rb.head) =
          ground (arith, head-lt, tail-lt) in
        inr (
          rb.buf rb.tail,
          rb',
          rw (after_tail, e) refl,
          record { small = v.small; size = v.size; head = v.head; tail = next-lt rb.tail tail-lt },
          rw shorter refl,
        )
  ]

-- No operation connects or disconnects a buffer.
pub ringbuf_write-attached :
    (rb rb' : Emu86RingBuf) (byte : ℕ)
    → ringbuf_write rb byte ≡ some rb'
    → rb'.attached ≡ rb.attached
unfolding ringbuf_write
ringbuf_write-attached rb rb' byte e = ground arith

pub ringbuf_read-attached :
    (rb rb' : Emu86RingBuf) (byte : ℕ)
    → ringbuf_read rb ≡ some (byte, rb')
    → rb'.attached ≡ rb.attached
unfolding ringbuf_read
ringbuf_read-attached rb rb' byte e = ground arith
