-- ===== src/Harness/Keyboard/Replay.antt =====
-- packages/emu86/harness/harness.c: a key that the reference took reaches the emulator's console.
use huxley.Base.{ℕ, ◌+◌, ◌≡◌, ◌<◌, ◌⊎◌, inl, inr, refl, sym, ap, ◌∙◌, arith, u8, is_set, true}
use huxley.Base.{Option, none, some, [], ◌∷◌, ◌++◌, length}
use huxley.Harness.Printed.{length-++}
use huxley.Platform.{Emu86RingBuf}
use huxley.Platform.Wrap.{IsRing}
use huxley.Platform.Fifo.{contents, ringbuf_available-contents, ringbuf_write-contents}
use huxley.Harness.Keyboard.Queue.{IsQueue, kbd_bytes, harness_consume_kbd_byte-kbd_bytes}
use huxley.Harness.Keyboard.{KbdQueue, harness_consume_kbd_byte, replicate_kbd_byte}

-- A byte joins the ring, or the ring is full and stays as it is.
abbrev pub Offered : ℕ → Emu86RingBuf → Emu86RingBuf → Type 0
Offered byte rb rb' =
    ((length (contents rb) + 1 ≡ rb.size) × (rb' ≡ rb))
    ⊎ ((length (contents rb) + 1 < rb.size) × (contents rb' ≡ contents rb ++ u8 byte ∷ []))

replicate-Offered :
    (k : ℕ) (q : KbdQueue) (rb : Emu86RingBuf) (byte : ℕ)
    → IsRing k rb
    → q.last_consumed_byte_present ≡ 1
    → q.last_consumed_byte ≡ byte
    → ((replicate_kbd_byte q rb).0.last_consumed_byte_present ≡ 0)
      × Offered byte rb (replicate_kbd_byte q rb).1
unfolding replicate_kbd_byte
replicate-Offered k q rb byte v present e =
    let on : is_set q.last_consumed_byte_present ≡ true = ground arith in
    elim (ringbuf_write-contents k rb v q.last_consumed_byte) [
      | inl (refused, full) ↦ rw (replicate_kbd_byte, on, refused) (refl, inl (full, refl))
      | inr (rb', done, w, queue) ↦
          let longer = ap length queue ∙ length-++ (contents rb) (u8 q.last_consumed_byte ∷ []) in
          let whole = (ringbuf_available-contents k rb' w).1 in
          let before = (ringbuf_available-contents k rb v).1 in
          rw (replicate_kbd_byte, on, done)
            (
              refl,
              inr (
                omega (arith, longer, whole, before, v.size, w.size),
                queue ∙ ap (λ b. contents rb ++ u8 b ∷ []) e,
              ),
            )
    ]

-- The byte that a consumer took off the queue is offered to the emulator's console input, and only
-- once: it joins that ring if there is room, and is lost, with the ring as it was, if it is full.
pub replicate-consume :
    (k : ℕ) (q q' : KbdQueue) (rb : Emu86RingBuf) (byte : ℕ)
    → IsQueue q
    → IsRing k rb
    → harness_consume_kbd_byte q ≡ some (byte, q')
    → (kbd_bytes q ≡ byte ∷ kbd_bytes q')
      × ((replicate_kbd_byte q' rb).0.last_consumed_byte_present ≡ 0)
      × Offered byte rb (replicate_kbd_byte q' rb).1
replicate-consume k q q' rb byte v w e = elim (harness_consume_kbd_byte-kbd_bytes q v) [
  | inl (nothing, _) ↦
      let no : ◌≡◌ {A = Option (ℕ × KbdQueue)} none (some (byte, q')) = sym nothing ∙ e in
      ground arith
  | inr (b, q1, took, _, queue, last, present) ↦
      let same : some (b, q1) ≡ some (byte, q') = sym took ∙ e in
      let same_queue : q1 ≡ q' = cc same in
      let same_byte : b ≡ byte = cc same in
      let given = replicate-Offered k q1 rb byte w present (last ∙ same_byte) in
      (rw (same_queue, same_byte) at queue, rw same_queue at given.0, rw same_queue at given.1)
]
