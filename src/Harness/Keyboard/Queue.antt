-- ===== src/Harness/Keyboard/Queue.antt =====
-- packages/emu86/harness/harness.c: the keyboard queue is a bounded queue of bytes.
use huxley.Base.{
  ℕ, zero, suc, ◌+◌, ◌%◌, ◌^◌, ◌≡◌, ◌≤◌, ◌<◌, ◌⊎◌, inl, inr, refl, sym, ap, ◌∙◌, arith, ◌==◌,
}
use huxley.Base.{
  u32, sub32, update, true, false, Bool-cases, Option, none, some, List, [], ◌∷◌, ◌++◌, length,
}
use huxley.Harness.Text.{is_empty}
use huxley.Harness.Printed.{++_assoc, ++_nil}
use huxley.Harness.Keyboard.{
  KbdQueue, kbd_queue_size, harness_consume_kbd_byte, store_kbd_byte, store_kbd_bytes, read_fifo,
  free_space, to_read, drain_kbd_fifo, used,
}

-- The queue: `n` bytes from counter `h` on.
unfoldable pub waiting : (ℕ → ℕ) → ℕ → ℕ → List ℕ
waiting buf h zero = []
waiting buf h (suc n) = buf (h % kbd_queue_size) ∷ waiting buf (u32 (h + 1)) n

abbrev pub kbd_bytes : KbdQueue → List ℕ
kbd_bytes q = waiting q.kbd_queue q.kbd_queue_head (used q)

pub record IsQueue (q : KbdQueue) : Type 0 where
  pub head : q.kbd_queue_head < 2 ^ 32
  pub tail : q.kbd_queue_tail < 2 ^ 32
  pub used : used q ≤ kbd_queue_size

length-waiting : (buf : ℕ → ℕ) (h n : ℕ) → length (waiting buf h n) ≡ n
unfolding waiting
length-waiting buf h zero = refl
length-waiting buf h (suc n) = ap suc (length-waiting buf (u32 (h + 1)) n)

-- A byte stored at the tail is the last of the queue, also where a counter wraps.
waiting-update :
    (buf : ℕ → ℕ) (h t b n : ℕ)
    → h < 2 ^ 32
    → t < 2 ^ 32
    → sub32 t h ≡ n
    → n < 256
    → waiting (update buf (t % 256) b) h (suc n) ≡ waiting buf h n ++ b ∷ []
unfolding waiting
waiting-update buf h t b zero k l e m = let here : h ≡ t = omega arith in rw here (ground arith)
waiting-update buf h t b (suc n) k l e m =
    let apart : (h % 256 == t % 256) ≡ false = ground arith in
    rw (apart, waiting-update buf (u32 (h + 1)) t b n (omega arith) l (omega arith) (omega arith))
      refl

module _ (q : KbdQueue) (v : IsQueue q) where
  -- The keyboard bytes leave the queue in order, one at a time, and none of an empty queue; the one
  -- that left is remembered for the emulator's own console.
  pub harness_consume_kbd_byte-kbd_bytes :
      ((harness_consume_kbd_byte q ≡ none) × (kbd_bytes q ≡ []))
      ⊎ ((byte : ℕ) × (q' : KbdQueue) × (harness_consume_kbd_byte q ≡ some (byte, q'))
          × IsQueue q'
          × (kbd_bytes q ≡ byte ∷ kbd_bytes q')
          × (q'.last_consumed_byte ≡ byte)
          × (q'.last_consumed_byte_present ≡ 1))
  unfolding harness_consume_kbd_byte waiting
  harness_consume_kbd_byte-kbd_bytes = elim (Bool-cases (q.kbd_queue_head == q.kbd_queue_tail)) [
    | inl e ↦ let empty : used q ≡ 0 = ground (arith, v.tail) in inl (rw e refl, rw empty refl)
    | inr e ↦
        let n : used q ≡ suc (sub32 q.kbd_queue_tail (u32 (q.kbd_queue_head + 1))) =
          ground (arith, v.head, v.tail) in
        let byte = q.kbd_queue (q.kbd_queue_head % kbd_queue_size) in
        let q' : KbdQueue = record q {
          kbd_queue_head = u32 (q.kbd_queue_head + 1);
          last_consumed_byte = byte;
          last_consumed_byte_present = 1;
        } in
        inr (
          byte,
          q',
          rw e refl,
          record { head = omega arith; tail = v.tail; used = omega (arith, v.used) },
          rw n refl,
          refl,
          refl,
        )
  ]

  store_kbd_byte-IsQueue : (byte : ℕ) → used q < 256 → IsQueue (store_kbd_byte q byte)
  unfolding store_kbd_byte
  store_kbd_byte-IsQueue byte h = record {
    head = v.head;
    tail = omega arith;
    used = omega (arith, v.head, v.tail);
  }

  used-store_kbd_byte : (byte : ℕ) → used q < 256 → used (store_kbd_byte q byte) ≡ suc (used q)
  unfolding store_kbd_byte
  used-store_kbd_byte byte h = omega (arith, v.head, v.tail)

  kbd_bytes-store_kbd_byte :
      (byte : ℕ) → used q < 256 → kbd_bytes (store_kbd_byte q byte) ≡ kbd_bytes q ++ byte ∷ []
  unfolding store_kbd_byte
  kbd_bytes-store_kbd_byte byte h = rw (used-store_kbd_byte byte h) (
      waiting-update q.kbd_queue q.kbd_queue_head q.kbd_queue_tail byte (used q) v.head v.tail refl
        h)

-- Bytes that have joined a queue.
record Joined (q q' : KbdQueue) (bytes : List ℕ) : Type 0 where
  queue : IsQueue q'
  used_now : used q' ≡ used q + length bytes
  bytes_now : kbd_bytes q' ≡ kbd_bytes q ++ bytes

store_kbd_bytes-Joined :
    (bytes : List ℕ) (q : KbdQueue)
    → IsQueue q
    → used q + length bytes ≤ 256
    → Joined q (store_kbd_bytes bytes q) bytes
unfolding store_kbd_bytes
store_kbd_bytes-Joined [] q v h = record {
  queue = v;
  used_now = omega arith;
  bytes_now = sym (++_nil (kbd_bytes q));
}
store_kbd_bytes-Joined (byte ∷ bytes) q v h =
    let one = used-store_kbd_byte q v byte (omega arith) in
    let later =
      store_kbd_bytes-Joined bytes (store_kbd_byte q byte)
        (store_kbd_byte-IsQueue q v byte (omega arith)) (omega arith) in
    record {
      queue = later.queue;
      used_now = later.used_now ∙ omega arith;
      bytes_now =
          later.bytes_now
          ∙ ap (λ s. s ++ bytes) (kbd_bytes-store_kbd_byte q v byte (omega arith))
          ∙ ++_assoc (kbd_bytes q) (byte ∷ []) bytes;
    }

read_fifo_split :
    (n : ℕ) (fifo : List ℕ)
    → (fifo ≡ (read_fifo n fifo).0 ++ (read_fifo n fifo).1) × (length (read_fifo n fifo).0 ≤ n)
unfolding read_fifo
read_fifo_split zero fifo = (refl, omega arith)
read_fifo_split (suc n) [] = (refl, omega arith)
read_fifo_split (suc n) (byte ∷ fifo) =
    let (e, h) = read_fifo_split n fifo in (ap (λ s. byte ∷ s) e, omega arith)

read_fifo_none : (n : ℕ) (fifo : List ℕ) → 0 < n → is_empty (read_fifo n fifo).0 ≡ true → fifo ≡ []
unfolding read_fifo
read_fifo_none zero fifo h e = absurd (omega arith)
read_fifo_none (suc n) [] h e = refl
read_fifo_none (suc n) (byte ∷ fifo) h e = ground arith

some_bytes : (s : List ℕ) → is_empty s ≡ false → 0 < length s
some_bytes [] e = ground arith
some_bytes (c ∷ s) e = omega arith

-- The drained queue: what was read has joined it, and either the pipe is empty or the queue full.
abbrev pub Drained : Option (KbdQueue × List ℕ) → KbdQueue → List ℕ → Type 0
Drained r q fifo =
    (q' : KbdQueue) × (bytes : List ℕ) × (left : List ℕ) × (r ≡ some (q', left))
    × IsQueue q'
    × (fifo ≡ bytes ++ left)
    × (kbd_bytes q' ≡ kbd_bytes q ++ bytes)
    × ((left ≡ []) ⊎ (used q' ≡ kbd_queue_size))

Drained-++ :
    {r : Option (KbdQueue × List ℕ)} (q q1 : KbdQueue) (fifo first rest : List ℕ)
    → fifo ≡ first ++ rest
    → kbd_bytes q1 ≡ kbd_bytes q ++ first
    → Drained r q1 rest
    → Drained r q fifo
Drained-++ q q1 fifo first rest split queue (q', bytes, left, done, w, split', queue', stop) = (
  q',
  first ++ bytes,
  left,
  done,
  w,
  split ∙ ap (λ s. first ++ s) split' ∙ sym (++_assoc first bytes left),
  queue' ∙ ap (λ s. s ++ bytes) queue ∙ ++_assoc (kbd_bytes q) first bytes,
  stop,
)

-- Draining the pipe ends, with as much fuel as the queue has free cells and one round more: the
-- bytes that it took off the pipe are the new end of the queue, in order, and it stopped because
-- the pipe was empty or the queue full. The counters may wrap.
pub drain_kbd_fifo-Drained :
    (fuel : ℕ) (fifo : List ℕ) (q : KbdQueue)
    → IsQueue q
    → free_space q < fuel
    → Drained (drain_kbd_fifo fuel fifo q) q fifo
unfolding drain_kbd_fifo
drain_kbd_fifo-Drained zero fifo q v h = absurd (omega arith)
drain_kbd_fifo-Drained (suc fuel) fifo q v h =
    let n = to_read (free_space q) in
    elim (Bool-cases (free_space q == 0)) [
      | inl e ↦ (
        q,
        [],
        fifo,
        rw e refl,
        v,
        refl,
        sym (++_nil (kbd_bytes q)),
        inr (ground (arith, v.used)),
      )
      | inr e ↦ elim (Bool-cases (is_empty (read_fifo n fifo).0)) [
        | inl f ↦ (
          q,
          [],
          fifo,
          rw (e, f) refl,
          v,
          refl,
          sym (++_nil (kbd_bytes q)),
          inl (read_fifo_none n fifo (ground arith) f),
        )
        | inr f ↦
            let got = read_fifo n fifo in
            let (split, short) = read_fifo_split n fifo in
            let taken = some_bytes got.0 f in
            let room : n ≤ free_space q = ground arith in
            let j = store_kbd_bytes-Joined got.0 q v (omega (arith, v.used)) in
            rw (e, f)
              (Drained-++ q (store_kbd_bytes got.0 q) fifo got.0 got.1 split j.bytes_now (
                drain_kbd_fifo-Drained fuel got.1 (store_kbd_bytes got.0 q) j.queue
                  (omega (arith, j.used_now, v.used, j.queue.used))))
      ]
    ]
