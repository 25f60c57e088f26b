-- ===== src/Host/Console.antt =====
-- packages/emu86/src/hosts/linux/platform_linux.c: the output ring goes out as a
-- queue.
use huxley.Base.{
  ℕ, zero, suc, ◌+◌, ◌^◌, ◌≡◌, ◌≤◌, ◌<◌, ◌⊎◌, inl, inr, refl, sym, ap, ◌∙◌, arith, ltb, update,
  cells,
}
use huxley.Base.{true, false, Option, some, List, [], ◌∷◌, ◌++◌, length}
use huxley.Base.Masks.{pow_pos}
use huxley.Harness.Printed.{++_assoc, ++_nil, length-++}
use huxley.Platform.{Emu86RingBuf, ringbuf_available}
use huxley.Platform.Wrap.{IsRing}
use huxley.Platform.Fifo.{contents, queued, ringbuf_available-contents, ringbuf_read-contents}
use huxley.Host.{alloc_ring_buffer, fill_chunk, chunk_of, flush_console}

-- A ring buffer that is allocated with a power of 2 cells, below 2 ^ 32, is an empty ring.
pub alloc_ring_buffer-IsRing :
    (k : ℕ)
    → k < 32
    → IsRing k (alloc_ring_buffer (2 ^ k)) × (contents (alloc_ring_buffer (2 ^ k)) ≡ [])
unfolding alloc_ring_buffer contents queued
alloc_ring_buffer-IsRing k h =
    (record { small = h; size = refl; head = pow_pos k; tail = pow_pos k }, refl)

-- A list in two parts, the first with `n` elements.
split_at :
    (n : ℕ) (s : List ℕ)
    → n ≤ length s
    → (xs : List ℕ) × (ys : List ℕ) × (s ≡ xs ++ ys) × (length xs ≡ n)
split_at zero s h = ([], s, refl, refl)
split_at (suc n) [] h = absurd (omega arith)
split_at (suc n) (c ∷ s) h =
    let (xs, ys, e, f) = split_at n s (omega arith) in (c ∷ xs, ys, ap (λ r. c ∷ r) e, omega arith)

-- A chunk that the ring can fill is the front of its queue.
record Filled (k : ℕ) (n i : ℕ) (buf : ℕ → ℕ) (xs ys : List ℕ) (r : (ℕ → ℕ) × Emu86RingBuf)
    : Type 0 where
  ring : IsRing k r.1
  rest : contents r.1 ≡ ys
  chunk : cells r.0 i n ≡ xs
  below : (j : ℕ) → j < i → r.0 j ≡ buf j

empty_or_not : (s : List ℕ) → (s ≡ []) ⊎ (0 < length s)
empty_or_not [] = inl refl
empty_or_not (c ∷ s) = inr (omega arith)

chunk_of-le : (n : ℕ) → chunk_of n ≤ n
chunk_of-le n = ground arith

chunk_positive : (n : ℕ) → 0 < n → 0 < chunk_of n
chunk_positive n h = ground arith

shorter :
    (s xs ys : List ℕ) (fuel : ℕ)
    → s ≡ xs ++ ys
    → length xs ≡ chunk_of (length s)
    → 0 < length s
    → length s < suc fuel
    → length ys < fuel
shorter s xs ys fuel e l h k =
    let total = ap length e ∙ length-++ xs ys in
    let some_taken = chunk_positive (length s) h in omega arith

update_here : (buf : ℕ → ℕ) (i b : ℕ) → update buf i b i ≡ b
update_here buf i b = ground arith

update_before : (buf : ℕ → ℕ) (i j b : ℕ) → j < i → update buf i b j ≡ buf j
update_before buf i j b h = ground arith

-- The text has gone out, and the ring is empty.
abbrev pub Flushed : ℕ → Option (Emu86RingBuf × List ℕ) → List ℕ → Type 0
Flushed k r text = (rb' : Emu86RingBuf) × (r ≡ some (rb', text)) × IsRing k rb' × contents rb' ≡ []

module _ (k : ℕ) where
  fill_chunk-Filled :
      (xs ys : List ℕ) (n i : ℕ) (buf : ℕ → ℕ) (rb : Emu86RingBuf)
      → IsRing k rb
      → contents rb ≡ xs ++ ys
      → length xs ≡ n
      → Filled k n i buf xs ys (fill_chunk n i buf rb)
  unfolding fill_chunk cells
  fill_chunk-Filled [] ys zero i buf rb v e l = record {
    ring = v;
    rest = e;
    chunk = refl;
    below = λ j h. refl;
  }
  fill_chunk-Filled [] ys (suc n) i buf rb v e l = absurd (omega arith)
  fill_chunk-Filled (c ∷ xs) ys zero i buf rb v e l = absurd (omega arith)
  fill_chunk-Filled (c ∷ xs) ys (suc n) i buf rb v e l = elim (ringbuf_read-contents k rb v) [
    | inl (failed, empty) ↦
        let no : [] ≡ c ∷ (xs ++ ys) = sym empty ∙ e in absurd (omega (arith, ap length no))
    | inr (byte, rb', read, w, queue) ↦
        let same : byte ∷ contents rb' ≡ c ∷ (xs ++ ys) = sym queue ∙ e in
        let first : byte ≡ c = cc same in
        let rest : contents rb' ≡ xs ++ ys = cc same in
        let later =
          fill_chunk-Filled xs ys n (i + 1) (update buf i byte) rb' w rest (omega arith) in
        rw (fill_chunk, read)
          (record {
            ring = later.ring;
            rest = later.rest;
            chunk = cc (later.below i (omega arith) ∙ update_here buf i byte, first, later.chunk);
            below = λ j h. later.below j (omega arith) ∙ update_before buf i j byte h;
          })
  ]

  available : (rb : Emu86RingBuf) → IsRing k rb → ringbuf_available rb ≡ length (contents rb)
  available rb v = (ringbuf_available-contents k rb v).0

  -- One round of the outer loop.
  flush_round :
      (fuel : ℕ) (buf : ℕ → ℕ) (rb : Emu86RingBuf) (out xs ys : List ℕ) (v : IsRing k rb)
      → 0 < length (contents rb)
      → contents rb ≡ xs ++ ys
      → length xs ≡ chunk_of (length (contents rb))
      → (buf' : ℕ → ℕ) × (rb' : Emu86RingBuf) × (flush_console (suc fuel) buf rb out
          ≡ flush_console fuel buf' rb' (out ++ xs))
        × IsRing k rb'
        × contents rb' ≡ ys
  unfolding flush_console
  flush_round fuel buf rb out xs ys v h split l =
      let n = chunk_of (length (contents rb)) in
      let filled = fill_chunk-Filled xs ys n 0 buf rb v split l in
      let some_left : ltb 0 (length (contents rb)) ≡ true = ground arith in
      (
        (fill_chunk n 0 buf rb).0,
        (fill_chunk n 0 buf rb).1,
        rw (available rb v, some_left, filled.chunk) refl,
        filled.ring,
        filled.rest,
      )

  flush_nothing :
      (fuel : ℕ) (buf : ℕ → ℕ) (rb : Emu86RingBuf) (out : List ℕ)
      → IsRing k rb
      → contents rb ≡ []
      → Flushed k (flush_console (suc fuel) buf rb out) (out ++ contents rb)
  unfolding flush_console
  flush_nothing fuel buf rb out v e =
      let empty : length (contents rb) ≡ 0 = ap length e in
      let none_left : ltb 0 (length (contents rb)) ≡ false = ground arith in
      (rb, rw (available rb v, none_left, e, ++_nil out) refl, v, e)

  -- Flushing the console writes the queue of the output ring to standard output, in order, and
  -- leaves the ring empty. One round more than the queue has bytes is fuel enough.
  pub flush_console-contents :
      (fuel : ℕ) (buf : ℕ → ℕ) (rb : Emu86RingBuf) (out : List ℕ)
      → IsRing k rb
      → length (contents rb) < fuel
      → Flushed k (flush_console fuel buf rb out) (out ++ contents rb)
  flush_console-contents zero buf rb out v h = absurd (omega arith)
  flush_console-contents (suc fuel) buf rb out v h =
      let chunk = chunk_of (length (contents rb)) in
      let (xs, ys, split, l) = split_at chunk (contents rb) (chunk_of-le (length (contents rb))) in
      elim (empty_or_not (contents rb)) [
        | inl e ↦ flush_nothing fuel buf rb out v e
        | inr more ↦
            let (buf', rb', round, w, left) = flush_round fuel buf rb out xs ys v more split l in
            let fewer = shorter (contents rb) xs ys fuel split l more h in
            let (rb2, done, u, empty) =
              flush_console-contents fuel buf' rb' (out ++ xs) w (rw left fewer) in
            (
              rb2,
              round
                  ∙ done
                  ∙ ap (λ t. some (rb2, t))
                      (ap (λ t. out ++ xs ++ t) left
                        ∙ ++_assoc out xs ys
                        ∙ ap (λ t. out ++ t) (sym split)),
              u,
              empty,
            )
      ]
