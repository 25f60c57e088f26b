-- ===== src/Host/Keyboard.antt =====
-- packages/emu86/src/hosts/linux/platform_linux.c: the waiting keys join the input queue.
use huxley.Base.{ℕ, suc, ◌+◌, ◌^◌, ◌≡◌, inl, inr, refl, sym, ap, ◌∙◌, arith, u8}
use huxley.Base.{List, [], ◌∷◌, ◌++◌, length}
use huxley.Harness.Text.{take}
use huxley.Harness.Printed.{take_fits, ++_assoc, ++_nil, length-++}
use huxley.Platform.{Emu86RingBuf, ringbuf_free}
use huxley.Platform.Wrap.{IsRing}
use huxley.Platform.Fifo.{contents, ringbuf_available-contents, ringbuf_write-contents}
use huxley.Host.{service_keyboard}

-- The bytes of what the terminal gives.
abbrev pub bytes_of : List ℕ → List ℕ
bytes_of [] = []
bytes_of (ch ∷ typed) = u8 ch ∷ bytes_of typed

module _ (k : ℕ) where
  room : (rb : Emu86RingBuf) → IsRing k rb → ringbuf_free rb + length (contents rb) + 1 ≡ 2 ^ k
  room rb v = (ringbuf_available-contents k rb v).1 ∙ v.size

  full_stays :
      (typed : List ℕ) (rb : Emu86RingBuf)
      → IsRing k rb
      → length (contents rb) + 1 ≡ rb.size
      → service_keyboard typed rb ≡ rb
  unfolding service_keyboard
  full_stays [] rb v full = refl
  full_stays (ch ∷ typed) rb v full = elim (ringbuf_write-contents k rb v (u8 ch)) [
    | inl (refused, _) ↦ rw (service_keyboard, refused) (full_stays typed rb v full)
    | inr (rb', done, w, queue) ↦
        let longer = ap length queue ∙ length-++ (contents rb) (u8 (u8 ch) ∷ []) in
        absurd (omega (arith, room rb' w, v.size))
  ]

  taken :
      (ch : ℕ) (typed : List ℕ) (rb rb' : Emu86RingBuf)
      → contents rb' ≡ contents rb ++ u8 (u8 ch) ∷ []
      → IsRing k rb
      → IsRing k rb'
      → contents rb' ++ take (ringbuf_free rb') (bytes_of typed)
        ≡ contents rb ++ take (ringbuf_free rb) (bytes_of (ch ∷ typed))
  unfolding take
  taken ch typed rb rb' queue v w =
      let longer = ap length queue ∙ length-++ (contents rb) (u8 (u8 ch) ∷ []) in
      let less : ringbuf_free rb ≡ suc (ringbuf_free rb') = omega (arith, room rb v, room rb' w) in
      let same : u8 (u8 ch) ≡ u8 ch = omega arith in
      rw (queue, less, same) (++_assoc (contents rb) (u8 ch ∷ []) _)

  -- The keyboard bytes join the input queue in order, as many as there is room for.
  pub service_keyboard-contents :
      (typed : List ℕ) (rb : Emu86RingBuf)
      → IsRing k rb
      → IsRing k (service_keyboard typed rb)
        × (contents (service_keyboard typed rb)
            ≡ contents rb ++ take (ringbuf_free rb) (bytes_of typed))
  unfolding service_keyboard take
  service_keyboard-contents [] rb v = (
    v,
    sym (
        ap (λ t. contents rb ++ t) (take_fits (ringbuf_free rb) [] (omega arith))
        ∙ ++_nil (contents rb)),
  )
  service_keyboard-contents (ch ∷ typed) rb v = elim (ringbuf_write-contents k rb v (u8 ch)) [
    | inl (refused, full) ↦
        let no_room : ringbuf_free rb ≡ 0 = omega (arith, room rb v, v.size) in
        rw (service_keyboard, refused, full_stays typed rb v full, no_room)
          (v, sym (++_nil (contents rb)))
    | inr (rb', done, w, queue) ↦
        let (u, later) = service_keyboard-contents typed rb' w in
        rw (service_keyboard, done) (u, later ∙ taken ch typed rb rb' queue v w)
  ]
