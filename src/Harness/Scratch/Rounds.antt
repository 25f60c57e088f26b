-- ===== src/Harness/Scratch/Rounds.antt =====
-- packages/emu86/harness/harness.c: the loops of a scratch copy.
use huxley.Base.{ℕ, zero, suc, ◌+◌, ◌≤◌, ◌<◌, ◌≡◌, ◌⊎◌, inl, inr, refl, sym, ap, ◌∙◌, arith}
use huxley.Base.{Bool, true, false, Option, none, some, List, [], ◌∷◌, ◌++◌, length}
use huxley.Harness.Printed.{++_assoc, ++_nil, length-++}
use huxley.Snapshot.Format.{take, drop}
use huxley.Harness.Scratch.{
  Copying, Written, wrote, interrupted, failed, chunk_size, write_all, copy_loop,
}

pub take-drop : (n : ℕ) (s : List ℕ) → take n s ++ drop n s ≡ s
unfolding take drop
take-drop zero s = refl
take-drop (suc n) [] = refl
take-drop (suc n) (c ∷ s) = ap (λ r. c ∷ r) (take-drop n s)

length-drop : (n : ℕ) (s : List ℕ) → n ≤ length s → length (drop n s) + n ≡ length s
unfolding drop
length-drop zero s h = omega arith
length-drop (suc n) [] h = absurd (omega arith)
length-drop (suc n) (c ∷ s) h = omega (arith, length-drop n s (omega arith))

-- Calls on an open source and an open copy that do not fail: a read gives the next bytes of the
-- source, none only at its end; a write takes bytes over to the end of the copy, or is interrupted.
-- `patience` counts how often that can still happen without progress.
pub record Behaves {F : Type 0} (sys : Copying F) (sfd dfd : ℕ) (left content : F → List ℕ)
    (patience : F → ℕ) : Type 0 where
  pub read_gives :
      (f : F)
      → (bytes : List ℕ) × (f' : F) × (sys.read sfd chunk_size f ≡ (some bytes, f'))
        × (left f ≡ bytes ++ left f')
        × ((bytes ≡ []) → left f ≡ [])
        × (length bytes ≤ chunk_size)
        × (content f' ≡ content f)
        × (patience f' ≤ patience f)
  pub write_gives :
      (b : ℕ) (rest : List ℕ) (f : F)
      → ((n : ℕ) × (f' : F) × (sys.write dfd (b ∷ rest) f ≡ (wrote n, f'))
          × (n ≤ length (b ∷ rest))
          × (content f' ≡ content f ++ take n (b ∷ rest))
          × (left f' ≡ left f)
          × (patience f' ≤ patience f)
          × ((0 < n) ⊎ (patience f' < patience f)))
        ⊎ ((f' : F) × (sys.write dfd (b ∷ rest) f ≡ (interrupted, f'))
            × (content f' ≡ content f)
            × (left f' ≡ left f)
            × (patience f' < patience f))
  pub close_gives :
      (fd : ℕ) (f : F) → (f' : F) × (sys.close fd f ≡ (true, f')) × (content f' ≡ content f)

module _ {F : Type 0} (sys : Copying F) (sfd dfd : ℕ) (left content : F → List ℕ) (patience : F → ℕ)
    (v : Behaves sys sfd dfd left content patience) where
  -- One round of the inner loop, for what the write did.
  after_write : ℕ → ℕ → List ℕ → Written × F → Option (Bool × F)
  after_write fuel b rest r = elim r.0 [
    | wrote n ↦ write_all sys fuel dfd (drop n (b ∷ rest)) r.1
    | interrupted ↦ write_all sys fuel dfd (b ∷ rest) r.1
    | failed ↦ some (false, r.1)
  ]

  write_all-round :
      (fuel b : ℕ) (rest : List ℕ) (f : F) (r : Written × F)
      → sys.write dfd (b ∷ rest) f ≡ r
      → write_all sys (suc fuel) dfd (b ∷ rest) f ≡ after_write fuel b rest r
  unfolding write_all after_write
  write_all-round fuel b rest f r e = ap (after_write fuel b rest) e

  write_all-content :
      (fuel : ℕ) (bytes : List ℕ) (f : F)
      → length bytes + patience f < fuel
      → (f' : F) × (write_all sys fuel dfd bytes f ≡ some (true, f'))
        × (content f' ≡ content f ++ bytes)
        × (left f' ≡ left f)
        × (patience f' ≤ patience f)
  unfolding write_all after_write
  write_all-content zero bytes f h = absurd (omega arith)
  write_all-content (suc fuel) [] f h = (f, refl, sym (++_nil (content f)), refl, omega arith)
  write_all-content (suc fuel) (b ∷ rest) f h = elim (v.write_gives b rest f) [
    | inr (f1, e, same, source, less) ↦
        let (f2, done, out, source2, less2) =
          write_all-content fuel (b ∷ rest) f1 (omega (arith, less)) in
        (
          f2,
          write_all-round fuel b rest f _ e ∙ done,
          out ∙ ap (λ c. c ++ b ∷ rest) same,
          source2 ∙ source,
          omega (arith, less, less2),
        )
    | inl (n, f1, e, fits, more, source, less, progress) ↦
        let shorter = length-drop n (b ∷ rest) fits in
        let enough : length (drop n (b ∷ rest)) + patience f1 < fuel = elim progress [
          | inl p ↦ omega (arith, p, shorter, less, h)
          | inr p ↦ omega (arith, p, shorter, h)
        ] in
        let (f2, done, out, source2, less2) =
          write_all-content fuel (drop n (b ∷ rest)) f1 enough in
        (
          f2,
          write_all-round fuel b rest f _ e ∙ done,
          out
              ∙ ap (λ c. c ++ drop n (b ∷ rest)) more
              ∙ ++_assoc (content f) (take n (b ∷ rest)) (drop n (b ∷ rest))
              ∙ ap (λ r. content f ++ r) (take-drop n (b ∷ rest)),
          source2 ∙ source,
          omega (arith, less, less2),
        )
  ]

  -- One round of the outer loop, for what the read gave.
  after_read : ℕ → ℕ → Option (List ℕ) × F → Option (Bool × F)
  after_read fuel writes r = elim r.0 [
    | none ↦ some (false, r.1)
    | some [] ↦ some (true, r.1)
    | some (b ∷ rest) ↦ elim (write_all sys writes dfd (b ∷ rest) r.1) [
      | none ↦ none
      | some (false, files2) ↦ some (false, files2)
      | some (true, files2) ↦ copy_loop sys fuel writes sfd dfd files2
    ]
  ]

  copy_loop-round :
      (fuel writes : ℕ) (f : F) (r : Option (List ℕ) × F)
      → sys.read sfd chunk_size f ≡ r
      → copy_loop sys (suc fuel) writes sfd dfd f ≡ after_read fuel writes r
  unfolding copy_loop after_read
  copy_loop-round fuel writes f r e = ap (after_read fuel writes) e

  -- The rest of the loop, and what the copy holds then.
  unfoldable pub Copied : Option (Bool × F) → List ℕ → Type 0
  Copied o text = (f' : F) × (o ≡ some (true, f')) × content f' ≡ text

  after_read-Copied :
      (fuel writes : ℕ) (bytes : List ℕ) (f f1 : F)
      → ((f2 : F)
          → length (left f2) < fuel
          → chunk_size + patience f2 < writes
          → Copied (copy_loop sys fuel writes sfd dfd f2) (content f2 ++ left f2))
      → length (left f) < suc fuel
      → chunk_size + patience f < writes
      → left f ≡ bytes ++ left f1
      → ((bytes ≡ []) → left f ≡ [])
      → length bytes ≤ chunk_size
      → content f1 ≡ content f
      → patience f1 ≤ patience f
      → Copied (after_read fuel writes (some bytes, f1)) (content f ++ left f)
  unfolding after_read Copied
  after_read-Copied fuel writes [] f f1 more h k split end short same less =
      (f1, refl, same ∙ sym (++_nil (content f)) ∙ ap (λ r. content f ++ r) (sym (end refl)))
  after_read-Copied fuel writes (b ∷ rest) f f1 more h k split end short same less =
      let (f2, done, out, source, less2) = write_all-content writes (b ∷ rest) f1 (omega arith) in
      let total = ap length split ∙ length-++ (b ∷ rest) (left f1) in
      let (f3, copied, whole) = more f2 (omega (arith, total, h, ap length source)) (omega arith) in
      (
        f3,
        rw (after_read, done) copied,
        whole
            ∙ ap (λ r. r ++ left f2) (out ∙ ap (λ r. r ++ b ∷ rest) same)
            ∙ ap (λ r. content f ++ b ∷ rest ++ r) source
            ∙ ++_assoc (content f) (b ∷ rest) (left f1)
            ∙ ap (λ r. content f ++ r) (sym split),
      )

  pub copy_loop-Copied :
      (fuel writes : ℕ) (f : F)
      → length (left f) < fuel
      → chunk_size + patience f < writes
      → Copied (copy_loop sys fuel writes sfd dfd f) (content f ++ left f)
  unfolding Copied
  copy_loop-Copied zero writes f h k = absurd (omega arith)
  copy_loop-Copied (suc fuel) writes f h k =
      let (bytes, f1, e, split, end, short, same, less) = v.read_gives f in
      let (f2, done, whole) =
        after_read-Copied fuel writes bytes f f1 (λ g. copy_loop-Copied fuel writes g) h k split end
          short same less in
      (f2, copy_loop-round fuel writes f _ e ∙ done, whole)
