-- ===== src/Harness/Scratch/Copies.antt =====
-- packages/emu86/harness/harness.c: a scratch copy holds what its source holds.
use huxley.Base.{ℕ, ◌+◌, ◌<◌, ◌≡◌, ap, ◌∙◌}
use huxley.Base.{Bool, true, false, Option, none, some, List, [], ◌++◌, length}
use huxley.Harness.Scratch.{Copying, chunk_size, copy_loop, copy_file, close_both}
use huxley.Harness.Scratch.Rounds.{Behaves, Copied, copy_loop-Copied}

module _ {F : Type 0} (sys : Copying F) (sfd dfd : ℕ) (left content : F → List ℕ) (patience : F → ℕ)
    (v : Behaves sys sfd dfd left content patience) where
  -- What follows the loop.
  after_loop : Option (Bool × F) → Option (Bool × F)
  after_loop o = elim o [ none ↦ none | some done ↦ some (close_both sys sfd dfd done) ]

  -- What follows the two calls that open.
  after_target : ℕ → ℕ → F → Option ℕ × F → Option (Bool × F)
  after_target fuel writes files1 r = elim r.0 [
    | none ↦ some (false, (sys.close sfd r.1).1)
    | some fd ↦ elim (copy_loop sys fuel writes sfd fd r.1) [
      | none ↦ none
      | some done ↦ some (close_both sys sfd fd done)
    ]
  ]

  after_source : ℕ → ℕ → List ℕ → Option ℕ × F → Option (Bool × F)
  after_source fuel writes dst r =
      let t = sys.create dst r.1 in
      elim r.0 [
        | none ↦ some (false, r.1)
        | some fd ↦ elim t.0 [
          | none ↦ some (false, (sys.close fd t.1).1)
          | some fd2 ↦ elim (copy_loop sys fuel writes fd fd2 t.1) [
            | none ↦ none
            | some done ↦ some (close_both sys fd fd2 done)
          ]
        ]
      ]

  opened :
      (fuel writes : ℕ) (src dst : List ℕ) (f f1 f2 : F)
      → sys.open_source src f ≡ (some sfd, f1)
      → sys.create dst f1 ≡ (some dfd, f2)
      → copy_file sys fuel writes src dst f ≡ after_loop (copy_loop sys fuel writes sfd dfd f2)
  unfolding copy_file after_loop after_source after_target
  opened fuel writes src dst f f1 f2 source target =
      ap (after_source fuel writes dst) source ∙ ap (after_target fuel writes f1) target

  closes :
      (f3 f4 f5 : F)
      → sys.close dfd f3 ≡ (true, f4)
      → sys.close sfd f4 ≡ (true, f5)
      → after_loop (some (true, f3)) ≡ some (true, f5)
  unfolding after_loop
  closes f3 f4 f5 e e' =
      ap (λ r. some (r.0, (sys.close sfd r.1).1)) e ∙ ap (λ r. some (true, r.1)) e'

  -- On a system whose calls do not fail, though a write may take less than it was given or be
  -- interrupted as often as `patience` says, the copy of an image succeeds and holds what the source
  -- held. One round more than the source has bytes is fuel enough for the outer loop; a buffer, the
  -- interruptions and one round more for the inner one.
  pub copy_file-content :
      (fuel writes : ℕ) (src dst : List ℕ) (f f1 f2 : F)
      → sys.open_source src f ≡ (some sfd, f1)
      → sys.create dst f1 ≡ (some dfd, f2)
      → content f2 ≡ []
      → length (left f2) < fuel
      → chunk_size + patience f2 < writes
      → (f' : F) × (copy_file sys fuel writes src dst f ≡ some (true, f')) × content f' ≡ left f2
  unfolding copy_file Copied
  copy_file-content fuel writes src dst f f1 f2 source target fresh h k =
      let (f3, done, whole) =
        copy_loop-Copied sys sfd dfd left content patience v fuel writes f2 h k in
      let (f4, closed, same) = v.close_gives dfd f3 in
      let (f5, closed2, same2) = v.close_gives sfd f4 in
      (
        f5,
        opened fuel writes src dst f f1 f2 source target
            ∙ ap after_loop done
            ∙ closes f3 f4 f5 closed closed2,
        same2 ∙ same ∙ whole ∙ ap (λ r. r ++ left f2) fresh,
      )
