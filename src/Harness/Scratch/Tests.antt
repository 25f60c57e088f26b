-- ===== src/Harness/Scratch/Tests.antt =====
-- A scratch copy on a concrete system.
use huxley.Base.{ℕ, ◌≤◌, ◌<◌, ◌≡◌, ◌⊎◌, inl, inr, refl, sym, arith}
use huxley.Base.{true, some, List, [], ◌∷◌, ◌++◌, length}
use huxley.Harness.Text.{codes}
use huxley.Snapshot.Format.{take, drop}
use huxley.Harness.Scratch.{Copying, Written, wrote, interrupted, chunk_size, copy_file}
use huxley.Harness.Scratch.Rounds.{Behaves, take-drop}
use huxley.Harness.Scratch.Copies.{copy_file-content}

-- The interruptions still to come, what the source has left, and what the copy holds.
abbrev Slow : Type 0
Slow = ℕ × (List ℕ × List ℕ)

-- A system that interrupts some writes and takes one byte by the others.
abbrev slow_write : List ℕ → Slow → Written × Slow
slow_write bytes (ℕ.zero, (l, c)) = (wrote 1, (0, (l, c ++ take 1 bytes)))
slow_write bytes (ℕ.suc p, (l, c)) = (interrupted, (p, (l, c)))

abbrev slow : Copying Slow
slow = record {
  open_source = λ path f. (some 3, f);
  create = λ path f. (some 4, (f.0, (f.1.0, [])));
  read = λ fd n f. (some (take n f.1.0), (f.0, (drop n f.1.0, f.1.1)));
  write = λ fd bytes f. slow_write bytes f;
  close = λ fd f. (true, f);
}

length-take : (n : ℕ) (s : List ℕ) → length (take n s) ≤ n
unfolding take
length-take ℕ.zero s = omega arith
length-take (ℕ.suc n) [] = omega arith
length-take (ℕ.suc n) (c ∷ s) = omega (arith, length-take n s)

take-nil : (n : ℕ) (s : List ℕ) → 0 < n → take n s ≡ [] → s ≡ []
unfolding take
take-nil ℕ.zero s h e = absurd (omega arith)
take-nil (ℕ.suc n) [] h e = refl
take-nil (ℕ.suc n) (c ∷ s) h e = absurd (cc e)

slow_write-progress :
    (b : ℕ) (rest : List ℕ) (p : ℕ) (l c : List ℕ)
    → ((n : ℕ) × (f' : Slow) × (slow_write (b ∷ rest) (p, (l, c)) ≡ (wrote n, f'))
        × (n ≤ length (b ∷ rest))
        × (f'.1.1 ≡ c ++ take n (b ∷ rest))
        × (f'.1.0 ≡ l)
        × (f'.0 ≤ p)
        × ((0 < n) ⊎ (f'.0 < p)))
      ⊎ ((f' : Slow) × (slow_write (b ∷ rest) (p, (l, c)) ≡ (interrupted, f'))
          × (f'.1.1 ≡ c)
          × (f'.1.0 ≡ l)
          × (f'.0 < p))
slow_write-progress b rest ℕ.zero l c = inl (
  1,
  (0, (l, c ++ take 1 (b ∷ rest))),
  refl,
  omega arith,
  refl,
  refl,
  omega arith,
  inl (omega arith),
)
slow_write-progress b rest (ℕ.suc p) l c = inr ((p, (l, c)), refl, refl, refl, omega arith)

slow-Behaves : Behaves slow 3 4 (λ f. f.1.0) (λ f. f.1.1) (λ f. f.0)
slow-Behaves = record {
  read_gives = λ f. (
    take chunk_size f.1.0,
    (f.0, (drop chunk_size f.1.0, f.1.1)),
    refl,
    sym (take-drop chunk_size f.1.0),
    take-nil chunk_size f.1.0 (omega arith),
    length-take chunk_size f.1.0,
    refl,
    omega arith,
  );
  write_gives = λ b rest f. slow_write-progress b rest f.0 f.1.0 f.1.1;
  close_gives = λ fd f. (f, refl, refl);
}

copy_file_example :
    (f' : Slow) × (copy_file slow 3 70000
        (codes "fd.img")
        (codes "fd.ref.scratch")
        (5, (codes "ab", []))
      ≡ some (true, f'))
    × f'.1.1 ≡ codes "ab"
copy_file_example =
    copy_file-content slow 3 4 (λ f. f.1.0) (λ f. f.1.1) (λ f. f.0) slow-Behaves 3 70000
      (codes "fd.img") (codes "fd.ref.scratch") (5, (codes "ab", [])) (5, (codes "ab", []))
      (5, (codes "ab", [])) refl refl refl (omega arith) (omega arith)
