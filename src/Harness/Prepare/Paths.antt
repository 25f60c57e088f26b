-- ===== src/Harness/Prepare/Paths.antt =====
-- packages/emu86/harness/harness.c: the paths that `main` prepares.
use huxley.Base.{ℕ, ◌<◌, ◌≡◌, if◌then◌else◌}
use huxley.Base.{Option, none, some, List, [], ◌∷◌, ◌++◌, length}
use huxley.Harness.Text.{codes}
use huxley.Harness.Scratch.{Copying, path_max, scratch_dir}
use huxley.Harness.Scratch.Made.{Made}
use huxley.Harness.Prepare.{Copies, Prepared, Outcome, ready, hd_source}

-- The copy of `src` in the scratch directory.
unfoldable pub copy_path : (List ℕ → List ℕ) → List ℕ → List ℕ → List ℕ
copy_path basename src suffix = scratch_dir ++ codes "/" ++ basename src ++ suffix

-- What is ready is as `P` says.
record Goes {A F : Type 0} (P : A → Type 0) (o : Outcome A F) : Type 0 where
  at : (a : A) (f : F) → o ≡ ready a f → P a

module _ {F : Type 0} (sys : Copying F) (basename : List ℕ → List ℕ) (fuel writes : ℕ) where
  -- Two copies of an image: named for it, different, short enough, and each made in a run
  -- of the copy loop over the open source and the created copy that came to the end of the source
  -- without an error, and closed without one.
  pub record Apart (src : List ℕ) (c : Copies) : Type 0 where
    pub ref_named : c.ref ≡ copy_path basename src (codes ".ref.scratch")
    pub hux_named : c.hux ≡ copy_path basename src (codes ".hux.scratch")
    pub different : ¬ (c.ref ≡ c.hux)
    pub ref_short : length c.ref < path_max
    pub hux_short : length c.hux < path_max
    pub copied :
        (f0 : F) × (f1 : F) × Made sys fuel writes src c.ref f0 × Made sys fuel writes src c.hux f1

  -- What is handed on without a hard disk, and with one whose argument is `hd_arg`.
  unfoldable pub Named : List ℕ → List ℕ → List ℕ → Option (List ℕ) → Prepared → Type 0
  unfolding hd_source
  Named program bios floppy none p =
      (c : Copies) × Apart floppy c
      × (p ≡ record {
        hux_floppy_path = c.hux;
        hux_hd_path = [];
        ref_argv = program ∷ bios ∷ c.ref ∷ [];
      })
  Named program bios floppy (some hd_arg) p =
      (c : Copies) × (d : Copies) × Apart floppy c
      × Apart (hd_source hd_arg).1 d
      × (p ≡ record {
        hux_floppy_path = c.hux;
        hux_hd_path = d.hux;
        ref_argv =
            program
            ∷ bios
            ∷ c.ref
            ∷ ((if (hd_source hd_arg).0 then codes "@" else []) ++ d.ref)
            ∷ [];
      })

  -- The same for the arguments of `main`, three or four.
  unfoldable pub Accepted : List (List ℕ) → Prepared → Type 0
  unfolding Named
  Accepted (program ∷ bios ∷ floppy ∷ []) p = Named program bios floppy none p
  Accepted (program ∷ bios ∷ floppy ∷ hd ∷ []) p = Named program bios floppy (some hd) p
  Accepted (program ∷ bios ∷ floppy ∷ hd ∷ more ∷ rest) p = ⊥
  Accepted (program ∷ bios ∷ []) p = ⊥
  Accepted (program ∷ []) p = ⊥
  Accepted [] p = ⊥
