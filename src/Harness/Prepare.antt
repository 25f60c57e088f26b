-- ===== src/Harness/Prepare.antt =====
-- packages/emu86/harness/harness.c: `main` up to the reference's own, but for the heartbeat log and
-- the settings from the environment.
--
-- `mkdir` says whether the scratch directory is there afterwards; `return 1` is `refused`.
pub mod Paths
mod Tests
use huxley.Base.{
  ℕ, ◌+◌, leb, ◌==◌, if◌then◌else◌, Bool, true, false, Option, none, some, List, [], ◌∷◌, ◌++◌,
  length,
}
use huxley.Harness.Text.{codes}
use huxley.Harness.Scratch.{Copying, path_max, scratch_dir, copy_file, build_scratch_path}

-- Both copies of a drive: the reference's and the emulator's.
pub record Copies : Type 0 where
  pub ref : List ℕ
  pub hux : List ℕ

-- What main hands on: the emulator's images and the arguments of `reference_main`.
pub record Prepared : Type 0 where
  pub hux_floppy_path : List ℕ
  pub hux_hd_path : List ℕ
  pub ref_argv : List (List ℕ)

-- Out of fuel, a return of 1, or on to the reference.
pub data Outcome (A F : Type 0) : Type 0 where
  spent : Outcome A F
  refused : F → Outcome A F
  ready : A → F → Outcome A F

-- `argv[3]`: whether it starts with '@', and the path behind that.
unfoldable pub hd_source : List ℕ → Bool × List ℕ
hd_source [] = (false, [])
hd_source (c ∷ path) = if c == b'@' then (true, path) else (false, c ∷ path)

-- A copy that failed ends the preparation.
unfoldable pub after_copy :
    {F : Type 0} → Option (Bool × F) → (F → Outcome Copies F) → Outcome Copies F
after_copy none next = spent
after_copy (some (false, files)) next = refused files
after_copy (some (true, files)) next = next files

module _ {F : Type 0} (sys : Copying F) (basename : List ℕ → List ℕ) (fuel writes : ℕ) where
  unfoldable pub copy_one : List ℕ → List ℕ → F → (F → Outcome Copies F) → Outcome Copies F
  unfolding after_copy
  copy_one src dst files next = after_copy (copy_file sys fuel writes src dst files) next

  -- The two copies of an image, both of whose paths are made first.
  unfoldable pub copy_drive : List ℕ → F → Outcome Copies F
  unfolding copy_one
  copy_drive src files = elim (build_scratch_path basename path_max src (codes ".ref.scratch")) [
    | none ↦ refused files
    | some ref ↦ elim (build_scratch_path basename path_max src (codes ".hux.scratch")) [
      | none ↦ refused files
      | some hux ↦ copy_one src ref files (λ files1. copy_one src hux files1 (λ files2.
          if leb path_max (length hux)
          then refused files2
          else ready (record { ref = ref; hux = hux }) files2))
    ]
  ]

  -- The hard disk's argument keeps its '@' for the reference.
  unfoldable pub after_hd : List ℕ → List ℕ → Copies → Bool → Outcome Copies F → Outcome Prepared F
  after_hd program bios floppy hd_boot spent = spent
  after_hd program bios floppy hd_boot (refused files) = refused files
  after_hd program bios floppy hd_boot (ready hd files) =
      let hd_ref_arg = (if hd_boot then codes "@" else []) ++ hd.ref in
      if leb (path_max + 1) (length hd_ref_arg)
      then refused files
      else ready
          (record {
            hux_floppy_path = floppy.hux;
            hux_hd_path = hd.hux;
            ref_argv = program ∷ bios ∷ floppy.ref ∷ hd_ref_arg ∷ [];
          })
          files

  unfoldable pub after_floppy :
      List ℕ → List ℕ → Option (List ℕ) → Outcome Copies F → Outcome Prepared F
  unfolding after_hd copy_drive hd_source
  after_floppy program bios hd_arg spent = spent
  after_floppy program bios hd_arg (refused files) = refused files
  after_floppy program bios none (ready floppy files) =
      ready
        (record {
          hux_floppy_path = floppy.hux;
          hux_hd_path = [];
          ref_argv = program ∷ bios ∷ floppy.ref ∷ [];
        })
        files
  after_floppy program bios (some hd_arg) (ready floppy files) =
      let (hd_boot, hd_src) = hd_source hd_arg in
      after_hd program bios floppy hd_boot (copy_drive hd_src files)

  unfoldable pub prepare :
      (List ℕ → F → Bool × F) → List ℕ → List ℕ → List ℕ → Option (List ℕ) → F → Outcome Prepared F
  unfolding after_floppy copy_drive
  prepare mkdir program bios floppy_src hd_arg files =
      let (there, files1) = mkdir scratch_dir files in
      if there
      then after_floppy program bios hd_arg (copy_drive floppy_src files1)
      else refused files1

  -- `main` on its arguments, of which there are three or four.
  unfoldable pub main_start : (List ℕ → F → Bool × F) → List (List ℕ) → F → Outcome Prepared F
  unfolding prepare
  main_start mkdir (program ∷ bios ∷ floppy ∷ []) files =
      prepare mkdir program bios floppy none files
  main_start mkdir (program ∷ bios ∷ floppy ∷ hd ∷ []) files =
      prepare mkdir program bios floppy (some hd) files
  main_start mkdir (program ∷ bios ∷ floppy ∷ hd ∷ more ∷ rest) files = refused files
  main_start mkdir (program ∷ bios ∷ []) files = refused files
  main_start mkdir (program ∷ []) files = refused files
  main_start mkdir [] files = refused files
