-- ===== src/Harness/Scratch.antt =====
-- packages/emu86/harness/harness.c: the scratch copies of the disk images.
--
-- The system's calls and `basename` are parameters. An error result (-1) is `false` or `none`; out
-- of fuel, a function gives `none` around its result.
pub mod Rounds
pub mod Copies
pub mod Made
mod Tests
use huxley.Base.{ℕ, zero, suc, ◌*◌, leb, if◌then◌else◌, ◌==◌, ◌||◌, not}
use huxley.Base.{Bool, true, false, Option, none, some, List, [], ◌∷◌, ◌++◌, length}
use huxley.Base.Options.{◌>>=◌}
use huxley.Harness.Text.{codes}
use huxley.Snapshot.Format.{drop}

-- What a `write` does: it takes some bytes off the front, is interrupted (EINTR), or fails.
pub data Written : Type 0 where
  wrote : ℕ → Written
  interrupted failed : Written

-- `open` for reading, `open` with O_CREAT and O_TRUNC (`none`: negative), `read` (`none`: an error),
-- `write`, and `close`, with whether it succeeds.
pub record Copying (F : Type 0) : Type 0 where
  pub open_source : List ℕ → F → Option ℕ × F
  pub create : List ℕ → F → Option ℕ × F
  pub read : ℕ → ℕ → F → Option (List ℕ) × F
  pub write : ℕ → List ℕ → F → Written × F
  pub close : ℕ → F → Bool × F

abbrev pub chunk_size : ℕ
chunk_size = 64 * 1024

abbrev pub path_max : ℕ
path_max = 4096

abbrev pub scratch_dir : List ℕ
scratch_dir = codes "/tmp/emu86-harness"

module _ {F : Type 0} (sys : Copying F) where
  -- The inner loop, with what is left of the buffer: whether all was written.
  unfoldable pub write_all : ℕ → ℕ → List ℕ → F → Option (Bool × F)
  write_all zero dfd rest files = none
  write_all (suc fuel) dfd [] files = some (true, files)
  write_all (suc fuel) dfd (b ∷ rest) files =
      let (w, files') = sys.write dfd (b ∷ rest) files in
      elim w [
        | wrote n ↦ write_all fuel dfd (drop n (b ∷ rest)) files'
        | interrupted ↦ write_all fuel dfd (b ∷ rest) files'
        | failed ↦ some (false, files')
      ]

  -- The outer loop; `fuel` bounds its rounds, `writes` the rounds of the inner one.
  unfoldable pub copy_loop : ℕ → ℕ → ℕ → ℕ → F → Option (Bool × F)
  unfolding write_all
  copy_loop zero writes sfd dfd files = none
  copy_loop (suc fuel) writes sfd dfd files =
      let (bytes, files1) = sys.read sfd chunk_size files in
      elim bytes [
        | none ↦ some (false, files1)
        | some [] ↦ some (true, files1)
        | some (b ∷ rest) ↦ elim (write_all writes dfd (b ∷ rest) files1) [
          | none ↦ none
          | some (false, files2) ↦ some (false, files2)
          | some (true, files2) ↦ copy_loop fuel writes sfd dfd files2
        ]
      ]

  -- The end of `copy_file`: both files are closed, and the close of the copy must succeed.
  abbrev pub close_both : ℕ → ℕ → Bool × F → Bool × F
  close_both sfd dfd (false, files) = (false, (sys.close dfd (sys.close sfd files).1).1)
  close_both sfd dfd (true, files) =
      let (closed, files1) = sys.close dfd files in (closed, (sys.close sfd files1).1)

  unfoldable pub copy_file : ℕ → ℕ → List ℕ → List ℕ → F → Option (Bool × F)
  unfolding copy_loop
  copy_file fuel writes src dst files =
      let (source, files1) = sys.open_source src files in
      let (target, files2) = sys.create dst files1 in
      elim source [
        | none ↦ some (false, files1)
        | some sfd ↦ elim target [
          | none ↦ some (false, (sys.close sfd files2).1)
          | some dfd ↦ elim (copy_loop fuel writes sfd dfd files2) [
            | none ↦ none
            | some r ↦ some (close_both sfd dfd r)
          ]
        ]
      ]

-- The path of a copy of `src` in the scratch directory, if it fits.
unfoldable pub build_scratch_path : (List ℕ → List ℕ) → ℕ → List ℕ → List ℕ → Option (List ℕ)
build_scratch_path basename outsz src suffix =
    let path = scratch_dir ++ codes "/" ++ basename src ++ suffix in
    if leb path_max (length src) || leb outsz (length path) then none else some path
