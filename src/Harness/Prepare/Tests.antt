-- ===== src/Harness/Prepare/Tests.antt =====
-- The preparation on a concrete system.
use huxley.Base.{ℕ, true, some, List, [], ◌∷◌, length}
use huxley.Harness.Text.{codes}
use huxley.Snapshot.Format.{drop}
use huxley.Harness.Scratch.{Copying, wrote}
use huxley.Harness.Prepare.{Prepared}

-- What the open source has left; every source holds three bytes.
abbrev plain : Copying (List ℕ)
plain = record {
  open_source = λ path left. (some 3, codes "img");
  create = λ path left. (some 4, left);
  read = λ fd n left. (some left, []);
  write = λ fd bytes left. (wrote (length bytes), left);
  close = λ fd left. (true, left);
}

-- The directories of the two images dropped.
abbrev last_name : List ℕ → List ℕ
last_name path = drop 5 path

abbrev arguments : List (List ℕ)
arguments = codes "harness" ∷ codes "bios" ∷ codes "disk/fd.img" ∷ codes "@disk/hd.img" ∷ []

abbrev handed : Prepared
handed = record {
  hux_floppy_path = codes "/tmp/emu86-harness/fd.img.hux.scratch";
  hux_hd_path = codes "/tmp/emu86-harness/hd.img.hux.scratch";
  ref_argv =
      codes "harness"
      ∷ codes "bios"
      ∷ codes "/tmp/emu86-harness/fd.img.ref.scratch"
      ∷ codes "@/tmp/emu86-harness/hd.img.ref.scratch"
      ∷ [];
}
