-- ===== src/Host/Saved.antt =====
-- packages/emu86/src/hosts/linux/main.c: a snapshot file is loaded as it was saved.
use huxley.Base.{ℕ, ◌≡◌, refl, arith, u32, some, List, length}
use huxley.Base.Options.{◌>>=◌}
use huxley.State.{Emu86State}
use huxley.State.Words.{IsWords}
use huxley.Harness.Text.{take}
use huxley.Harness.Printed.{take_fits}
use huxley.Snapshot.Format.{emu86_snapshot_size}
use huxley.Snapshot.RoundTrip.{SameState}
use huxley.Snapshot.Restore.{restore-save}
use huxley.Host.Start.{Files, save_snapshot, load_snapshot}

-- On files where a file holds what was written to it last, a snapshot of a well-formed state that is
-- saved at the end of a session and loaded by another, over any state, is that state again.
pub load_snapshot-save_snapshot :
    {F : Type 0} (sys : Files F)
    → ((path bytes : List ℕ) (files : F)
        → sys.read_file path (sys.write_file path bytes files) ≡ some bytes)
    → (path : List ℕ) (s0 s : Emu86State) (files : F) → IsWords s
    → (s' : Emu86State) × (load_snapshot sys path s0 (save_snapshot sys path s files) ≡ some s')
      × SameState s' s
unfolding load_snapshot save_snapshot
load_snapshot-save_snapshot sys written path s0 s files v =
    let (bytes, s', saved, size, loaded, same) =
      restore-save s0 s emu86_snapshot_size v (omega arith) in
    let whole : take (u32 (length bytes)) bytes ≡ bytes =
      take_fits (u32 (length bytes)) bytes (omega arith) in
    (s', rw (save_snapshot, saved, written path bytes files, ◌>>=◌, whole, loaded) refl, same)
