-- ===== src/Harness/Init/Clone.antt =====
-- packages/emu86/harness/harness.c: the lockstep starts in step.
use huxley.Base.{ℕ, ◌<◌, ◌≡◌}
use huxley.Base.{[]}
use huxley.Platform.Fifo.{contents}
use huxley.Decode.{Emu86Tables}
use huxley.Run.Loop.{Machine}
use huxley.Run.Loop.Console.{Wired}
use huxley.Harness.Reference.{Reference}
use huxley.Harness.Scan.{SameCells}
use huxley.Harness.Agree.{Agree}
use huxley.Harness.Init.{table_count}

-- The state agrees with the reference's, the decode tables are the reference's, and both consoles
-- are connected, empty rings.
pub record InitialAgree {H : Type 0} (ref : Reference) (lookup : ℕ → ℕ → ℕ)
    (r : Emu86Tables × Machine H) : Type 0 where
  pub agree : Agree r.1.state ref
  pub tables : (i : ℕ) → i < table_count → SameCells (r.0 i) (lookup i) 0 256
  pub wired : Wired 12 r.1.platform
  pub drained : contents r.1.platform.console_out ≡ []
