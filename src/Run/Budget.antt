-- ===== src/Run/Budget.antt =====
-- The budget of `emu86_run`: every run ends, why it ends, and the budgets that it cannot spend.
use huxley.Base.{ℕ, zero, suc, ◌+◌, ◌*◌, ◌%◌, ◌^◌, ◌<◌, ◌≤◌, ◌≡◌, ◌≢◌, refl, arith}
use huxley.Base.{ltb, true, Bool-cases, inl, inr, is_set, Option, some, u32}
use huxley.Decode.{Emu86Tables}
use huxley.Run.Loop.{Emu86YieldInfo, Machine, yield_budget, yield_halted, yield_io_needed}
use huxley.Run.Loop.{
  yield_exit, at_exit, console_full, service_pending, run_step, run_loop, emu86_run,
}

-- The possible ends of a run with this budget.
pub data Outcome {H : Type 0} (budget : ℕ) (info : Emu86YieldInfo) (m : Machine H) : Type 0 where
  spent :
      info.reason ≡ yield_budget
      → budget ≤ info.cycles_used
      → info.cycles_used < budget + 4
      → Outcome budget info m
  exited :
      info.reason ≡ yield_exit
      → at_exit m.state ≡ true
      → info.cycles_used < budget
      → Outcome budget info m
  stopped :
      info.reason ≡ yield_halted
      → is_set m.state.halted ≡ true
      → info.cycles_used < budget
      → Outcome budget info m
  filled :
      info.reason ≡ yield_io_needed
      → console_full m.platform ≡ true
      → info.cycles_used < budget + 4
      → Outcome budget info m

unfoldable pub Ends : {H : Type 0} → ℕ → Option (Emu86YieldInfo × Machine H) → Type 0
Ends {H} budget o =
    (info : Emu86YieldInfo) × (m : Machine H) × (o ≡ some (info, m)) × Outcome budget info m

module _ {H : Type 0} where
  run_loop-Ends :
      (fuel : ℕ) (t : Emu86Tables) (budget cycles : ℕ) (info : Emu86YieldInfo) (m : Machine H)
      → budget ≤ 0xFFFF_FFFC
      → cycles < budget + 4
      → budget + 4 ≤ cycles + 4 * fuel
      → Ends budget (run_loop fuel t budget cycles info m)
  unfolding run_loop Ends
  run_loop-Ends zero t budget cycles info m h k l = absurd (omega arith)
  run_loop-Ends (suc fuel) t budget cycles info m h k l =
      let m2 = run_step (service_pending m.state) m.platform t in
      elim (Bool-cases (ltb cycles budget)) [
        | inr e ↦ rw e (_, _, refl, spent refl (ground arith) k)
        | inl e ↦ elim (Bool-cases (at_exit m.state)) [
          | inl x ↦ rw (e, x) (_, _, refl, exited refl x (ground arith))
          | inr x ↦ elim (Bool-cases (is_set (service_pending m.state).halted)) [
            | inl y ↦ rw (e, x, y) (_, _, refl, stopped refl y (ground arith))
            | inr y ↦ elim (Bool-cases (console_full m2.platform)) [
              | inl z ↦ rw (e, x, y, z) (_, _, refl, filled refl z (ground arith))
              | inr z ↦
                  rw (e, x, y, z)
                    (run_loop-Ends fuel t budget (u32 (cycles + 4)) info m2 h (ground arith)
                      (ground arith))
            ]
          ]
        ]
      ]

  -- With a budget of at most 2 ^ 32 - 4 and fuel for a quarter of it, `emu86_run` ends: the budget
  -- is spent with at most 3 cycles over, or the yield reason is exit, halt or a full console, each
  -- with the condition it stands for.
  pub emu86_run-Ends :
      (fuel : ℕ) (t : Emu86Tables) (budget : ℕ) (info : Emu86YieldInfo) (m : Machine H)
      → budget ≤ 0xFFFF_FFFC
      → budget + 4 ≤ 4 * fuel
      → Ends budget (emu86_run fuel t budget info m)
  unfolding emu86_run
  emu86_run-Ends fuel t budget info m h k =
      run_loop-Ends fuel t budget 0 info m h (omega arith) (omega arith)

  run_loop_unspent :
      (fuel : ℕ) (t : Emu86Tables) (budget cycles : ℕ) (info info' : Emu86YieldInfo)
      (m m' : Machine H)
      → 0xFFFF_FFFC < budget
      → cycles % 4 ≡ 0
      → cycles < 2 ^ 32
      → run_loop fuel t budget cycles info m ≡ some (info', m')
      → info'.reason ≢ yield_budget
  unfolding run_loop
  run_loop_unspent zero t budget cycles info info' m m' h c l e = absurd (ground arith)
  run_loop_unspent (suc fuel) t budget cycles info info' m m' h c l e = ground (
    arith,
    run_loop_unspent fuel t budget (u32 (cycles + 4)) info info'
        (run_step (service_pending m.state) m.platform t) m' h (omega arith) (omega arith),
  )

  -- With a budget above 2 ^ 32 - 4 no run ever yields for its budget: the cycle count wraps first.
  pub emu86_run_unspent :
      (fuel : ℕ) (t : Emu86Tables) (budget : ℕ) (info info' : Emu86YieldInfo) (m m' : Machine H)
      → 0xFFFF_FFFC < budget
      → emu86_run fuel t budget info m ≡ some (info', m')
      → info'.reason ≢ yield_budget
  unfolding emu86_run
  emu86_run_unspent fuel t budget info info' m m' h e =
      run_loop_unspent fuel t budget 0 info info' m m' h refl (omega arith) e
