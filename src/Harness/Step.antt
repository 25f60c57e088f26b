-- ===== src/Harness/Step.antt =====
-- packages/emu86/harness/harness.c: a step of the lockstep.
--
-- The reference emulator runs between `harness_step_begin` and `harness_step_end`; the state that it
-- leaves is an argument. The variables that the control plane can reach are cells of its memory, at
-- the addresses that the table names. What is only printed, and the heartbeat log, is left out.
use huxley.Base.{
  ℕ, zero, suc, ◌+◌, ◌%◌, ltb, leb, ◌==◌, bit_xor, is_set, if◌then◌else◌, u64, update,
}
use huxley.Base.{Bool, ◌&&◌, Option, none, some, List, [], ◌∷◌, ◌++◌}
use huxley.Base.Options.{◌>>=◌}
use huxley.State.{set_reg, reg_ax}
use huxley.Platform.{Emu86RingBuf, ringbuf_read}
use huxley.Decode.{Emu86Tables}
use huxley.Run.Loop.{Machine, machine, Emu86YieldInfo, emu86_run}
use huxley.Harness.Text.{codes, take}
use huxley.Harness.Control.{Control, ControlVar, vt_bool, vt_u64, harness_control_handle}
use huxley.Harness.Reference.{Reference}
use huxley.Harness.Compare.{compare_states_full, compare_step, copy_reference}
use huxley.Harness.Keyboard.{KbdQueue, kbd_queue_size, drain_kbd_fifo, replicate_kbd_byte}
use huxley.Harness.Snapshots.{Snapshots, take_snapshots}

-- The addresses of the variables.
abbrev pub at_fast_compare : ℕ
at_fast_compare = 0

abbrev pub at_heartbeat_every : ℕ
at_heartbeat_every = 1

abbrev pub at_step_limit : ℕ
at_step_limit = 2

abbrev pub at_step_count : ℕ
at_step_count = 3

abbrev pub at_compare_cheap : ℕ
at_compare_cheap = 4

abbrev pub at_compare_full : ℕ
at_compare_full = 5

abbrev pub at_split_output : ℕ
at_split_output = 6

abbrev pub at_kbd_enabled : ℕ
at_kbd_enabled = 7

abbrev variable : List ℕ → ℕ → ℕ → ℕ → ControlVar
variable name type read_only ptr = record {
  name = name;
  type = type;
  read_only = read_only;
  ptr = ptr;
}

unfoldable pub control_vars : List ControlVar
control_vars =
    variable (codes "fast_compare") vt_bool 0 at_fast_compare
    ∷ variable (codes "heartbeat_every") vt_u64 0 at_heartbeat_every
    ∷ variable (codes "step_limit") vt_u64 0 at_step_limit
    ∷ variable (codes "step_count") vt_u64 1 at_step_count
    ∷ variable (codes "compare_cheap") vt_u64 1 at_compare_cheap
    ∷ variable (codes "compare_full") vt_u64 1 at_compare_full
    ∷ variable (codes "split_output") vt_bool 1 at_split_output
    ∷ variable (codes "kbd_enabled") vt_bool 1 at_kbd_enabled
    ∷ []

-- The switches that do not change during a run.
pub record Settings : Type 0 where
  pub inject_divergence : ℕ
  pub inject_at : ℕ
  pub selftest_mode : ℕ
  pub control_enabled : ℕ

-- The globals of the harness. `hux_fifo` is what was written to the pipe for the output; `replies`
-- are the datagrams sent.
pub record Harness (H : Type 0) : Type 0 where
  pub ours : Machine H
  pub control : Control
  pub keyboard : KbdQueue
  pub snapshots : Snapshots
  pub hux_fifo : List ℕ
  pub replies : List (List ℕ)

abbrev pub var_at : {H : Type 0} → Harness H → ℕ → ℕ
var_at h address = h.control.memory address

abbrev pub set_var : ℕ → ℕ → Control → Control
set_var address n c = record c { memory = update c.memory address n }

-- A step lets the reference go on, or ends the process with an exit code.
pub data Ended (H : Type 0) : Type 0 where
  goes_on : Harness H → Ended H
  exits : ℕ → Harness H → Ended H

-- The `while` loop that reads the console buffer empty, and what was read.
unfoldable pub drain_console : ℕ → Emu86RingBuf → Option (List ℕ × Emu86RingBuf)
drain_console zero rb = none
drain_console (suc fuel) rb = elim (ringbuf_read rb) [
  | none ↦ some ([], rb)
  | some (ch, rb') ↦ elim (drain_console fuel rb') [
    | none ↦ none
    | some (rest, rb'') ↦ some (ch ∷ rest, rb'')
  ]
]

-- A datagram as the string that it is taken for: at most 511 bytes, up to a NUL.
unfoldable pub until_nul : List ℕ → List ℕ
until_nul [] = []
until_nul (c ∷ s) = let rest = until_nul s in if c == 0 then [] else c ∷ rest

-- The waiting datagrams are handled in turn; an empty reply is not sent.
unfoldable pub harness_control_tick : List (List ℕ) → Control → Control × List (List ℕ)
unfolding until_nul take
harness_control_tick [] c = (c, [])
harness_control_tick (datagram ∷ rest) c =
    let (c1, response) = harness_control_handle c (until_nul (take 511 datagram)) 4096 in
    let (c2, replies) = harness_control_tick rest c1 in
    elim response [
      | none ↦ (c2, replies)
      | some [] ↦ (c2, replies)
      | some (ch ∷ s) ↦ (c2, (ch ∷ s) ∷ replies)
    ]

module _ {H : Type 0} where
  -- The bytes that wait in the keyboard's pipe, before the reference runs.
  unfoldable pub harness_step_begin : List ℕ → Harness H → Option (Harness H × List ℕ)
  harness_step_begin fifo h =
      if is_set (var_at h at_kbd_enabled)
      then elim (drain_kbd_fifo (kbd_queue_size + 1) fifo h.keyboard) [
        | none ↦ none
        | some (q, left) ↦ some (record h { keyboard = q }, left)
      ]
      else some (h, fifo)

  -- The key that the reference took, one instruction, and the console read empty.
  unfoldable pub step_ours : Emu86Tables → Emu86YieldInfo → Harness H → Option (Harness H)
  step_ours t info h =
      let p = h.ours.platform in
      let (q, console_in) = replicate_kbd_byte h.keyboard p.console_in in
      let m : Machine H = machine h.ours.state (record p { console_in = console_in }) in
      do
        (info', m1) ← emu86_run 2 t 1 info m
        (chars, rb) ← drain_console (m1.platform.console_out.size + 1) m1.platform.console_out
        some (record h {
          ours = machine m1.state (record m1.platform { console_out = rb });
          keyboard = q;
          hux_fifo = if is_set (var_at h at_split_output) then h.hux_fifo ++ chars else h.hux_fifo;
        })

  unfoldable pub count_step : Harness H → Harness H
  count_step h = record h {
    control = set_var at_step_count (u64 (var_at h at_step_count + 1)) h.control;
  }

  -- The test hook that makes the states differ at a chosen step.
  unfoldable pub inject_divergence : Settings → Harness H → Harness H
  inject_divergence z h =
      let s = h.ours.state in
      if is_set z.inject_divergence && (var_at h at_step_count == z.inject_at)
      then record h {
        ours = machine (set_reg s reg_ax (bit_xor (s.regs reg_ax) 0xBEEF)) h.ours.platform;
      }
      else h

  abbrev pub keep_snapshots : Reference → Harness H → Harness H
  keep_snapshots ref h = record h { snapshots = take_snapshots h.ours.state ref h.snapshots }

  abbrev pub limit_reached : Harness H → Bool
  limit_reached h =
      ltb 0 (var_at h at_step_limit) && leb (var_at h at_step_limit) (var_at h at_step_count)

  -- The arm for the self-test.
  unfoldable pub selftest_step : Reference → Harness H → Ended H
  unfolding count_step
  selftest_step ref h =
      let copied : Harness H = record h {
        ours = machine (copy_reference h.ours.state ref) h.ours.platform;
      } in
      let clean = count_step (keep_snapshots ref copied) in
      if is_set (compare_states_full copied.ours.state ref).flags
      then exits 3 copied
      else if limit_reached clean
      then exits 0 clean
      else goes_on clean

  -- The comparison, with its two counters.
  unfoldable pub compared : Reference → Harness H → ℕ × Harness H
  compared ref h =
      let result =
        compare_step (var_at h at_fast_compare) h.ours.state ref (var_at h at_compare_cheap)
          (var_at h at_compare_full) in
      (
        result.dflags,
        record h {
          control =
              set_var at_compare_full result.compare_full_count
                (set_var at_compare_cheap result.compare_cheap_count h.control);
        },
      )

  -- The control socket is served at every thousandth step.
  unfoldable pub serve_control : Settings → List (List ℕ) → Harness H → Harness H
  unfolding harness_control_tick
  serve_control z datagrams h =
      let (c, replies) = harness_control_tick datagrams h.control in
      if is_set z.control_enabled && (var_at h at_step_count % 1000 == 0)
      then record h { control = c; replies = h.replies ++ replies }
      else h

  -- What follows the step: the comparison, the snapshots, the control plane and the limit.
  unfoldable pub finish_step : Settings → List (List ℕ) → Reference → Harness H → Ended H
  unfolding compared serve_control
  finish_step z datagrams ref h =
      let (dflags, h1) = compared ref h in
      let h2 = serve_control z datagrams (keep_snapshots ref h1) in
      if is_set dflags then exits 2 h1 else if limit_reached h2 then exits 0 h2 else goes_on h2

  unfoldable pub harness_step_end :
      Settings
      → Emu86Tables
      → Emu86YieldInfo
      → List (List ℕ)
      → Reference
      → Harness H
      → Option (Ended H)
  unfolding selftest_step step_ours inject_divergence count_step finish_step
  harness_step_end z t info datagrams ref h =
      let stepped = step_ours t info h in
      if is_set z.selftest_mode then some (selftest_step ref h) else elim stepped [
        | none ↦ none
        | some h1 ↦ some (finish_step z datagrams ref (inject_divergence z (count_step h1)))
      ]
