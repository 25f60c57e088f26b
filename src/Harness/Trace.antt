-- ===== src/Harness/Trace.antt =====
-- packages/emu86/harness/harness.c: the two hooks around the steps of the reference emulator.
--
-- The reference emulator is vendored: what a step of it does is given, step by step. The loop ends
-- with the process, or with the list.
use huxley.Base.{ℕ, Bool, true, false, Option, none, some, List, [], ◌∷◌, ◌++◌}
use huxley.Base.Options.{◌>>=◌}
use huxley.Decode.{Emu86Tables}
use huxley.Run.Loop.{Emu86YieldInfo}
use huxley.Harness.Keyboard.{KbdQueue, harness_consume_kbd_byte}
use huxley.Harness.Reference.{Reference}
use huxley.Harness.Step.{
  Settings, Harness, Ended, goes_on, exits, harness_step_begin, harness_step_end,
}

-- The bytes that arrive in the keyboard's pipe, whether the reference polls the keyboard, the state
-- that it reaches, and the datagrams that wait at the control socket.
pub record RefStep : Type 0 where
  pub typed : List ℕ
  pub polls : Bool
  pub reached : Reference
  pub datagrams : List (List ℕ)

-- `harness_read` of standard input, at the reference's poll.
unfoldable pub poll_kbd : Bool → KbdQueue → KbdQueue
poll_kbd false q = q
poll_kbd true q = elim (harness_consume_kbd_byte q) [ none ↦ q | some (byte, q') ↦ q' ]

module _ {H : Type 0} where
  abbrev pub polled : RefStep → Harness H → Harness H
  polled r h = record h { keyboard = poll_kbd r.polls h.keyboard }

  -- One step: what is left in the pipe, and how it ended.
  unfoldable pub lockstep_step :
      Settings
      → Emu86Tables
      → Emu86YieldInfo
      → RefStep
      → List ℕ
      → Harness H
      → Option (List ℕ × Ended H)
  unfolding poll_kbd
  lockstep_step z t info r pipe h = do
    (h1, left) ← harness_step_begin (pipe ++ r.typed) h
    e ← harness_step_end z t info r.datagrams r.reached (polled r h1)
    some (left, e)

  unfoldable pub lockstep :
      Settings → Emu86Tables → Emu86YieldInfo → List RefStep → List ℕ → Harness H → Option (Ended H)
  unfolding lockstep_step
  lockstep z t info [] pipe h = some (goes_on h)
  lockstep z t info (r ∷ rs) pipe h = elim (lockstep_step z t info r pipe h) [
    | none ↦ none
    | some (left, goes_on h') ↦ lockstep z t info rs left h'
    | some (left, exits code h') ↦ some (exits code h')
  ]
