-- ===== src/Run/Dispatch/Words.antt =====
-- `execute_instruction` keeps the ranges of the fields.
use huxley.Base.{◌==◌, Bool-cases, inl, inr}
use huxley.State.{Emu86State}
use huxley.State.Words.{IsWords}
use huxley.State.Updates.{if-IsWords}
use huxley.Context.{DecodeContext}
use huxley.Platform.{Emu86Platform}
use huxley.Decode.{Emu86Tables}
use huxley.Opcodes.Arithmetic.Words.{arithmetic_words}
use huxley.Opcodes.Adjust.Words.{adjust_words}
use huxley.Opcodes.Logic.Words.{logic_words}
use huxley.Opcodes.Transfer.Words.{transfer_words}
use huxley.Opcodes.Strings.Words.{exec_string_op-IsWords}
use huxley.Opcodes.FlagsIo.Words.{flags_io_words}
use huxley.Opcodes.FlagsIo.Bios.{
  exec_bios_putchar-IsWords, exec_bios_get_rtc-IsWords, if-IsWords_fst,
}
use huxley.Opcodes.FlagsIo.Bios.{exec_bios_disk_read-IsWords, exec_bios_disk_write-IsWords}
use huxley.Opcodes.Control.Words.{control_words, if-IsWords_state}
use huxley.Run.Cases.Words.{case_words}
use huxley.Run.Dispatch.{case_alu, case_moffs, case_far_pointer, execute_low, execute_middle}
use huxley.Run.Dispatch.{execute_upper, execute_high, execute_core, case_bios, execute_instruction}

module _ {s : Emu86State} (d : DecodeContext) (v : IsWords s) where
  case_alu-IsWords : IsWords (case_alu s d)
  unfolding case_alu
  case_alu-IsWords = search (if-IsWords, arithmetic_words, logic_words, transfer_words) depth 16

  case_moffs-IsWords : IsWords (case_moffs s d)
  unfolding case_moffs
  case_moffs-IsWords = search (if-IsWords, transfer_words)

  case_far_pointer-IsWords : IsWords (case_far_pointer s d).state
  unfolding case_far_pointer
  case_far_pointer-IsWords = search (if-IsWords, transfer_words)

ruleset upper = (
  if-IsWords, if-IsWords_state, transfer_words, adjust_words, flags_io_words, control_words,
  case_words, case_far_pointer-IsWords, exec_string_op-IsWords,
)

module _ {s : Emu86State} (d : DecodeContext) (v : IsWords s) where
  execute_low-IsWords : (t : Emu86Tables) → IsWords (execute_low s t d).state
  unfolding execute_low
  execute_low-IsWords t =
      search
        (
          if-IsWords_state, transfer_words, control_words, case_words, case_alu-IsWords,
          case_moffs-IsWords,
        )
        depth 20

  execute_middle-IsWords : IsWords (execute_middle s d).state
  unfolding execute_middle
  execute_middle-IsWords = search (upper, logic_words) depth 20

  execute_upper-IsWords : IsWords (execute_upper s d).state
  unfolding execute_upper
  execute_upper-IsWords = search (upper) depth 20

  execute_high-IsWords : IsWords (execute_high s d).state
  unfolding execute_high
  execute_high-IsWords = search (upper) depth 20

  execute_core-IsWords : (t : Emu86Tables) → IsWords (execute_core s t d).state
  unfolding execute_core
  execute_core-IsWords t = if-IsWords_state _ _ _ (execute_low-IsWords t) (
      if-IsWords_state _ _ _ execute_middle-IsWords
        (if-IsWords_state _ _ _ execute_upper-IsWords execute_high-IsWords))

module _ {H : Type 0} {s : Emu86State} (p : Emu86Platform H) (d : DecodeContext)
    (v : IsWords s) where
  case_bios-IsWords : IsWords (case_bios s p d).0
  unfolding case_bios
  case_bios-IsWords =
      search
        (
          if-IsWords_fst, exec_bios_putchar-IsWords, exec_bios_get_rtc-IsWords,
          exec_bios_disk_read-IsWords, exec_bios_disk_write-IsWords,
        )
        depth 8

  pub execute_instruction-IsWords :
      (t : Emu86Tables) → IsWords (execute_instruction s p t d).0.state
  unfolding execute_instruction
  execute_instruction-IsWords t = elim (Bool-cases (d.xlat_id == 48)) [
    | inl e ↦ rw e case_bios-IsWords
    | inr e ↦ rw e (execute_core-IsWords d v t)
  ]
