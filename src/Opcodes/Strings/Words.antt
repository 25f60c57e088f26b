-- ===== src/Opcodes/Strings/Words.antt =====
-- The string instructions keep the ranges of the fields.
use huxley.Base.{ℕ, zero, suc, ◌==◌, ltb, bit_and}
use huxley.Opcodes.Strings.{string_step, rep_round, rep_loop, rep_stops, exec_string_op}
use huxley.State.{Emu86State, reg_cx}
use huxley.State.Words.{IsWords}
use huxley.State.Updates.{state_words, if-IsWords, set_reg-IsWords}
use huxley.Context.{DecodeContext}
use huxley.Access.Words.{access_words}
use huxley.Opcodes.Helpers.Words.{flag_words}
use huxley.Opcodes.Strings.{index_advance, exec_movsb, exec_movsw, exec_cmpsb, exec_cmpsw}
use huxley.Opcodes.Strings.{exec_stosb, exec_stosw, exec_lodsb, exec_lodsw, exec_scasb}
use huxley.Opcodes.Strings.{exec_scasw}

pub index_advance-IsWords :
    {s : Emu86State} (n1 : ℕ) (n2 : ℕ) → IsWords s → IsWords (index_advance s n1 n2)
unfolding index_advance
index_advance-IsWords n1 n2 v = search (state_words) depth 14

ruleset parts = (state_words, access_words, flag_words, index_advance-IsWords)

pub exec_movsb-IsWords : {s : Emu86State} → IsWords s → IsWords (exec_movsb s)
unfolding exec_movsb
exec_movsb-IsWords v = search (parts) depth 14

pub exec_movsw-IsWords : {s : Emu86State} → IsWords s → IsWords (exec_movsw s)
unfolding exec_movsw
exec_movsw-IsWords v = search (parts) depth 14

pub exec_cmpsb-IsWords : {s : Emu86State} → IsWords s → IsWords (exec_cmpsb s)
unfolding exec_cmpsb
exec_cmpsb-IsWords v = search (parts) depth 14

pub exec_cmpsw-IsWords : {s : Emu86State} → IsWords s → IsWords (exec_cmpsw s)
unfolding exec_cmpsw
exec_cmpsw-IsWords v = search (parts) depth 14

pub exec_stosb-IsWords : {s : Emu86State} → IsWords s → IsWords (exec_stosb s)
unfolding exec_stosb
exec_stosb-IsWords v = search (parts) depth 14

pub exec_stosw-IsWords : {s : Emu86State} → IsWords s → IsWords (exec_stosw s)
unfolding exec_stosw
exec_stosw-IsWords v = search (parts) depth 14

pub exec_lodsb-IsWords : {s : Emu86State} → IsWords s → IsWords (exec_lodsb s)
unfolding exec_lodsb
exec_lodsb-IsWords v = search (parts) depth 14

pub exec_lodsw-IsWords : {s : Emu86State} → IsWords s → IsWords (exec_lodsw s)
unfolding exec_lodsw
exec_lodsw-IsWords v = search (parts) depth 14

pub exec_scasb-IsWords : {s : Emu86State} → IsWords s → IsWords (exec_scasb s)
unfolding exec_scasb
exec_scasb-IsWords v = search (parts) depth 14

pub exec_scasw-IsWords : {s : Emu86State} → IsWords s → IsWords (exec_scasw s)
unfolding exec_scasw
exec_scasw-IsWords v = search (parts) depth 14

module _ (w op : ℕ) where
  string_step-IsWords : {s : Emu86State} → IsWords s → IsWords (string_step w op s)
  unfolding string_step
  string_step-IsWords v =
      search
        (
          if-IsWords, exec_movsb-IsWords, exec_movsw-IsWords, exec_cmpsb-IsWords,
          exec_cmpsw-IsWords, exec_stosb-IsWords, exec_stosw-IsWords, exec_lodsb-IsWords,
          exec_lodsw-IsWords, exec_scasb-IsWords, exec_scasw-IsWords,
        )
        depth 14

  rep_round-IsWords : {s : Emu86State} → IsWords s → IsWords (rep_round w op s)
  unfolding rep_round
  rep_round-IsWords v = set_reg-IsWords _ _ (string_step-IsWords v)

  rep_loop-IsWords :
      (fuel mode : ℕ) {s : Emu86State} → IsWords s → IsWords (rep_loop fuel w op mode s)
  unfolding rep_loop
  rep_loop-IsWords zero mode v = v
  rep_loop-IsWords (suc fuel) mode {s} v =
      let v1 = rep_round-IsWords v in
      if-IsWords (s.regs reg_cx == 0) v
        (if-IsWords (rep_stops op mode (rep_round w op s)) v1 (rep_loop-IsWords fuel mode v1))

pub exec_string_op-IsWords :
    {s : Emu86State} (d : DecodeContext) → IsWords s → IsWords (exec_string_op s d)
unfolding exec_string_op
exec_string_op-IsWords {s} d v =
    if-IsWords (ltb 0 s.rep_override_en)
      (rep_loop-IsWords d.operand_width (bit_and d.opcode 0xFE) (s.regs reg_cx) s.rep_mode v)
      (string_step-IsWords d.operand_width (bit_and d.opcode 0xFE) v)
