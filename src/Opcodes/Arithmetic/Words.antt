-- ===== src/Opcodes/Arithmetic/Words.antt =====
-- The arithmetic instructions keep the ranges of the fields.
use huxley.Base.{ℕ, Bool, true, false, if◌then◌else◌}
use huxley.State.{Emu86State}
use huxley.State.Words.{IsWords}
use huxley.State.Updates.{state_words}
use huxley.Context.{DecodeContext}
use huxley.Access.Words.{access_words}
use huxley.Opcodes.Helpers.Words.{flag_words}
use huxley.Opcodes.Arithmetic.{
  write_dest, exec_add, exec_adc, exec_sub, exec_sbb, exec_cmp, exec_neg,
}
use huxley.Opcodes.Arithmetic.{exec_inc, exec_dec, exec_mul, exec_imul, exec_div, exec_idiv}

ruleset parts = (state_words, access_words, flag_words)

pub write_dest-IsWords :
    {s : Emu86State} (d : DecodeContext) (n : ℕ) → IsWords s → IsWords (write_dest s d n)
unfolding write_dest
write_dest-IsWords d n v = search (parts)

-- The same of the state in a pair with an error code.
pub if-IsWords_snd {ℓ} :
    {A : Type ℓ} (b : Bool) (p q : A × Emu86State)
    → IsWords p.1
    → IsWords q.1
    → IsWords (if b then p else q).1
if-IsWords_snd true p q v w = v
if-IsWords_snd false p q v w = w

module _ {s : Emu86State} (d : DecodeContext) (v : IsWords s) where
  pub exec_add-IsWords : IsWords (exec_add s d)
  unfolding exec_add
  exec_add-IsWords = search (write_dest-IsWords, flag_words)

  pub exec_adc-IsWords : IsWords (exec_adc s d)
  unfolding exec_adc
  exec_adc-IsWords = search (write_dest-IsWords, flag_words)

  pub exec_sub-IsWords : IsWords (exec_sub s d)
  unfolding exec_sub
  exec_sub-IsWords = search (write_dest-IsWords, flag_words)

  pub exec_sbb-IsWords : IsWords (exec_sbb s d)
  unfolding exec_sbb
  exec_sbb-IsWords = search (write_dest-IsWords, flag_words)

  pub exec_cmp-IsWords : IsWords (exec_cmp s d)
  unfolding exec_cmp
  exec_cmp-IsWords = search (flag_words)

  pub exec_neg-IsWords : IsWords (exec_neg s d)
  unfolding exec_neg
  exec_neg-IsWords = search (parts)

  pub exec_inc-IsWords : IsWords (exec_inc s d)
  unfolding exec_inc
  exec_inc-IsWords = search (parts)

  pub exec_dec-IsWords : IsWords (exec_dec s d)
  unfolding exec_dec
  exec_dec-IsWords = search (parts)

  pub exec_mul-IsWords : IsWords (exec_mul s d)
  unfolding exec_mul
  exec_mul-IsWords = search (parts) depth 12

  pub exec_imul-IsWords : IsWords (exec_imul s d)
  unfolding exec_imul
  exec_imul-IsWords = search (parts) depth 12

  pub exec_div-IsWords : IsWords (exec_div s d).1
  unfolding exec_div
  exec_div-IsWords = search (parts, if-IsWords_snd)

  pub exec_idiv-IsWords : IsWords (exec_idiv s d).1
  unfolding exec_idiv
  exec_idiv-IsWords = search (parts, if-IsWords_snd)

pub ruleset arithmetic_words = (
  exec_add-IsWords, exec_adc-IsWords, exec_sub-IsWords, exec_sbb-IsWords, exec_cmp-IsWords,
  exec_neg-IsWords, exec_inc-IsWords, exec_dec-IsWords, exec_mul-IsWords, exec_imul-IsWords,
  exec_div-IsWords, exec_idiv-IsWords,
)
