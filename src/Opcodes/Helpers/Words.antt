-- ===== src/Opcodes/Helpers/Words.antt =====
-- Writing flags keeps the ranges of the fields.
use huxley.Base.{ℕ, arith}
use huxley.State.{Emu86State}
use huxley.State.Words.{IsWords}
use huxley.State.Updates.{if-IsWords, flags-IsWords}
use huxley.Opcodes.Helpers.{set_flag, clear_flag, update_flag, set_flags_szp, set_flags_add}
use huxley.Opcodes.Helpers.{set_flags_sub, set_flags_logic, set_flags_inc, set_flags_dec}

module _ {s : Emu86State} where
  pub set_flag-IsWords : (f : ℕ) → IsWords s → IsWords (set_flag s f)
  unfolding set_flag
  set_flag-IsWords f v = flags-IsWords (omega arith) v

  pub clear_flag-IsWords : (f : ℕ) → IsWords s → IsWords (clear_flag s f)
  unfolding clear_flag
  clear_flag-IsWords f v = flags-IsWords (omega arith) v

  pub update_flag-IsWords : (f c : ℕ) → IsWords s → IsWords (update_flag s f c)
  unfolding update_flag
  update_flag-IsWords f c v = search (if-IsWords, set_flag-IsWords, clear_flag-IsWords)

-- A group of flags is a chain of single updates.
module _ {s : Emu86State} where
  pub set_flags_szp-IsWords : (r w : ℕ) → IsWords s → IsWords (set_flags_szp s r w)
  unfolding set_flags_szp
  set_flags_szp-IsWords r w v = search (update_flag-IsWords)

  pub set_flags_add-IsWords : (a b r w : ℕ) → IsWords s → IsWords (set_flags_add s a b r w)
  unfolding set_flags_add
  set_flags_add-IsWords a b r w v = search (update_flag-IsWords)

  pub set_flags_sub-IsWords : (a b r w : ℕ) → IsWords s → IsWords (set_flags_sub s a b r w)
  unfolding set_flags_sub
  set_flags_sub-IsWords a b r w v = search (update_flag-IsWords)

module _ {s : Emu86State} where
  pub set_flags_logic-IsWords : (r w : ℕ) → IsWords s → IsWords (set_flags_logic s r w)
  unfolding set_flags_logic
  set_flags_logic-IsWords r w v = search (clear_flag-IsWords, set_flags_szp-IsWords)

  pub set_flags_inc-IsWords : (a r w : ℕ) → IsWords s → IsWords (set_flags_inc s a r w)
  unfolding set_flags_inc
  set_flags_inc-IsWords a r w v = search (update_flag-IsWords, set_flags_szp-IsWords)

  pub set_flags_dec-IsWords : (a r w : ℕ) → IsWords s → IsWords (set_flags_dec s a r w)
  unfolding set_flags_dec
  set_flags_dec-IsWords a r w v = search (update_flag-IsWords, set_flags_szp-IsWords)

pub ruleset flag_words = (
  set_flag-IsWords, clear_flag-IsWords, update_flag-IsWords, set_flags_szp-IsWords,
  set_flags_add-IsWords, set_flags_sub-IsWords, set_flags_logic-IsWords, set_flags_inc-IsWords,
  set_flags_dec-IsWords,
)
