-- ===== src/Access/Words.antt =====
-- The writing access helpers keep the ranges of the fields.
use huxley.Base.{ℕ}
use huxley.State.{Emu86State}
use huxley.State.Words.{IsWords}
use huxley.State.Updates.{if-IsWords, set_reg-IsWords, set_sreg-IsWords, set_mem-IsWords}
use huxley.Context.{DecodeContext}
use huxley.Access.{mem_write8, mem_write16, write_reg8, write_reg16, write_rm8, write_rm16}
use huxley.Access.{write_rm, write_reg}

ruleset updates = (if-IsWords, set_reg-IsWords, set_sreg-IsWords, set_mem-IsWords)

module _ {s : Emu86State} where
  pub mem_write8-IsWords : (addr val : ℕ) → IsWords s → IsWords (mem_write8 s addr val)
  unfolding mem_write8
  mem_write8-IsWords addr val v = search (updates)

  pub mem_write16-IsWords : (addr val : ℕ) → IsWords s → IsWords (mem_write16 s addr val)
  unfolding mem_write16
  mem_write16-IsWords addr val v = search (updates)

  pub write_reg8-IsWords : (index val : ℕ) → IsWords s → IsWords (write_reg8 s index val)
  unfolding write_reg8
  write_reg8-IsWords index val v = search (updates)

  pub write_reg16-IsWords : (index val : ℕ) → IsWords s → IsWords (write_reg16 s index val)
  unfolding write_reg16
  write_reg16-IsWords index val v = search (updates)

module _ {s : Emu86State} where
  pub write_rm16-IsWords : (d : DecodeContext) (val : ℕ) → IsWords s → IsWords (write_rm16 s d val)
  unfolding write_rm16
  write_rm16-IsWords d val v = search (if-IsWords, mem_write16-IsWords, write_reg16-IsWords)

  pub write_reg-IsWords : (d : DecodeContext) (val : ℕ) → IsWords s → IsWords (write_reg s d val)
  unfolding write_reg
  write_reg-IsWords d val v = search (if-IsWords, write_reg8-IsWords, write_reg16-IsWords)

  pub write_rm-IsWords : (d : DecodeContext) (val : ℕ) → IsWords s → IsWords (write_rm s d val)
  unfolding write_rm write_rm8 write_rm16
  write_rm-IsWords d val v =
      search (
        if-IsWords, mem_write8-IsWords, mem_write16-IsWords, write_reg8-IsWords,
        write_reg16-IsWords,
      )

pub ruleset access_words = (
  mem_write8-IsWords, mem_write16-IsWords, write_reg8-IsWords, write_reg16-IsWords,
  write_rm16-IsWords, write_reg-IsWords, write_rm-IsWords,
)
