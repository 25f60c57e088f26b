-- ===== src/Opcodes/Control/Return.antt =====
-- IRET undoes an interrupt.
use huxley.Base.{ℕ, ◌≡◌, refl}
use huxley.Base.{◌==◌, sub16, if◌then◌else◌, leb, ◌||◌}
use huxley.State.{Emu86State, reg_sp, sreg_ss, sreg_cs}
use huxley.State.Words.{IsWords}
use huxley.Context.{DecodeContext}
use huxley.Base.Bits.{bit}
use huxley.Access.{mem_write16, segoff_to_linear}
use huxley.Opcodes.Transfer.{stack_push, flags_pack}
use huxley.Opcodes.Control.{pc_interrupt, exec_iret}

-- The three words of an interrupt frame.
module _ (s : Emu86State) (f c p : ℕ) (v : IsWords s) where
  abbrev slot : ℕ → ℕ
  slot k = segoff_to_linear (s.sregs sreg_ss) (sub16 (s.regs reg_sp) k)

  abbrev framed : Emu86State
  framed = stack_push (stack_push (stack_push s f) c) p

  framed_ip : framed.ip ≡ s.ip
  unfolding stack_push mem_write16
  framed_ip = refl

-- A bit of FLAGS as IRET leaves it: bit 1 is set, bits 3, 5 and 12 to 15 are clear.
abbrev pub fixed_bit : ℕ → ℕ → ℕ
fixed_bit n k = if k == 1 then 1 else if (k == 3) || ((k == 5) || leb 12 k) then 0 else bit n k

-- The state after an interrupt and the IRET of its handler.
abbrev pub returned : Emu86State → ℕ → DecodeContext → Emu86State
returned s vector d = (exec_iret (pc_interrupt s vector) d).state

module _ (s : Emu86State) (vector : ℕ) (d : DecodeContext) (v : IsWords s) where
  abbrev f : ℕ
  f = flags_pack s

  abbrev c : ℕ
  c = (stack_push s f).sregs sreg_cs

  abbrev p : ℕ
  p = (stack_push (stack_push s f) c).ip
