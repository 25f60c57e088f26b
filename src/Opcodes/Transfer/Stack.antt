-- ===== src/Opcodes/Transfer/Stack.antt =====
-- The stack and the packed flags: what is pushed is popped.
use huxley.Base.{ℕ, ◌+◌, ◌*◌, ◌/◌, ◌^◌, ◌<◌, ◌≡◌, ◌⊎◌, ◌∙◌, ap, arith}
use huxley.Base.{bit_or, u8, u16, sub16}
use huxley.Base.Bits.{bit_or_low-mul}
use huxley.State.{Emu86State, reg_sp, sreg_ss, set_reg}
use huxley.State.Words.{IsWords}
use huxley.Access.{mem_read16, mem_write16, segoff_to_linear}
use huxley.Opcodes.Transfer.{stack_push, stack_pop}

pub mem_read16-mem_write16 : (s : Emu86State) (a v : ℕ) → mem_read16 (mem_write16 s a v) a ≡ u16 v
unfolding mem_read16 mem_write16
mem_read16-mem_write16 s a v =
    let lo = u8 (u8 (u16 v)) in
    let hi = u8 (u8 (u16 v / 2 ^ 8)) in
    let fits : u16 (hi * 2 ^ 8) ≡ hi * 2 ^ 8 = omega arith in
    let joined : bit_or lo (u16 (hi * 2 ^ 8)) ≡ u16 v =
      rw fits (bit_or_low-mul hi lo 8 (omega arith) ∙ omega arith) in
    ground (arith, joined)

pub mem_read16-mem_write16_apart :
    (s : Emu86State) (a b v : ℕ)
    → (a + 1 < b) ⊎ (b + 1 < a)
    → mem_read16 (mem_write16 s a v) b ≡ mem_read16 s b
unfolding mem_read16 mem_write16
mem_read16-mem_write16_apart s a b v h = ground arith

-- The linear address of the word at the top of the stack.
abbrev pub top : Emu86State → ℕ
top s = segoff_to_linear (s.sregs sreg_ss) (s.regs reg_sp)

-- On a well-formed state, a pop after a push gives the low 16 bits of the pushed value, and every
-- register, the stack pointer too, is as before.
pub stack_pop-stack_push :
    (s : Emu86State) (value i : ℕ)
    → IsWords s
    → let (popped, s') = stack_pop (stack_push s value) in
      (popped ≡ u16 value) × (s'.regs i ≡ s.regs i)
unfolding stack_pop stack_push mem_write16
stack_pop-stack_push s value i v =
    (mem_read16-mem_write16 _ _ (u16 value) ∙ omega arith, ground (arith, v.regs i))

-- Where the next word goes, and what is read there and elsewhere after a push.
abbrev pub below : Emu86State → ℕ
below s = segoff_to_linear (s.sregs sreg_ss) (u16 (sub16 (s.regs reg_sp) 2))

pub mem_read16-stack_push :
    (s : Emu86State) (value a : ℕ) → a ≡ below s → mem_read16 (stack_push s value) a ≡ u16 value
unfolding stack_push
mem_read16-stack_push s value a e =
    let t = set_reg s reg_sp (sub16 (s.regs reg_sp) 2) in
    ap (mem_read16 (mem_write16 t (below s) (u16 value))) e
    ∙ mem_read16-mem_write16 t (below s) (u16 value)
    ∙ omega arith

pub mem_read16-stack_push_apart :
    (s : Emu86State) (value a : ℕ)
    → (below s + 1 < a) ⊎ (a + 1 < below s)
    → mem_read16 (stack_push s value) a ≡ mem_read16 s a
unfolding stack_push mem_read16
mem_read16-stack_push_apart s value a h =
    mem_read16-mem_write16_apart (set_reg s reg_sp (sub16 (s.regs reg_sp) 2)) (below s) a
      (u16 value) h
