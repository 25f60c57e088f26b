-- ===== src/Access/Laws.antt =====
-- Bounds of what the access helpers read, and what their writes leave alone.
use huxley.Base.{ℕ, ◌+◌, ◌-◌, ◌*◌, ◌^◌, ◌<◌, ◌≡◌, arith}
use huxley.Base.{is_set, if◌then◌else◌, u16}
use huxley.Base.Bits.{bit_or_low-mul}
use huxley.State.{Emu86State}
use huxley.State.Words.{IsWords}
use huxley.Context.{DecodeContext}
use huxley.Access.{mem_read8, mem_write8, mem_read16, mem_write16, read_reg8}
use huxley.Access.{write_reg8, read_reg16, write_reg16, read_rm8, read_rm16, write_rm8, write_rm16}
use huxley.Access.{read_rm, write_rm, read_reg, write_reg}

-- One more than the largest operand of a width.
abbrev pub limit : ℕ → ℕ
limit w = if is_set w then 0x1_0000 else 0x100

module _ (s : Emu86State) (v : IsWords s) where
  -- A word of memory is its two bytes, the low one first.
  pub mem_read16_lem : (addr : ℕ) → mem_read16 s addr ≡ s.mem (addr + 1) * 0x100 + s.mem addr
  unfolding mem_read16
  mem_read16_lem addr =
      let lo = v.mem addr in
      let hi = v.mem (addr + 1) in
      let fits : u16 (s.mem (addr + 1) * 2 ^ 8) ≡ s.mem (addr + 1) * 2 ^ 8 = omega arith in
      rw fits (bit_or_low-mul (s.mem (addr + 1)) (s.mem addr) 8 lo)

  pub mem_read16-lt : (addr : ℕ) → mem_read16 s addr < 0x1_0000
  mem_read16-lt addr = omega (arith, mem_read16_lem addr, v.mem addr, v.mem (addr + 1))

  pub read_rm-lt : (d : DecodeContext) → read_rm s d < limit d.operand_width
  unfolding read_rm read_rm8 read_rm16 read_reg8 read_reg16 mem_read8
  read_rm-lt d =
      ground (arith, v.regs d.rm, v.regs (d.rm - 4), v.mem d.rm_addr, mem_read16-lt d.rm_addr)

  pub read_reg-lt : (d : DecodeContext) → read_reg s d < limit d.operand_width
  unfolding read_reg read_reg8 read_reg16
  read_reg-lt d = ground (arith, v.regs d.reg, v.regs (d.reg - 4))

-- Writing an operand leaves the FLAGS register alone.
pub flags-write_rm : (s : Emu86State) (d : DecodeContext) (n : ℕ) → (write_rm s d n).flags ≡ s.flags
unfolding write_rm write_rm8 write_rm16 write_reg8 write_reg16 mem_write8 mem_write16
flags-write_rm s d n = ground arith

pub flags-write_reg :
    (s : Emu86State) (d : DecodeContext) (n : ℕ) → (write_reg s d n).flags ≡ s.flags
unfolding write_reg write_reg8 write_reg16
flags-write_reg s d n = ground arith
