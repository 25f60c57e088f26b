-- ===== src/Access/Stores.antt =====
-- What a write of an operand stores, and what it leaves alone, in terms of reads.
use huxley.Base.{ℕ, ◌+◌, ◌-◌, ◌*◌, ◌/◌, ◌%◌, ◌^◌, ◌<◌, ◌≡◌, arith}
use huxley.Base.{bit_and, bit_or, ◌==◌, u8, false}
use huxley.Base.Bits.{bit_or_low-mul, bit_or-mul, bit_and-high_byte, bit_and-byte}
use huxley.State.{Emu86State}
use huxley.Access.{read_reg8}
use huxley.Access.{write_reg8}

module _ (s : Emu86State) (v : (i : ℕ) → s.regs i < 0x1_0000) where
  low_byte : (r val : ℕ) → bit_or (bit_and r 0xFF00) (u8 val) ≡ r / 0x100 % 0x100 * 0x100 + u8 val
  low_byte r val =
      rw (bit_and-high_byte r) (bit_or-mul (r / 0x100 % 0x100) (u8 val) 8 (omega arith))

  high_byte : (r val : ℕ) → bit_or (bit_and r 0x00FF) (u8 val * 2 ^ 8) ≡ u8 val * 2 ^ 8 + r % 0x100
  high_byte r val = rw (bit_and-byte r) (bit_or_low-mul (u8 val) (r % 0x100) 8 (omega arith))

  pub read_reg8-write_reg8 : (i n : ℕ) → read_reg8 (write_reg8 s i n) i ≡ u8 n
  unfolding read_reg8 write_reg8
  read_reg8-write_reg8 i n = ground (arith, low_byte (s.regs i) n, high_byte (s.regs (i - 4)) n)

  pub read_reg8-write_reg8_apart :
      (i j n : ℕ) → (j == i) ≡ false → read_reg8 (write_reg8 s i n) j ≡ read_reg8 s j
  unfolding read_reg8 write_reg8
  read_reg8-write_reg8_apart i j n e =
      ground (arith, low_byte (s.regs i) n, high_byte (s.regs (i - 4)) n, v i, v (i - 4))
