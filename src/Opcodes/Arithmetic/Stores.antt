-- ===== src/Opcodes/Arithmetic/Stores.antt =====
-- opcodes/arithmetic.h: what the store of a result changes, in terms of reads.
use huxley.Base.{ℕ, ◌+◌, ◌<◌, ◌≡◌, refl, arith, ◌==◌, ◌&&◌, ◌||◌, not, is_set}
use huxley.Base.{Bool, true, false, Bool-cases, inl, inr, if◌then◌else◌, u8, u16}
use huxley.State.{Emu86State}
use huxley.Context.{DecodeContext}
use huxley.Access.{
  mem_read8, mem_write8, mem_write16, read_reg8, write_reg8, read_reg16, write_reg16, read_rm8,
  read_rm16, write_rm8, write_rm16, read_rm, write_rm, read_reg, write_reg,
}
use huxley.Access.Stores.{read_reg8-write_reg8, read_reg8-write_reg8_apart}
use huxley.Opcodes.Transfer.Stack.{mem_read16-mem_write16}
use huxley.Opcodes.Arithmetic.{read_dest, write_dest}
use huxley.Opcodes.Arithmetic.Overflow.{modulus}

-- Whether the destination is a register, which one, and whether it is a cell of memory.
abbrev pub in_register : DecodeContext → Bool
in_register d = is_set d.direction || d.mode == 3

abbrev pub is_dest_reg : DecodeContext → ℕ → Bool
is_dest_reg d j = in_register d && (j == (if is_set d.direction then d.reg else d.rm))

abbrev pub is_dest_cell : DecodeContext → ℕ → Bool
is_dest_cell d a =
    not (in_register d) && ((a == d.rm_addr) || (is_set d.operand_width && (a == d.rm_addr + 1)))

-- `s'` is `s` with `n` in the destination, but for the flags: the other registers of the operand
-- width, the other cells of memory and all other fields are as before.
pub record Stored (d : DecodeContext) (n : ℕ) (s s' : Emu86State) : Type 0 where
  pub value : read_dest s' d ≡ n
  pub words :
      (j : ℕ) → is_set d.operand_width ≡ true → is_dest_reg d j ≡ false → s'.regs j ≡ s.regs j
  pub bytes :
      (j : ℕ)
      → is_set d.operand_width ≡ false
      → is_dest_reg d j ≡ false
      → read_reg8 s' j ≡ read_reg8 s j
  pub cells : (a : ℕ) → is_dest_cell d a ≡ false → s'.mem a ≡ s.mem a
  pub others : record s { regs = s'.regs; mem = s'.mem; flags = s'.flags } ≡ s'

module _ (s : Emu86State) (d : DecodeContext) (n : ℕ) (v : (i : ℕ) → s.regs i < 0x1_0000) where
  read_dest-write_dest : n < modulus d.operand_width → read_dest (write_dest s d n) d ≡ n
  unfolding read_dest write_dest read_reg write_reg read_rm write_rm read_rm8 read_rm16 write_rm8
      write_rm16 read_reg16 write_reg16 mem_read8 mem_write8
  read_dest-write_dest h = ground (
    arith,
    read_reg8-write_reg8 s v d.reg n,
    read_reg8-write_reg8 s v d.rm n,
    mem_read16-mem_write16 s d.rm_addr n,
  )

  write_dest-words :
      (j : ℕ)
      → is_set d.operand_width ≡ true
      → is_dest_reg d j ≡ false
      → (write_dest s d n).regs j ≡ s.regs j
  unfolding write_dest write_reg write_rm write_rm16 write_reg16 mem_write16
  write_dest-words j w h = ground arith

  write_dest-bytes :
      (j : ℕ)
      → is_set d.operand_width ≡ false
      → is_dest_reg d j ≡ false
      → read_reg8 (write_dest s d n) j ≡ read_reg8 s j
  unfolding write_dest write_reg write_rm write_rm8 mem_write8
  write_dest-bytes j w h =
      let in_reg = read_reg8-write_reg8_apart s v d.reg j (u8 (u16 n)) in
      let in_rm = read_reg8-write_reg8_apart s v d.rm j (u8 (u16 n)) in
      elim (Bool-cases (is_set d.direction)) [
        | inl e ↦ rw (w, e) (in_reg (rw e at h))
        | inr e ↦ elim (Bool-cases (d.mode == 3)) [
          | inl f ↦ rw (w, e, f) (in_rm (rw (e, f) at h))
          | inr f ↦ rw (w, e, f) (unfold read_reg8 in refl)
        ]
      ]

  write_dest-cells : (a : ℕ) → is_dest_cell d a ≡ false → (write_dest s d n).mem a ≡ s.mem a
  unfolding write_dest write_reg write_rm write_rm8 write_rm16 write_reg8 write_reg16 mem_write8
      mem_write16
  write_dest-cells a h = ground arith

  write_dest-others :
      let s' = write_dest s d n in record s { regs = s'.regs; mem = s'.mem; flags = s'.flags } ≡ s'
  unfolding write_dest write_reg write_rm write_rm8 write_rm16 write_reg8 write_reg16 mem_write8
      mem_write16
  write_dest-others = ground arith

  pub write_dest-Stored : n < modulus d.operand_width → Stored d n s (write_dest s d n)
  write_dest-Stored h = record {
    value = read_dest-write_dest h;
    words = write_dest-words;
    bytes = write_dest-bytes;
    cells = write_dest-cells;
    others = write_dest-others;
  }

-- The same over a state with other flags.
pub Stored-flags :
    {d : DecodeContext} {n f : ℕ} {s s' : Emu86State}
    → Stored d n (record s { flags = f }) s'
    → Stored d n s s'
unfolding read_reg8
Stored-flags r = record {
  value = r.value;
  words = r.words;
  bytes = r.bytes;
  cells = r.cells;
  others = r.others;
}
