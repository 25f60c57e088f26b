-- ===== src/Opcodes/Arithmetic/Divide.antt =====
-- DIV as division with remainder, and its divide error.
use huxley.Base.{ℕ, ◌+◌, ◌*◌, ◌/◌, ◌%◌, ◌^◌, ◌<◌, ◌≤◌, ◌≡◌, ◌⊎◌, inl, inr, refl, arith}
use huxley.Base.{
  bit_and, bit_or, ltb, ◌==◌, true, false, Bool-cases, ==-eq, is_set, if◌then◌else◌, u8, u16, u32,
}
use huxley.Base.Bits.{bit_or-mul, bit_and-byte}
use huxley.State.{Emu86State, reg_ax, reg_dx}
use huxley.State.Words.{IsWords}
use huxley.Context.{DecodeContext}
use huxley.Access.{read_rm}
use huxley.Access.Laws.{read_rm-lt}
use huxley.Opcodes.Arithmetic.{exec_div}
use huxley.Opcodes.Arithmetic.Overflow.{modulus}
use native.Mathlib.Nat.{mod-lt, div-add-mod'}

-- DX:AX, or AX for a byte divisor; the quotient and the remainder where DIV leaves them.
abbrev pub dividend : ℕ → Emu86State → ℕ
dividend w s = if is_set w then s.regs reg_dx * 0x1_0000 + s.regs reg_ax else s.regs reg_ax

abbrev pub quotient : ℕ → Emu86State → ℕ
quotient w s = if is_set w then s.regs reg_ax else s.regs reg_ax % 0x100

abbrev pub remainder : ℕ → Emu86State → ℕ
remainder w s = if is_set w then s.regs reg_dx else s.regs reg_ax / 0x100

-- The two ends of DIV: a divide error, which changes nothing, or quotient and remainder.
abbrev pub Divides : ℕ → ℕ → Emu86State → ℕ × Emu86State → Type 0
Divides w b s result =
    ((result ≡ (1, s)) × ((b ≡ 0) ⊎ (modulus w ≤ dividend w s / b)))
    ⊎ ((s' : Emu86State) × (result ≡ (0, s'))
        × (quotient w s' * b + remainder w s' ≡ dividend w s)
        × remainder w s' < b)

-- AX with a remainder and a quotient in its halves.
abbrev halves : ℕ → ℕ → ℕ
halves r q = u16 (bit_or (bit_and r 0xFF * 2 ^ 8) (bit_and q 0xFF))

halves_lem : (r q : ℕ) → r < 0x100 → q < 0x100 → halves r q ≡ r * 0x100 + q
halves_lem r q h k =
    let er : bit_and r 0xFF ≡ r = omega (arith, bit_and-byte r) in
    let eq : bit_and q 0xFF ≡ q = omega (arith, bit_and-byte q) in
    rw (er, eq, bit_or-mul r q 8 k) (omega arith)

ax_low : (r q : ℕ) → r < 0x100 → q < 0x100 → halves r q % 0x100 ≡ q
ax_low r q h k = omega (arith, halves_lem r q h k)

ax_high : (r q : ℕ) → r < 0x100 → q < 0x100 → halves r q / 0x100 ≡ r
ax_high r q h k = omega (arith, halves_lem r q h k)

module _ (s : Emu86State) (d : DecodeContext) (v : IsWords s) where
  joined :
      bit_or (u32 (s.regs reg_dx * 2 ^ 16)) (s.regs reg_ax)
      ≡ s.regs reg_dx * 0x1_0000 + s.regs reg_ax
  joined =
      let fits : u32 (s.regs reg_dx * 2 ^ 16) ≡ s.regs reg_dx * 2 ^ 16 =
        omega (arith, v.regs reg_dx) in
      rw fits (bit_or-mul (s.regs reg_dx) (s.regs reg_ax) 16 (v.regs reg_ax))

  word-Divides : (is_set d.operand_width ≡ true) → Divides 1 (read_rm s d) s (exec_div s d)
  unfolding exec_div
  word-Divides wide =
      let b = read_rm s d in
      let n = s.regs reg_dx * 0x1_0000 + s.regs reg_ax in
      let b-lt : b < 0x1_0000 = ground (arith, read_rm-lt s v d) in
      elim (Bool-cases (b == 0)) [
        | inl z ↦ rw (wide, z) (inl (refl, inl (==-eq b 0 z)))
        | inr z ↦
            let r-lt : n % b < b = mod-lt n (ground arith) in
            elim (Bool-cases (ltb 0xFFFF (n / b))) [
              | inl big ↦ rw (joined, wide, z, big) (inl (refl, inr (ground arith)))
              | inr small ↦
                  let q : u16 (u16 (n / b)) ≡ n / b = ground arith in
                  let r : u16 (u16 (n % b)) ≡ n % b = omega arith in
                  rw (joined, wide, z, small)
                    (inr (_, refl, rw (q, r) (div-add-mod' n b), rw r r-lt))
            ]
      ]

  byte-Divides : (is_set d.operand_width ≡ false) → Divides 0 (read_rm s d) s (exec_div s d)
  unfolding exec_div
  byte-Divides narrow =
      let b = read_rm s d in
      let n = s.regs reg_ax in
      let same : u8 b ≡ b = ground (arith, read_rm-lt s v d) in
      elim (Bool-cases (b == 0)) [
        | inl z ↦ rw (narrow, z) (inl (refl, inl (==-eq b 0 z)))
        | inr z ↦
            let r-lt : n % b < b = mod-lt n (ground arith) in
            elim (Bool-cases (ltb 0xFF (n / b))) [
              | inl big ↦ rw (same, narrow, z, big) (inl (refl, inr (ground arith)))
              | inr small ↦
                  let q-lt : n / b < 0x100 = ground arith in
                  let r-byte : n % b < 0x100 = ground (arith, read_rm-lt s v d) in
                  rw (same, narrow, z, small)
                    (inr (
                      _,
                      refl,
                      rw (ax_low (n % b) (n / b) r-byte q-lt, ax_high (n % b) (n / b) r-byte q-lt)
                          (div-add-mod' n b),
                      rw (ax_high (n % b) (n / b) r-byte q-lt) r-lt,
                    ))
            ]
      ]

  -- On a well-formed state DIV reports a divide error without a change, and then the divisor is 0 or
  -- the quotient does not fit; or it leaves a quotient and a remainder below the divisor that make
  -- up the dividend.
  pub exec_div-Divides : Divides d.operand_width (read_rm s d) s (exec_div s d)
  exec_div-Divides = elim (Bool-cases (is_set d.operand_width)) [
    | inl e ↦ rw e (word-Divides e)
    | inr e ↦ rw e (byte-Divides e)
  ]
