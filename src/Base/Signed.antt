-- ===== src/Base/Signed.antt =====
-- The signed integers of C: `int8`, `int16` and `int32` read a bit pattern, `to_u8`, `to_u16` and
-- `to_u32` convert back. `negsuc n` is -(n + 1).
use Prim.Native.Nat.{ℕ, suc, ◌+◌, ◌-◌, ◌*◌, ◌/◌, ◌%◌}
use mathlib.Core.Bool.{Bool}
use huxley.Base.Tests.{ltb, leb, ◌==◌, if◌then◌else◌}

pub data ℤ : Type 0 where
  pos : ℕ → ℤ
  negsuc : ℕ → ℤ

abbrev pub pos_part : ℤ → ℕ
pos_part (pos n) = n
pos_part (negsuc n) = 0

abbrev pub neg_part : ℤ → ℕ
neg_part (pos n) = 0
neg_part (negsuc n) = suc n

-- a - b, as an integer.
abbrev pub sub_ℕ : ℕ → ℕ → ℤ
sub_ℕ a b = if leb b a then pos (a - b) else negsuc (b - a - 1)

infixl 65 ◌+ℤ◌ ◌-ℤ◌
infixl 70 ◌*ℤ◌
abbrev pub ◌+ℤ◌ : ℤ → ℤ → ℤ
a +ℤ b = sub_ℕ (pos_part a + pos_part b) (neg_part a + neg_part b)

abbrev pub ◌-ℤ◌ : ℤ → ℤ → ℤ
a -ℤ b = sub_ℕ (pos_part a + neg_part b) (neg_part a + pos_part b)

unfoldable pub ◌*ℤ◌ : ℤ → ℤ → ℤ
a *ℤ b =
    sub_ℕ (pos_part a * pos_part b + neg_part a * neg_part b)
      (pos_part a * neg_part b + neg_part a * pos_part b)

abbrev pub ltb_ℤ : ℤ → ℤ → Bool
ltb_ℤ a b = ltb (pos_part a + neg_part b) (pos_part b + neg_part a)

abbrev pub eq_ℤ : ℤ → ℤ → Bool
eq_ℤ a b = pos_part a + neg_part b == pos_part b + neg_part a

-- Division that rounds toward zero; the remainder has the sign of the dividend.
unfoldable pub quot : ℤ → ℤ → ℤ
quot a b =
    sub_ℕ (pos_part a / pos_part b + neg_part a / neg_part b)
      (pos_part a / neg_part b + neg_part a / pos_part b)

unfoldable pub rem : ℤ → ℤ → ℤ
rem (pos a) b = pos (a % (pos_part b + neg_part b))
rem (negsuc a) b = sub_ℕ 0 (suc a % (pos_part b + neg_part b))

abbrev pub int8 : ℕ → ℤ
int8 n = if ltb n 0x80 then pos n else negsuc (0xFF - n)

abbrev pub int16 : ℕ → ℤ
int16 n = if ltb n 0x8000 then pos n else negsuc (0xFFFF - n)

abbrev pub int32 : ℕ → ℤ
int32 n = if ltb n 0x8000_0000 then pos n else negsuc (0xFFFF_FFFF - n)

abbrev pub to_u8 : ℤ → ℕ
to_u8 (pos n) = n % 0x100
to_u8 (negsuc n) = 0xFF - n % 0x100

abbrev pub to_u16 : ℤ → ℕ
to_u16 (pos n) = n % 0x1_0000
to_u16 (negsuc n) = 0xFFFF - n % 0x1_0000

abbrev pub to_u32 : ℤ → ℕ
to_u32 (pos n) = n % 0x1_0000_0000
to_u32 (negsuc n) = 0xFFFF_FFFF - n % 0x1_0000_0000

-- Sign extension as the source writes it: (uint16_t)(int16_t)(int8_t) and the like.
abbrev pub sext8_16 : ℕ → ℕ
sext8_16 n = to_u16 (int8 n)

abbrev pub sext8_32 : ℕ → ℕ
sext8_32 n = to_u32 (int8 n)

abbrev pub sext16_32 : ℕ → ℕ
sext16_32 n = to_u32 (int16 n)
