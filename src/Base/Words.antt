-- ===== src/Base/Words.antt =====
-- The fixed-width unsigned integers of C: a conversion keeps the low bits.
use Prim.Native.Nat.{ℕ, ◌+◌, ◌-◌, ◌%◌, ◌^◌}

abbrev pub u8 : ℕ → ℕ
u8 n = n % 0x100

abbrev pub u16 : ℕ → ℕ
u16 n = n % 0x1_0000

abbrev pub u32 : ℕ → ℕ
u32 n = n % 0x1_0000_0000

abbrev pub u64 : ℕ → ℕ
u64 n = n % 2 ^ 64

-- `a - b` in `uint16_t` and `uint32_t`, for operands in range.
abbrev pub sub16 : ℕ → ℕ → ℕ
sub16 a b = (a + 0x1_0000 - b) % 0x1_0000

abbrev pub sub32 : ℕ → ℕ → ℕ
sub32 a b = (a + 0x1_0000_0000 - b) % 0x1_0000_0000
