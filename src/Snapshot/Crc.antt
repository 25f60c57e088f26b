-- ===== src/Snapshot/Crc.antt =====
-- The CRC32 of snapshot.c.
use Prim.Native.Nat.{ℕ, zero, suc, ◌/◌, ◌^◌, ◌<◌, bit_and, bit_xor}
use huxley.Base.{List, [], ◌∷◌, sub32, arith}
use huxley.Base.Bits.{bit_xor-lt, bit_and-lt, bit_and-byte}

-- One round of the inner loop of `crc32_init`.
abbrev crc_round : ℕ → ℕ
crc_round c = bit_xor (c / 2 ^ 1) (bit_and 0xEDB8_8320 (sub32 0 (bit_and c 1)))

abbrev crc_rounds : ℕ → ℕ → ℕ
crc_rounds zero c = c
crc_rounds (suc n) c = crc_rounds n (crc_round c)

-- Entry `i` of the table that `crc32_init` fills.
unfoldable pub crc32_table : ℕ → ℕ
crc32_table i = crc_rounds 8 i

unfoldable pub crc32_loop : ℕ → List ℕ → ℕ
crc32_loop crc [] = crc
crc32_loop crc (byte ∷ bytes) =
    crc32_loop (bit_xor (crc / 2 ^ 8) (crc32_table (bit_and (bit_xor crc byte) 0xFF))) bytes

unfoldable pub crc32_compute : List ℕ → ℕ
crc32_compute bytes = bit_xor (crc32_loop 0xFFFF_FFFF bytes) 0xFFFF_FFFF

crc_round-lt : (c : ℕ) → c < 2 ^ 32 → crc_round c < 2 ^ 32
crc_round-lt c h = bit_xor-lt _ _ 32 (omega arith) (bit_and-lt 0xEDB8_8320 _ (2 ^ 32) (omega arith))

crc_rounds-lt : (n c : ℕ) → c < 2 ^ 32 → crc_rounds n c < 2 ^ 32
crc_rounds-lt zero c h = h
crc_rounds-lt (suc n) c h = crc_rounds-lt n (crc_round c) (crc_round-lt c h)

crc32_table-lt : (i : ℕ) → i < 2 ^ 32 → crc32_table i < 2 ^ 32
unfolding crc32_table
crc32_table-lt i h = crc_rounds-lt 8 i h

crc32_loop-lt : (bytes : List ℕ) (crc : ℕ) → crc < 2 ^ 32 → crc32_loop crc bytes < 2 ^ 32
unfolding crc32_loop
crc32_loop-lt [] crc h = h
crc32_loop-lt (byte ∷ bytes) crc h =
    let index : bit_and (bit_xor crc byte) 0xFF < 2 ^ 32 =
      omega (arith, bit_and-byte (bit_xor crc byte)) in
    crc32_loop-lt bytes _ (bit_xor-lt _ _ 32 (omega arith) (crc32_table-lt _ index))

-- The checksum fits the four bytes that hold it.
pub crc32_compute-lt : (bytes : List ℕ) → crc32_compute bytes < 2 ^ 32
unfolding crc32_compute
crc32_compute-lt bytes = bit_xor-lt _ _ 32 (crc32_loop-lt bytes _ (omega arith)) (omega arith)
