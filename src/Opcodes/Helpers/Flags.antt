-- ===== src/Opcodes/Helpers/Flags.antt =====
-- Laws of the packed FLAGS register: reading a flag after writing one, and what a write of flags
-- leaves alone. A flag is named by its bit: `2 ^ k`.
use huxley.Base.{ℕ, ◌^◌, ◌<◌, ◌≡◌, arith}
use huxley.Base.{◌==◌, is_set, to_int, if◌then◌else◌}
use huxley.Base.Bits.{bit, bit-lt, bit-bit_or, bit-bit_and}
use huxley.Base.Masks.{bit-pow, bit-ones_sub, bit-u16, mask_test, pow-lt}
use huxley.State.{Emu86State}
use huxley.Opcodes.Helpers.{get_flag, set_flag, clear_flag, update_flag}

-- Reading a flag is reading its bit.
pub get_flag-bit : (s : Emu86State) (k : ℕ) → get_flag s (2 ^ k) ≡ bit s.flags k
unfolding get_flag
get_flag-bit s k = ground (arith, mask_test s.flags k)

bit-set_flag :
    (s : Emu86State) (k j : ℕ)
    → j < 16
    → bit (set_flag s (2 ^ k)).flags j ≡ (if j == k then 1 else bit s.flags j)
unfolding set_flag
bit-set_flag s k j h =
    rw (bit-u16 _ j h, bit-bit_or, bit-pow k j) (ground (arith, bit-lt s.flags j))

bit-clear_flag :
    (s : Emu86State) (k j : ℕ)
    → k < 16
    → j < 16
    → bit (clear_flag s (2 ^ k)).flags j ≡ (if j == k then 0 else bit s.flags j)
unfolding clear_flag
bit-clear_flag s k j hk h =
    rw (bit-u16 _ j h, bit-bit_and, bit-ones_sub 16 (2 ^ k) j (pow-lt k 16 hk) h, bit-pow k j)
      (ground (arith, bit-lt s.flags j))

-- After flag bit `k` is written, `get_flag` at bit `k` reads the written condition, and at every
-- other bit `j` below 16 what it read before.
pub get_flag-update_flag :
    (s : Emu86State) (k j c : ℕ)
    → k < 16
    → j < 16
    → get_flag (update_flag s (2 ^ k) c) (2 ^ j)
      ≡ (if j == k then to_int (is_set c) else get_flag s (2 ^ j))
unfolding update_flag
get_flag-update_flag s k j c hk hj =
    rw (get_flag-bit (update_flag s (2 ^ k) c) j, get_flag-bit s j)
      (ground (arith, bit-set_flag s k j, bit-clear_flag s k j))

-- Writing a flag changes the FLAGS register only.
pub update_flag_frame :
    (s : Emu86State) (f c : ℕ) → update_flag s f c ≡ record s { flags = (update_flag s f c).flags }
unfolding update_flag set_flag clear_flag
update_flag_frame s f c = ground arith

pub get_flag-lt : (s : Emu86State) (f : ℕ) → get_flag s f < 2
unfolding get_flag
get_flag-lt s f = ground arith
