-- ===== src/Opcodes/Helpers/Groups.antt =====
-- What the flag groups write: each flag after `set_flags_szp`, `set_flags_add` and
-- `set_flags_sub`, read by its bit.
use huxley.Base.{ℕ, ◌^◌, ◌<◌, ◌≡◌, arith}
use huxley.Base.{bit_and, bit_xor, ◌==◌, ltb, is_set, to_int, if◌then◌else◌, u8, u16}
use huxley.State.{Emu86State}
use huxley.Opcodes.Helpers.{mask, top_bit, sign_of, parity8, get_flag, set_flags_szp}
use huxley.Opcodes.Helpers.{set_flags_add, set_flags_sub}
use huxley.Opcodes.Helpers.Flags.{get_flag-update_flag}

module _ (s : Emu86State) (j : ℕ) (h : j < 16) where
  pub get_flag-set_flags_szp :
      (result w : ℕ)
      → let masked = u16 (bit_and result (mask w)) in
        get_flag (set_flags_szp s result w) (2 ^ j) ≡ (
          if j == 2
          then to_int (is_set (parity8 (u8 masked)))
          else if j == 6
          then to_int (masked == 0)
          else if j == 7
          then to_int (is_set (sign_of masked w))
          else get_flag s (2 ^ j))
  unfolding set_flags_szp
  get_flag-set_flags_szp result w =
      rw
        (
          get_flag-update_flag _ 2 j _ (omega arith) h,
          get_flag-update_flag _ 6 j _ (omega arith) h,
          get_flag-update_flag _ 7 j _ (omega arith) h,
        )
        (ground arith)

  pub get_flag-set_flags_add :
      (dest src result w : ℕ)
      → get_flag (set_flags_add s dest src result w) (2 ^ j) ≡ (
          if j == 11
          then to_int
              (is_set (bit_and (bit_and (bit_xor dest result) (bit_xor src result)) (top_bit w)))
          else if j == 4
          then to_int (is_set (bit_and (bit_xor (bit_xor dest src) result) 0x10))
          else if j == 0
          then to_int (ltb (mask w) result)
          else get_flag s (2 ^ j))
  unfolding set_flags_add
  get_flag-set_flags_add dest src result w =
      rw
        (
          get_flag-update_flag _ 11 j _ (omega arith) h,
          get_flag-update_flag _ 4 j _ (omega arith) h,
          get_flag-update_flag _ 0 j _ (omega arith) h,
        )
        (ground arith)

  pub get_flag-set_flags_sub :
      (dest src result w : ℕ)
      → get_flag (set_flags_sub s dest src result w) (2 ^ j) ≡ (
          if j == 11
          then to_int
              (is_set (bit_and (bit_and (bit_xor dest src) (bit_xor dest result)) (top_bit w)))
          else if j == 4
          then to_int (is_set (bit_and (bit_xor (bit_xor dest src) result) 0x10))
          else if j == 0
          then to_int (ltb (mask w) result)
          else get_flag s (2 ^ j))
  unfolding set_flags_sub
  get_flag-set_flags_sub dest src result w =
      rw
        (
          get_flag-update_flag _ 11 j _ (omega arith) h,
          get_flag-update_flag _ 4 j _ (omega arith) h,
          get_flag-update_flag _ 0 j _ (omega arith) h,
        )
        (ground arith)
