-- ===== src/Opcodes/Helpers.antt =====
-- opcodes/helpers.h: operand-width masks, the packed FLAGS register and the flag groups.
pub mod Flags
pub mod Words
pub mod Groups
pub mod Parity
use huxley.Base.{ℕ, ◌-◌, ◌/◌, ◌^◌, bit_and, bit_or, bit_xor}
use huxley.Base.{ltb, ◌==◌, is_set, to_int, if◌then◌else◌, u8, u16}
use huxley.State.{Emu86State, flag_cf, flag_pf, flag_af, flag_zf, flag_sf, flag_of}

-- `MASK` and `TOP_BIT`
abbrev pub mask : ℕ → ℕ
mask width = if is_set width then 0xFFFF else 0x00FF

abbrev pub top_bit : ℕ → ℕ
top_bit width = if is_set width then 0x8000 else 0x0080

-- `SIGN_OF`
unfoldable pub sign_of : ℕ → ℕ → ℕ
sign_of val width = if is_set (bit_and val (top_bit width)) then 1 else 0

unfoldable pub get_flag : Emu86State → ℕ → ℕ
get_flag s flag = if is_set (bit_and s.flags flag) then 1 else 0

unfoldable pub set_flag : Emu86State → ℕ → Emu86State
set_flag s flag = record s { flags = u16 (bit_or s.flags flag) }

-- `flags &= ~flag`: of the complement, which is an `int`, the low 16 bits matter.
unfoldable pub clear_flag : Emu86State → ℕ → Emu86State
clear_flag s flag = record s { flags = u16 (bit_and s.flags (0xFFFF - flag)) }

unfoldable pub update_flag : Emu86State → ℕ → ℕ → Emu86State
update_flag s flag condition = if is_set condition then set_flag s flag else clear_flag s flag

-- `(~val) & 1` is 1 where the lowest bit of `val` is 0.
unfoldable pub parity8 : ℕ → ℕ
parity8 val =
    let a = u8 val in
    let b = bit_xor a (a / 2 ^ 4) in
    let c = bit_xor b (b / 2 ^ 2) in let e = bit_xor c (c / 2 ^ 1) in bit_and (0xFFFF_FFFF - e) 1

unfoldable pub set_flags_szp : Emu86State → ℕ → ℕ → Emu86State
set_flags_szp s result width =
    let masked = u16 (bit_and result (mask width)) in
    let s1 = update_flag s flag_sf (sign_of masked width) in
    let s2 = update_flag s1 flag_zf (to_int (masked == 0)) in
    update_flag s2 flag_pf (parity8 (u8 masked))

unfoldable pub set_flags_add : Emu86State → ℕ → ℕ → ℕ → ℕ → Emu86State
set_flags_add s dest src result width =
    let s1 = update_flag s flag_cf (to_int (ltb (mask width) result)) in
    let af = bit_and (bit_xor (bit_xor dest src) result) 0x10 in
    let s2 = update_flag s1 flag_af (to_int (is_set af)) in
    let of = bit_and (bit_and (bit_xor dest result) (bit_xor src result)) (top_bit width) in
    update_flag s2 flag_of (to_int (is_set of))

unfoldable pub set_flags_sub : Emu86State → ℕ → ℕ → ℕ → ℕ → Emu86State
set_flags_sub s dest src result width =
    let s1 = update_flag s flag_cf (to_int (ltb (mask width) result)) in
    let af = bit_and (bit_xor (bit_xor dest src) result) 0x10 in
    let s2 = update_flag s1 flag_af (to_int (is_set af)) in
    let of = bit_and (bit_and (bit_xor dest src) (bit_xor dest result)) (top_bit width) in
    update_flag s2 flag_of (to_int (is_set of))

unfoldable pub set_flags_logic : Emu86State → ℕ → ℕ → Emu86State
set_flags_logic s result width =
    clear_flag (clear_flag (set_flags_szp s result width) flag_cf) flag_of

unfoldable pub set_flags_inc : Emu86State → ℕ → ℕ → ℕ → Emu86State
set_flags_inc s dest result width =
    let af = bit_and (bit_xor (bit_xor dest 1) result) 0x10 in
    let s1 = update_flag s flag_af (to_int (is_set af)) in
    let of = bit_and (bit_and (bit_xor dest result) (bit_xor 1 result)) (top_bit width) in
    let s2 = update_flag s1 flag_of (to_int (is_set of)) in set_flags_szp s2 result width

unfoldable pub set_flags_dec : Emu86State → ℕ → ℕ → ℕ → Emu86State
set_flags_dec s dest result width =
    let af = bit_and (bit_xor (bit_xor dest 1) result) 0x10 in
    let s1 = update_flag s flag_af (to_int (is_set af)) in
    let of = bit_and (bit_and (bit_xor dest 1) (bit_xor dest result)) (top_bit width) in
    let s2 = update_flag s1 flag_of (to_int (is_set of)) in set_flags_szp s2 result width
