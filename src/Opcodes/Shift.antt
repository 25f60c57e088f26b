-- ===== src/Opcodes/Shift.antt =====
-- opcodes/shift.h: shifts and rotates of the R/M operand.
-- A count above the operand's width makes SHL and SHR shift by a negative number or by 32 and more,
-- which C leaves undefined. Here a negative amount counts as 0, and a right shift by 32 and more
-- gives 0: the theorems about shifts bound the count.
pub mod Words
use huxley.Base.{ℕ, zero, suc, ◌+◌, ◌-◌, ◌*◌, ◌/◌, ◌%◌, ◌^◌, bit_and, bit_or, bit_xor}
use huxley.Base.{leb, ◌==◌, is_set, if◌then◌else◌, u32}
use huxley.Base.Signed.{ℤ, pos, negsuc, int8, int16, to_u32, ltb_ℤ}
use huxley.State.{Emu86State, flag_cf, flag_of}
use huxley.Context.{DecodeContext}
use huxley.Access.{read_rm, write_rm}
use huxley.Opcodes.Helpers.{mask, sign_of, get_flag, update_flag, set_flags_szp}

-- `bits = (w + 1) * 8`
abbrev pub bits_of : ℕ → ℕ
bits_of w = (w + 1) * 8

unfoldable pub exec_shl : Emu86State → DecodeContext → ℕ → Emu86State
exec_shl s d count =
    let w = d.operand_width in
    let bits = bits_of w in
    let val = read_rm s d in
    let s1 = update_flag s flag_cf (bit_and (val / 2 ^ (bits - count)) 1) in
    let result = bit_and (u32 (val * 2 ^ count)) (mask w) in
    let s2 = update_flag s1 flag_of (bit_xor (get_flag s1 flag_cf) (sign_of result w)) in
    let s3 = set_flags_szp s2 result w in if count == 0 then s else write_rm s3 d result

unfoldable pub exec_shr : Emu86State → DecodeContext → ℕ → Emu86State
exec_shr s d count =
    let w = d.operand_width in
    let val = read_rm s d in
    let s1 = update_flag s flag_of (sign_of val w) in
    let s2 = update_flag s1 flag_cf (bit_and (val / 2 ^ (count - 1)) 1) in
    let result = bit_and (val / 2 ^ count) (mask w) in
    let s3 = set_flags_szp s2 result w in if count == 0 then s else write_rm s3 d result

-- `x >> k` on an `int32_t`: the quotient by 2 ^ k, rounded down.
unfoldable pub shift_right : ℤ → ℕ → ℤ
shift_right (pos n) k = pos (n / 2 ^ k)
shift_right (negsuc n) k = negsuc (n / 2 ^ k)

unfoldable pub exec_sar : Emu86State → DecodeContext → ℕ → Emu86State
exec_sar s d count =
    let w = d.operand_width in
    let bits = bits_of w in
    let val = read_rm s d in
    let sval = if is_set w then int16 val else int8 val in
    let s1 = update_flag s flag_cf (bit_and (to_u32 (shift_right sval (count - 1))) 1) in
    let sresult = shift_right sval count in
    let signs = if ltb_ℤ sval (pos 0) then mask w else 0 in
    let result = if leb bits count then signs else bit_and (to_u32 sresult) (mask w) in
    let s2 = update_flag s1 flag_of 0 in
    let s3 = set_flags_szp s2 result w in if count == 0 then s else write_rm s3 d result

-- `count %= bits; if (count == 0) count = bits;`
abbrev pub rotation : ℕ → ℕ → ℕ
rotation count bits = if count % bits == 0 then bits else count % bits

unfoldable pub exec_rol : Emu86State → DecodeContext → ℕ → Emu86State
exec_rol s d count =
    let w = d.operand_width in
    let bits = bits_of w in
    let val = read_rm s d in
    let n = rotation count bits in
    let result = bit_and (bit_or (u32 (val * 2 ^ n)) (val / 2 ^ (bits - n))) (mask w) in
    let s1 = update_flag s flag_cf (bit_and result 1) in
    let s2 = update_flag s1 flag_of (bit_xor (sign_of result w) (get_flag s1 flag_cf)) in
    if count == 0 then s else write_rm s2 d result

unfoldable pub exec_ror : Emu86State → DecodeContext → ℕ → Emu86State
exec_ror s d count =
    let w = d.operand_width in
    let bits = bits_of w in
    let val = read_rm s d in
    let n = rotation count bits in
    let result = bit_and (bit_or (val / 2 ^ n) (u32 (val * 2 ^ (bits - n)))) (mask w) in
    let s1 = update_flag s flag_cf (sign_of result w) in
    let s2 =
      update_flag s1 flag_of (bit_xor (sign_of result w) (bit_and (result / 2 ^ (bits - 2)) 1)) in
    if count == 0 then s else write_rm s2 d result

-- The loops of RCL and RCR, with the rounds left as the argument of the recursion. The result is
-- the value beside the carry.
unfoldable pub rcl_loop : ℕ → ℕ → ℕ → ℕ → ℕ × ℕ
rcl_loop w zero val cf = (val, cf)
rcl_loop w (suc n) val cf =
    rcl_loop w n (bit_and (bit_or (u32 (val * 2 ^ 1)) cf) (mask w))
      (bit_and (val / 2 ^ (bits_of w - 1)) 1)

unfoldable pub rcr_loop : ℕ → ℕ → ℕ → ℕ → ℕ × ℕ
rcr_loop w zero val cf = (val, cf)
rcr_loop w (suc n) val cf =
    rcr_loop w n (bit_and (bit_or (val / 2 ^ 1) (u32 (cf * 2 ^ (bits_of w - 1)))) (mask w))
      (bit_and val 1)

unfoldable pub exec_rcl : Emu86State → DecodeContext → ℕ → Emu86State
exec_rcl s d count =
    let w = d.operand_width in
    let bits = bits_of w in
    let (val, cf) = rcl_loop w (count % (bits + 1)) (read_rm s d) (get_flag s flag_cf) in
    let s1 = update_flag s flag_cf cf in
    let s2 = update_flag s1 flag_of (bit_xor (sign_of val w) cf) in
    if count == 0 then s else write_rm s2 d val

unfoldable pub exec_rcr : Emu86State → DecodeContext → ℕ → Emu86State
exec_rcr s d count =
    let w = d.operand_width in
    let bits = bits_of w in
    let (val, cf) = rcr_loop w (count % (bits + 1)) (read_rm s d) (get_flag s flag_cf) in
    let s1 = update_flag s flag_cf cf in
    let s2 = update_flag s1 flag_of (bit_xor (sign_of val w) (bit_and (val / 2 ^ (bits - 2)) 1)) in
    if count == 0 then s else write_rm s2 d val

unfoldable pub exec_shift_rotate : Emu86State → DecodeContext → ℕ → Emu86State
exec_shift_rotate s d count =
    if d.reg == 0
    then exec_rol s d count
    else if d.reg == 1
    then exec_ror s d count
    else if d.reg == 2
    then exec_rcl s d count
    else if d.reg == 3
    then exec_rcr s d count
    else if d.reg == 4
    then exec_shl s d count
    else if d.reg == 5
    then exec_shr s d count
    else if d.reg == 6
    then exec_shl s d count
    else if d.reg == 7
    then exec_sar s d count
    else s
