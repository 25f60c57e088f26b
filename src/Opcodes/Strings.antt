-- ===== src/Opcodes/Strings.antt =====
-- opcodes/string.h: the string instructions and the REP loop.
pub mod Words
pub mod Rounds
use huxley.Base.{ℕ, zero, suc, ◌+◌, bit_and, ltb, ◌==◌, not, ◌&&◌, ◌||◌, Bool, is_set}
use huxley.Base.{if◌then◌else◌, u8, sub16, sub32}
use huxley.State.{Emu86State, reg_ax, reg_cx, reg_si, reg_di, sreg_es, sreg_ds}
use huxley.State.{flag_zf, flag_df, set_reg}
use huxley.Context.{DecodeContext}
use huxley.Access.{segoff_to_linear, mem_read8, mem_write8, mem_read16, mem_write16}
use huxley.Opcodes.Helpers.{get_flag, set_flags_sub, set_flags_szp}
use huxley.Opcodes.Transfer.{with_al}

unfoldable pub index_advance : Emu86State → ℕ → ℕ → Emu86State
index_advance s reg width =
    let delta = if is_set width then 2 else 1 in
    if is_set (get_flag s flag_df)
    then set_reg s reg (sub16 (s.regs reg) delta)
    else set_reg s reg (s.regs reg + delta)

unfoldable pub string_src_seg : Emu86State → ℕ
string_src_seg s = if is_set s.seg_override_en then s.sregs s.seg_override else s.sregs sreg_ds

-- The linear addresses of the source, `src_seg:SI`, and of the destination, `ES:DI`.
abbrev pub src_addr : Emu86State → ℕ
src_addr s = segoff_to_linear (string_src_seg s) (s.regs reg_si)

abbrev pub dst_addr : Emu86State → ℕ
dst_addr s = segoff_to_linear (s.sregs sreg_es) (s.regs reg_di)

unfoldable pub exec_movsb : Emu86State → Emu86State
exec_movsb s =
    let s1 = mem_write8 s (dst_addr s) (mem_read8 s (src_addr s)) in
    index_advance (index_advance s1 reg_si 0) reg_di 0

unfoldable pub exec_movsw : Emu86State → Emu86State
exec_movsw s =
    let s1 = mem_write16 s (dst_addr s) (mem_read16 s (src_addr s)) in
    index_advance (index_advance s1 reg_si 1) reg_di 1

unfoldable pub exec_cmpsb : Emu86State → Emu86State
exec_cmpsb s =
    let src_val = mem_read8 s (src_addr s) in
    let dst_val = mem_read8 s (dst_addr s) in
    let result = sub32 src_val dst_val in
    let s1 = set_flags_sub s src_val dst_val result 0 in
    let s2 = set_flags_szp s1 result 0 in index_advance (index_advance s2 reg_si 0) reg_di 0

unfoldable pub exec_cmpsw : Emu86State → Emu86State
exec_cmpsw s =
    let src_val = mem_read16 s (src_addr s) in
    let dst_val = mem_read16 s (dst_addr s) in
    let result = sub32 src_val dst_val in
    let s1 = set_flags_sub s src_val dst_val result 1 in
    let s2 = set_flags_szp s1 result 1 in index_advance (index_advance s2 reg_si 1) reg_di 1

unfoldable pub exec_stosb : Emu86State → Emu86State
exec_stosb s = index_advance (mem_write8 s (dst_addr s) (u8 (s.regs reg_ax))) reg_di 0

unfoldable pub exec_stosw : Emu86State → Emu86State
exec_stosw s = index_advance (mem_write16 s (dst_addr s) (s.regs reg_ax)) reg_di 1

unfoldable pub exec_lodsb : Emu86State → Emu86State
exec_lodsb s = index_advance (set_reg s reg_ax (with_al s (mem_read8 s (src_addr s)))) reg_si 0

unfoldable pub exec_lodsw : Emu86State → Emu86State
exec_lodsw s = index_advance (set_reg s reg_ax (mem_read16 s (src_addr s))) reg_si 1

unfoldable pub exec_scasb : Emu86State → Emu86State
exec_scasb s =
    let al = u8 (s.regs reg_ax) in
    let mem_val = mem_read8 s (dst_addr s) in
    let result = sub32 al mem_val in
    let s1 = set_flags_sub s al mem_val result 0 in
    let s2 = set_flags_szp s1 result 0 in index_advance s2 reg_di 0

unfoldable pub exec_scasw : Emu86State → Emu86State
exec_scasw s =
    let ax = s.regs reg_ax in
    let mem_val = mem_read16 s (dst_addr s) in
    let result = sub32 ax mem_val in
    let s1 = set_flags_sub s ax mem_val result 1 in
    let s2 = set_flags_szp s1 result 1 in index_advance s2 reg_di 1

-- The `switch (op)` of `exec_string_op`, which stands in it twice.
unfoldable pub string_step : ℕ → ℕ → Emu86State → Emu86State
string_step w op s =
    if op == 0xA4
    then (if is_set w then exec_movsw s else exec_movsb s)
    else if op == 0xA6
    then (if is_set w then exec_cmpsw s else exec_cmpsb s)
    else if op == 0xAA
    then (if is_set w then exec_stosw s else exec_stosb s)
    else if op == 0xAC
    then (if is_set w then exec_lodsw s else exec_lodsb s)
    else if op == 0xAE
    then (if is_set w then exec_scasw s else exec_scasb s)
    else s

-- `is_cmp`
abbrev pub is_compare : ℕ → Bool
is_compare op = op == 0xA6 || op == 0xAE

-- The two `break`s at the end of a round of CMPS or SCAS.
abbrev pub rep_stops : ℕ → ℕ → Emu86State → Bool
rep_stops op rep_mode s =
    (is_compare op && ltb 0 (s.regs reg_cx))
    && ((rep_mode == 1 && not (is_set (get_flag s flag_zf)))
        || (rep_mode == 0 && is_set (get_flag s flag_zf)))

-- One round of the REP loop, up to its `break`s.
unfoldable pub rep_round : ℕ → ℕ → Emu86State → Emu86State
rep_round w op s = let s1 = string_step w op s in set_reg s1 reg_cx (sub16 (s1.regs reg_cx) 1)

-- `while (CX != 0)`; the first argument bounds the rounds.
unfoldable pub rep_loop : ℕ → ℕ → ℕ → ℕ → Emu86State → Emu86State
rep_loop zero w op rep_mode s = s
rep_loop (suc fuel) w op rep_mode s =
    let s1 = rep_round w op s in
    let rest = rep_loop fuel w op rep_mode s1 in
    if s.regs reg_cx == 0 then s else if rep_stops op rep_mode s1 then s1 else rest

-- Every round takes 1 from CX, so CX rounds are enough.
unfoldable pub exec_string_op : Emu86State → DecodeContext → Emu86State
exec_string_op s d =
    let w = d.operand_width in
    let op = bit_and d.opcode 0xFE in
    if ltb 0 s.rep_override_en
    then rep_loop (s.regs reg_cx) w op s.rep_mode s
    else string_step w op s
