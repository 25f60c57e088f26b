-- ===== src/Opcodes/Transfer/Words.antt =====
-- Transfers and the stack keep the ranges of the fields.
use huxley.Base.{ℕ}
use huxley.State.{Emu86State}
use huxley.State.Words.{IsWords}
use huxley.State.Updates.{state_words}
use huxley.Context.{DecodeContext}
use huxley.Access.Words.{access_words}
use huxley.Opcodes.Helpers.Words.{flag_words}
use huxley.Base.{arith, bit_and, u16}
use huxley.Base.Bits.{bit_or-lt, bit_and-lt}
use huxley.State.Updates.{flags-IsWords}
use huxley.Opcodes.Transfer.{stack_push, stack_pop, flags_unpack, exec_mov_rm_reg, exec_mov_reg_imm}
use huxley.Opcodes.Transfer.{
  exec_mov_rm_imm, exec_mov_al_moffs, exec_mov_moffs_al, exec_mov_sreg_rm, exec_mov_rm_sreg,
}
use huxley.Opcodes.Transfer.{exec_push_reg, exec_pop_reg, exec_push_rm, exec_pop_rm, exec_push_sreg}
use huxley.Opcodes.Transfer.{exec_pop_sreg, exec_pushf, exec_popf, exec_xchg, exec_xchg_ax_reg}
use huxley.Opcodes.Transfer.{exec_lds, exec_les, exec_cbw, exec_cwd, exec_xlat}
use huxley.Opcodes.Transfer.{exec_lahf, exec_sahf}

ruleset stores = (state_words, access_words, flag_words)

pub stack_push-IsWords : {s : Emu86State} (n : ℕ) → IsWords s → IsWords (stack_push s n)
unfolding stack_push
stack_push-IsWords n v = search (stores) depth 14

pub stack_pop-IsWords : {s : Emu86State} → IsWords s → IsWords (stack_pop s).1
unfolding stack_pop
stack_pop-IsWords v = search (stores) depth 14

pub flags_unpack-IsWords : {s : Emu86State} (n : ℕ) → IsWords s → IsWords (flags_unpack s n)
unfolding flags_unpack
flags_unpack-IsWords n v =
    flags-IsWords
      (bit_or-lt (bit_and (u16 n) 0x0FD5) 2 16 (bit_and-lt (u16 n) 0x0FD5 _ (omega arith))
        (omega arith))
      v

ruleset parts = (stores, stack_push-IsWords, stack_pop-IsWords, flags_unpack-IsWords)

pub exec_mov_rm_reg-IsWords :
    {s : Emu86State} (d : DecodeContext) → IsWords s → IsWords (exec_mov_rm_reg s d)
unfolding exec_mov_rm_reg
exec_mov_rm_reg-IsWords d v = search (parts) depth 14

pub exec_mov_reg_imm-IsWords :
    {s : Emu86State} (d : DecodeContext) → IsWords s → IsWords (exec_mov_reg_imm s d)
unfolding exec_mov_reg_imm
exec_mov_reg_imm-IsWords d v = search (parts) depth 14

pub exec_mov_rm_imm-IsWords :
    {s : Emu86State} (d : DecodeContext) → IsWords s → IsWords (exec_mov_rm_imm s d)
unfolding exec_mov_rm_imm
exec_mov_rm_imm-IsWords d v = search (parts) depth 14

pub exec_mov_al_moffs-IsWords :
    {s : Emu86State} (d : DecodeContext) → IsWords s → IsWords (exec_mov_al_moffs s d)
unfolding exec_mov_al_moffs
exec_mov_al_moffs-IsWords d v = search (parts) depth 14

pub exec_mov_moffs_al-IsWords :
    {s : Emu86State} (d : DecodeContext) → IsWords s → IsWords (exec_mov_moffs_al s d)
unfolding exec_mov_moffs_al
exec_mov_moffs_al-IsWords d v = search (parts) depth 14

pub exec_mov_sreg_rm-IsWords :
    {s : Emu86State} (d : DecodeContext) → IsWords s → IsWords (exec_mov_sreg_rm s d)
unfolding exec_mov_sreg_rm
exec_mov_sreg_rm-IsWords d v = search (parts) depth 14

pub exec_mov_rm_sreg-IsWords :
    {s : Emu86State} (d : DecodeContext) → IsWords s → IsWords (exec_mov_rm_sreg s d)
unfolding exec_mov_rm_sreg
exec_mov_rm_sreg-IsWords d v = search (parts) depth 14

pub exec_push_reg-IsWords : {s : Emu86State} (n1 : ℕ) → IsWords s → IsWords (exec_push_reg s n1)
unfolding exec_push_reg
exec_push_reg-IsWords n1 v = search (parts) depth 14

pub exec_pop_reg-IsWords : {s : Emu86State} (n1 : ℕ) → IsWords s → IsWords (exec_pop_reg s n1)
unfolding exec_pop_reg
exec_pop_reg-IsWords n1 v = search (parts) depth 14

pub exec_push_rm-IsWords :
    {s : Emu86State} (d : DecodeContext) → IsWords s → IsWords (exec_push_rm s d)
unfolding exec_push_rm
exec_push_rm-IsWords d v = search (parts) depth 14

pub exec_pop_rm-IsWords :
    {s : Emu86State} (d : DecodeContext) → IsWords s → IsWords (exec_pop_rm s d)
unfolding exec_pop_rm
exec_pop_rm-IsWords d v = search (parts) depth 14

pub exec_push_sreg-IsWords : {s : Emu86State} (n1 : ℕ) → IsWords s → IsWords (exec_push_sreg s n1)
unfolding exec_push_sreg
exec_push_sreg-IsWords n1 v = search (parts) depth 14

pub exec_pop_sreg-IsWords : {s : Emu86State} (n1 : ℕ) → IsWords s → IsWords (exec_pop_sreg s n1)
unfolding exec_pop_sreg
exec_pop_sreg-IsWords n1 v = search (parts) depth 14

pub exec_pushf-IsWords : {s : Emu86State} → IsWords s → IsWords (exec_pushf s)
unfolding exec_pushf
exec_pushf-IsWords v = search (parts) depth 14

pub exec_popf-IsWords : {s : Emu86State} → IsWords s → IsWords (exec_popf s)
unfolding exec_popf
exec_popf-IsWords v = search (parts) depth 14

pub exec_xchg-IsWords : {s : Emu86State} (d : DecodeContext) → IsWords s → IsWords (exec_xchg s d)
unfolding exec_xchg
exec_xchg-IsWords d v = search (parts) depth 14

pub exec_xchg_ax_reg-IsWords :
    {s : Emu86State} (n1 : ℕ) → IsWords s → IsWords (exec_xchg_ax_reg s n1)
unfolding exec_xchg_ax_reg
exec_xchg_ax_reg-IsWords n1 v = search (parts) depth 14

pub exec_lds-IsWords : {s : Emu86State} (d : DecodeContext) → IsWords s → IsWords (exec_lds s d)
unfolding exec_lds
exec_lds-IsWords d v = search (parts) depth 14

pub exec_les-IsWords : {s : Emu86State} (d : DecodeContext) → IsWords s → IsWords (exec_les s d)
unfolding exec_les
exec_les-IsWords d v = search (parts) depth 14

pub exec_cbw-IsWords : {s : Emu86State} → IsWords s → IsWords (exec_cbw s)
unfolding exec_cbw
exec_cbw-IsWords v = search (parts) depth 14

pub exec_cwd-IsWords : {s : Emu86State} → IsWords s → IsWords (exec_cwd s)
unfolding exec_cwd
exec_cwd-IsWords v = search (parts) depth 14

pub exec_xlat-IsWords : {s : Emu86State} → IsWords s → IsWords (exec_xlat s)
unfolding exec_xlat
exec_xlat-IsWords v = search (parts) depth 14

pub exec_lahf-IsWords : {s : Emu86State} → IsWords s → IsWords (exec_lahf s)
unfolding exec_lahf
exec_lahf-IsWords v = search (parts) depth 14

pub exec_sahf-IsWords : {s : Emu86State} → IsWords s → IsWords (exec_sahf s)
unfolding exec_sahf
exec_sahf-IsWords v = flags-IsWords (omega arith) v

pub ruleset transfer_words = (
  stack_push-IsWords, stack_pop-IsWords, flags_unpack-IsWords, exec_mov_rm_reg-IsWords,
  exec_mov_reg_imm-IsWords, exec_mov_rm_imm-IsWords, exec_mov_al_moffs-IsWords,
  exec_mov_moffs_al-IsWords, exec_mov_sreg_rm-IsWords, exec_mov_rm_sreg-IsWords,
  exec_push_reg-IsWords, exec_pop_reg-IsWords, exec_push_rm-IsWords, exec_pop_rm-IsWords,
  exec_push_sreg-IsWords, exec_pop_sreg-IsWords, exec_pushf-IsWords, exec_popf-IsWords,
  exec_xchg-IsWords, exec_xchg_ax_reg-IsWords, exec_lds-IsWords, exec_les-IsWords, exec_cbw-IsWords,
  exec_cwd-IsWords, exec_xlat-IsWords, exec_lahf-IsWords, exec_sahf-IsWords,
)
