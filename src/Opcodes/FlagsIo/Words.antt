-- ===== src/Opcodes/FlagsIo/Words.antt =====
-- The flag and port instructions keep the ranges of the fields.
use huxley.Base.{ℕ, zero, suc, ◌+◌}
use huxley.State.{Emu86State}
use huxley.State.Words.{IsWords}
use huxley.State.Updates.{state_words}
use huxley.Access.{mem_write8}
use huxley.Access.Words.{access_words, mem_write8-IsWords}
use huxley.Opcodes.Helpers.Words.{flag_words}
use huxley.Base.{arith}
use huxley.State.Updates.{parts-IsWords, flags-IsWords}
use huxley.Opcodes.FlagsIo.{
  clear_tm, exec_hlt, exec_cmc, exec_segment_override, exec_rep_prefix, write_rtc,
}
use huxley.Opcodes.FlagsIo.{exec_clc, exec_stc, exec_cli, exec_sti, exec_cld}
use huxley.Opcodes.FlagsIo.{exec_std, exec_in_al_imm, exec_in_ax_imm, exec_in_al_dx, exec_in_ax_dx}
use huxley.Opcodes.FlagsIo.{
  exec_out_imm_al, exec_out_imm_ax, exec_out_dx_al, exec_out_dx_ax, exec_salc,
}

ruleset parts = (state_words, access_words, flag_words)

pub exec_hlt-IsWords : {s : Emu86State} → IsWords s → IsWords (exec_hlt s)
unfolding exec_hlt
exec_hlt-IsWords v = parts-IsWords v.regs v.sregs v.mem v.io_ports (omega arith) v.devices

pub exec_cmc-IsWords : {s : Emu86State} → IsWords s → IsWords (exec_cmc s)
unfolding exec_cmc
exec_cmc-IsWords v = flags-IsWords (omega arith) v

pub exec_segment_override-IsWords :
    {s : Emu86State} (n : ℕ) → IsWords s → IsWords (exec_segment_override s n)
unfolding exec_segment_override
exec_segment_override-IsWords n v =
    parts-IsWords v.regs v.sregs v.mem v.io_ports (omega arith) v.devices

pub exec_rep_prefix-IsWords : {s : Emu86State} (n : ℕ) → IsWords s → IsWords (exec_rep_prefix s n)
unfolding exec_rep_prefix
exec_rep_prefix-IsWords n v = parts-IsWords v.regs v.sregs v.mem v.io_ports (omega arith) v.devices

clear_tm-IsWords : {s : Emu86State} (n a : ℕ) → IsWords s → IsWords (clear_tm n s a)
clear_tm-IsWords zero a v = v
clear_tm-IsWords {s} (suc n) a v =
    clear_tm-IsWords {s = mem_write8 s a 0} n (a + 1) (mem_write8-IsWords a 0 v)

pub write_rtc-IsWords : {s : Emu86State} (us : ℕ) → IsWords s → IsWords (write_rtc s us)
unfolding write_rtc
write_rtc-IsWords us v = search (parts, clear_tm-IsWords) depth 14

pub exec_clc-IsWords : {s : Emu86State} → IsWords s → IsWords (exec_clc s)
unfolding exec_clc
exec_clc-IsWords v = search (parts) depth 14

pub exec_stc-IsWords : {s : Emu86State} → IsWords s → IsWords (exec_stc s)
unfolding exec_stc
exec_stc-IsWords v = search (parts) depth 14

pub exec_cli-IsWords : {s : Emu86State} → IsWords s → IsWords (exec_cli s)
unfolding exec_cli
exec_cli-IsWords v = search (parts) depth 14

pub exec_sti-IsWords : {s : Emu86State} → IsWords s → IsWords (exec_sti s)
unfolding exec_sti
exec_sti-IsWords v = search (parts) depth 14

pub exec_cld-IsWords : {s : Emu86State} → IsWords s → IsWords (exec_cld s)
unfolding exec_cld
exec_cld-IsWords v = search (parts) depth 14

pub exec_std-IsWords : {s : Emu86State} → IsWords s → IsWords (exec_std s)
unfolding exec_std
exec_std-IsWords v = search (parts) depth 14

pub exec_in_al_imm-IsWords : {s : Emu86State} (n1 : ℕ) → IsWords s → IsWords (exec_in_al_imm s n1)
unfolding exec_in_al_imm
exec_in_al_imm-IsWords n1 v = search (parts) depth 14

pub exec_in_ax_imm-IsWords : {s : Emu86State} (n1 : ℕ) → IsWords s → IsWords (exec_in_ax_imm s n1)
unfolding exec_in_ax_imm
exec_in_ax_imm-IsWords n1 v = search (parts) depth 14

pub exec_in_al_dx-IsWords : {s : Emu86State} → IsWords s → IsWords (exec_in_al_dx s)
unfolding exec_in_al_dx
exec_in_al_dx-IsWords v = search (parts) depth 14

pub exec_in_ax_dx-IsWords : {s : Emu86State} → IsWords s → IsWords (exec_in_ax_dx s)
unfolding exec_in_ax_dx
exec_in_ax_dx-IsWords v = search (parts) depth 14

pub exec_out_imm_al-IsWords : {s : Emu86State} (n1 : ℕ) → IsWords s → IsWords (exec_out_imm_al s n1)
unfolding exec_out_imm_al
exec_out_imm_al-IsWords n1 v = search (parts) depth 14

pub exec_out_imm_ax-IsWords : {s : Emu86State} (n1 : ℕ) → IsWords s → IsWords (exec_out_imm_ax s n1)
unfolding exec_out_imm_ax
exec_out_imm_ax-IsWords n1 v = search (parts) depth 14

pub exec_out_dx_al-IsWords : {s : Emu86State} → IsWords s → IsWords (exec_out_dx_al s)
unfolding exec_out_dx_al
exec_out_dx_al-IsWords v = search (parts) depth 14

pub exec_out_dx_ax-IsWords : {s : Emu86State} → IsWords s → IsWords (exec_out_dx_ax s)
unfolding exec_out_dx_ax
exec_out_dx_ax-IsWords v = search (parts) depth 14

pub exec_salc-IsWords : {s : Emu86State} → IsWords s → IsWords (exec_salc s)
unfolding exec_salc
exec_salc-IsWords v = search (parts) depth 14

pub ruleset flags_io_words = (
  exec_hlt-IsWords, exec_cmc-IsWords, exec_segment_override-IsWords, exec_rep_prefix-IsWords,
  write_rtc-IsWords, exec_clc-IsWords, exec_stc-IsWords, exec_cli-IsWords, exec_sti-IsWords,
  exec_cld-IsWords, exec_std-IsWords, exec_in_al_imm-IsWords, exec_in_ax_imm-IsWords,
  exec_in_al_dx-IsWords, exec_in_ax_dx-IsWords, exec_out_imm_al-IsWords, exec_out_imm_ax-IsWords,
  exec_out_dx_al-IsWords, exec_out_dx_ax-IsWords, exec_salc-IsWords,
)
