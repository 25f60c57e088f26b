-- ===== src/Opcodes/FlagsIo.antt =====
-- opcodes/flags_io.h: flag instructions, port I/O, prefixes and the emulator's BIOS calls.
-- `io_port_write_hook` has an empty body, so its calls leave no trace. The word forms reach cell
-- `port + 1`: for port 0xFFFF the C array ends before it.
pub mod Words
pub mod Bios
use huxley.Base.{ℕ, ◌+◌, ◌*◌, ◌/◌, ◌%◌, ◌^◌, bit_or, bit_xor, is_set}
use huxley.Base.{Bool, if◌then◌else◌, none, some, u8, u16, u32, u64, cells, store}
use huxley.State.{Emu86State, reg_ax, reg_dx, reg_bx, reg_bp, sreg_es, set_reg, set_port}
use huxley.State.{flag_cf, flag_if, flag_df}
use huxley.Platform.{Emu86Platform, ringbuf_write}
use huxley.Access.{segoff_to_linear, mem_write8, mem_write16}
use huxley.Opcodes.Helpers.{get_flag, set_flag, clear_flag}
use huxley.Opcodes.Transfer.{with_al}

unfoldable pub exec_clc : Emu86State → Emu86State
exec_clc s = clear_flag s flag_cf

unfoldable pub exec_stc : Emu86State → Emu86State
exec_stc s = set_flag s flag_cf

unfoldable pub exec_cmc : Emu86State → Emu86State
exec_cmc s = record s { flags = u16 (bit_xor s.flags flag_cf) }

unfoldable pub exec_cli : Emu86State → Emu86State
exec_cli s = clear_flag s flag_if

unfoldable pub exec_sti : Emu86State → Emu86State
exec_sti s = set_flag s flag_if

unfoldable pub exec_cld : Emu86State → Emu86State
exec_cld s = clear_flag s flag_df

unfoldable pub exec_std : Emu86State → Emu86State
exec_std s = set_flag s flag_df

-- The byte and the word at a port, and the stores to them.
abbrev pub in_al : Emu86State → ℕ → Emu86State
in_al s port = set_reg s reg_ax (with_al s (s.io_ports port))

abbrev pub in_ax : Emu86State → ℕ → Emu86State
in_ax s port = set_reg s reg_ax (bit_or (s.io_ports port) (u16 (s.io_ports (port + 1) * 2 ^ 8)))

abbrev pub out_al : Emu86State → ℕ → Emu86State
out_al s port = set_port s port (u8 (s.regs reg_ax))

abbrev pub out_ax : Emu86State → ℕ → Emu86State
out_ax s port = set_port (out_al s port) (port + 1) (u8 (s.regs reg_ax / 2 ^ 8))

unfoldable pub exec_in_al_imm : Emu86State → ℕ → Emu86State
exec_in_al_imm s port = in_al s (u8 port)

unfoldable pub exec_in_ax_imm : Emu86State → ℕ → Emu86State
exec_in_ax_imm s port = in_ax s (u8 port)

unfoldable pub exec_in_al_dx : Emu86State → Emu86State
exec_in_al_dx s = in_al s (s.regs reg_dx)

unfoldable pub exec_in_ax_dx : Emu86State → Emu86State
exec_in_ax_dx s = in_ax s (s.regs reg_dx)

unfoldable pub exec_out_imm_al : Emu86State → ℕ → Emu86State
exec_out_imm_al s port = out_al s (u8 port)

unfoldable pub exec_out_imm_ax : Emu86State → ℕ → Emu86State
exec_out_imm_ax s port = out_ax s (u8 port)

unfoldable pub exec_out_dx_al : Emu86State → Emu86State
exec_out_dx_al s = out_al s (s.regs reg_dx)

unfoldable pub exec_out_dx_ax : Emu86State → Emu86State
exec_out_dx_ax s = out_ax s (s.regs reg_dx)

unfoldable pub exec_hlt : Emu86State → Emu86State
exec_hlt s = record s { halted = 1 }

unfoldable pub exec_salc : Emu86State → Emu86State
exec_salc s = set_reg s reg_ax (with_al s (if is_set (get_flag s flag_cf) then 0xFF else 0x00))

unfoldable pub exec_segment_override : Emu86State → ℕ → Emu86State
exec_segment_override s sreg = record s { seg_override_en = 2; seg_override = u8 sreg }

unfoldable pub exec_rep_prefix : Emu86State → ℕ → Emu86State
exec_rep_prefix s mode = record s { rep_override_en = 2; rep_mode = u8 mode }

abbrev clear_tm : ℕ → Emu86State → ℕ → Emu86State
clear_tm ℕ.zero s addr = s
clear_tm (ℕ.suc n) s addr = clear_tm n (mem_write8 s addr 0) (addr + 1)

-- The 36 bytes of `struct tm` and two of milliseconds at ES:BX.
unfoldable pub write_rtc : Emu86State → ℕ → Emu86State
write_rtc s us =
    let addr = segoff_to_linear (s.sregs sreg_es) (s.regs reg_bx) in
    let total_secs = u32 (us / 1000000) in
    let secs = total_secs % 60 in
    let mins = total_secs / 60 % 60 in
    let hours = total_secs / 3600 % 24 in
    let s1 = clear_tm 36 s addr in
    let s2 = mem_write16 (mem_write16 s1 addr secs) (addr + 2) 0 in
    let s3 = mem_write16 (mem_write16 s2 (addr + 4) mins) (addr + 6) 0 in
    let s4 = mem_write16 (mem_write16 s3 (addr + 8) hours) (addr + 10) 0 in
    mem_write16 s4 (addr + 36) (u16 (us / 1000 % 1000))

-- AX after a disk call: AL is the low byte of the count, or 0 if the call failed.
abbrev disk_result : Emu86State → Bool → ℕ → ℕ
disk_result s failed count = with_al s (if failed then 0 else u8 count)

-- What an emulator call changes: the machine, and the platform.
abbrev pub Called : Type 0 → Type 0
Called H = Emu86State × Emu86Platform H

module _ {H : Type 0} where
  -- A full console buffer drops the character.
  unfoldable pub exec_bios_putchar : Emu86State → Emu86Platform H → Called H
  exec_bios_putchar s p = elim (ringbuf_write p.console_out (u8 (s.regs reg_ax))) [
    | none ↦ (s, p)
    | some rb ↦ (s, record p { console_out = rb })
  ]

  -- The time source's result is a `uint64_t`; without one the time is 0.
  unfoldable pub rtc_time : Emu86Platform H → ℕ × Emu86Platform H
  rtc_time p = elim p.get_time_us [
    | none ↦ (0, p)
    | some clock ↦ (u64 (clock p.ctx).0, record p { ctx = (clock p.ctx).1 })
  ]

  unfoldable pub exec_bios_get_rtc : Emu86State → Emu86Platform H → Called H
  exec_bios_get_rtc s p = let (us, p1) = rtc_time p in (write_rtc s us, p1)

  unfoldable pub exec_bios_disk_read : Emu86State → Emu86Platform H → Called H
  exec_bios_disk_read s p =
      let drive = u8 (s.regs reg_dx) in
      let offset = u32 (s.regs reg_bp * 2 ^ 9) in
      let count = s.regs reg_ax in
      let addr = segoff_to_linear (s.sregs sreg_es) (s.regs reg_bx) in
      elim p.disk_read [
        | none ↦ (s, p)
        | some callback ↦
            let rc = callback drive offset count p.ctx in
            let s1 = record s { mem = store s.mem addr rc.bytes } in
            (set_reg s1 reg_ax (disk_result s1 rc.failed count), record p { ctx = rc.after })
      ]

  unfoldable pub exec_bios_disk_write : Emu86State → Emu86Platform H → Called H
  exec_bios_disk_write s p =
      let drive = u8 (s.regs reg_dx) in
      let offset = u32 (s.regs reg_bp * 2 ^ 9) in
      let count = s.regs reg_ax in
      let addr = segoff_to_linear (s.sregs sreg_es) (s.regs reg_bx) in
      elim p.disk_write [
        | none ↦ (s, p)
        | some callback ↦
            let rc = callback drive offset (cells s.mem addr count) p.ctx in
            (set_reg s reg_ax (disk_result s rc.failed count), record p { ctx = rc.after })
      ]
