-- ===== src/Opcodes/FlagsIo/Bios.antt =====
-- The emulator's BIOS calls keep the ranges of the fields, whatever the host answers.
use huxley.Base.{◌≡◌, arith, Bool, true, false, if◌then◌else◌, Option-cases, inl, inr}
use huxley.State.{Emu86State}
use huxley.State.Words.{IsWords}
use huxley.State.Updates.{set_reg-IsWords, store-IsWords}
use huxley.Platform.{Emu86Platform}
use huxley.Opcodes.FlagsIo.{exec_bios_putchar, exec_bios_get_rtc, exec_bios_disk_read}
use huxley.Opcodes.FlagsIo.{exec_bios_disk_write, rtc_time}
use huxley.Opcodes.FlagsIo.Words.{write_rtc-IsWords}

-- Of the state in front of a pair.
pub if-IsWords_fst {ℓ} :
    {A : Type ℓ} (b : Bool) (p q : Emu86State × A)
    → IsWords p.0
    → IsWords q.0
    → IsWords (if b then p else q).0
if-IsWords_fst true p q v w = v
if-IsWords_fst false p q v w = w

module _ {H : Type 0} {s : Emu86State} (p : Emu86Platform H) (v : IsWords s) where
  state-exec_bios_putchar : (exec_bios_putchar s p).0 ≡ s
  unfolding exec_bios_putchar
  state-exec_bios_putchar = ground arith

  pub exec_bios_putchar-IsWords : IsWords (exec_bios_putchar s p).0
  exec_bios_putchar-IsWords = rw state-exec_bios_putchar v

  pub exec_bios_get_rtc-IsWords : IsWords (exec_bios_get_rtc s p).0
  unfolding exec_bios_get_rtc
  exec_bios_get_rtc-IsWords = write_rtc-IsWords (rtc_time p).0 v

  pub exec_bios_disk_read-IsWords : IsWords (exec_bios_disk_read s p).0
  unfolding exec_bios_disk_read
  exec_bios_disk_read-IsWords = elim (Option-cases p.disk_read) [
    | inl e ↦ rw e v
    | inr (callback, e) ↦ rw e (set_reg-IsWords _ _ (store-IsWords _ _ v))
  ]

  pub exec_bios_disk_write-IsWords : IsWords (exec_bios_disk_write s p).0
  unfolding exec_bios_disk_write
  exec_bios_disk_write-IsWords = elim (Option-cases p.disk_write) [
    | inl e ↦ rw e v
    | inr (callback, e) ↦ rw e (set_reg-IsWords _ _ v)
  ]
