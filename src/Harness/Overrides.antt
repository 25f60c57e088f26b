-- ===== src/Harness/Overrides.antt =====
-- packages/emu86/harness/overrides.c: what the reference emulator calls instead of the C library.
--
-- The system's `read` is a parameter. A `struct tm` and a `struct timeb` are the lists of their
-- fields.
use huxley.Base.{ℕ, ◌==◌, if◌then◌else◌, Option, none, some, List, [], ◌∷◌}
use huxley.Harness.Keyboard.{KbdQueue, harness_consume_kbd_byte}

-- The bytes read, `none` for an error, and the keyboard's queue and the files behind it.
pub record ReadResult (F : Type 0) : Type 0 where
  pub bytes : Option (List ℕ)
  pub keyboard : KbdQueue
  pub files : F

module _ {F : Type 0} (read : ℕ → ℕ → F → Option (List ℕ) × F) where
  abbrev from_keyboard : KbdQueue → F → ReadResult F
  from_keyboard q files = elim (harness_consume_kbd_byte q) [
    | none ↦ record { bytes = some []; keyboard = q; files = files }
    | some (byte, q') ↦ record { bytes = some (byte ∷ []); keyboard = q'; files = files }
  ]

  unfoldable pub harness_read : ℕ → ℕ → KbdQueue → F → ReadResult F
  harness_read fd count q files =
      let (bytes, files') = read fd count files in
      if fd == 0
      then (if count == 0
          then record { bytes = some []; keyboard = q; files = files }
          else from_keyboard q files)
      else record { bytes = bytes; keyboard = q; files = files' }

-- The result, and what `*t` holds after the call if `t` is not NULL.
unfoldable pub harness_time : Option ℕ → ℕ × Option ℕ
harness_time none = (0, none)
harness_time (some t) = (0, some 0)

-- `time`, `millitm`, `timezone` and `dstflag`, if `tp` is not NULL.
unfoldable pub harness_ftime : Option (List ℕ) → ℕ × Option (List ℕ)
harness_ftime none = (0, none)
harness_ftime (some tp) = (0, some (0 ∷ 0 ∷ 0 ∷ 0 ∷ []))

-- The nine fields of `zero_tm`, from `tm_sec` to `tm_isdst`.
unfoldable pub harness_localtime : ℕ → List ℕ
harness_localtime t = 0 ∷ 0 ∷ 0 ∷ 0 ∷ 0 ∷ 0 ∷ 0 ∷ 0 ∷ 0 ∷ []
