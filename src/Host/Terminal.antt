-- ===== src/Host/Terminal.antt =====
-- packages/emu86/src/hosts/linux/platform_linux.c: the settings of the terminal, and the release of
-- a ring.
--
-- The constants of the system's headers are a parameter. The calls on the terminal succeed.
use huxley.Base.{ℕ, ◌-◌, bit_and, bit_or, is_set, if◌then◌else◌, false}
use huxley.Platform.{Emu86RingBuf}

pub record Termios : Type 0 where
  pub c_lflag : ℕ
  pub c_iflag : ℕ
  pub c_oflag : ℕ
  pub c_cflag : ℕ
  pub vmin : ℕ
  pub vtime : ℕ

pub record TermiosFlags : Type 0 where
  pub echo : ℕ
  pub icanon : ℕ
  pub isig : ℕ
  pub iexten : ℕ
  pub ixon : ℕ
  pub icrnl : ℕ
  pub brkint : ℕ
  pub inpck : ℕ
  pub istrip : ℕ
  pub opost : ℕ
  pub cs8 : ℕ
  pub o_nonblock : ℕ

-- The terminal's settings and the status flags of standard input, with the two variables.
pub record Terminal : Type 0 where
  pub settings : Termios
  pub status : ℕ
  pub orig_termios : Termios
  pub terminal_raw : ℕ

-- `n & ~mask` in 32 bits
abbrev pub clear_bits : ℕ → ℕ → ℕ
clear_bits n mask = bit_and n (0xFFFF_FFFF - mask)

module _ (c : TermiosFlags) where
  unfoldable pub raw_settings : Termios → Termios
  raw_settings t = record {
    c_lflag = clear_bits t.c_lflag (bit_or (bit_or (bit_or c.echo c.icanon) c.isig) c.iexten);
    c_iflag =
        clear_bits t.c_iflag
          (bit_or (bit_or (bit_or (bit_or c.ixon c.icrnl) c.brkint) c.inpck) c.istrip);
    c_oflag = clear_bits t.c_oflag c.opost;
    c_cflag = bit_or t.c_cflag c.cs8;
    vmin = 0;
    vtime = 0;
  }

  unfoldable pub terminal_init : Terminal → Terminal
  unfolding raw_settings
  terminal_init t = if is_set t.terminal_raw then t else record {
    settings = raw_settings t.settings;
    status = bit_or t.status c.o_nonblock;
    orig_termios = t.settings;
    terminal_raw = 1;
  }

  unfoldable pub terminal_restore : Terminal → Terminal
  terminal_restore t =
      if is_set t.terminal_raw
      then record t {
        settings = t.orig_termios;
        status = clear_bits t.status c.o_nonblock;
        terminal_raw = 0;
      }
      else t

unfoldable pub free_ring_buffer : Emu86RingBuf → Emu86RingBuf
free_ring_buffer rb = record rb { attached = false }
