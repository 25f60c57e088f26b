-- ===== src/State/Updates.antt =====
-- Assignments to a field of `Emu86State` keep the ranges of the fields.
use huxley.Base.{
  ℕ, ◌+◌, List, [], ◌∷◌, store, ◌<◌, ◌%◌, ◌^◌, Bool, true, false, if◌then◌else◌, arith, update,
}
use huxley.State.{Emu86State, set_reg, set_sreg, set_ip, set_mem, set_port}
use huxley.State.Words.{IsWords, IsByte, IsWord, DeviceWords}

pub if-IsWords :
    (b : Bool) {s t : Emu86State} → IsWords s → IsWords t → IsWords (if b then s else t)
if-IsWords true v w = v
if-IsWords false v w = w

-- The scalar fields that instructions write.
abbrev pub ControlWords : Emu86State → Type 0
ControlWords s =
    IsWord s.ip
    × IsWord s.flags
    × IsByte s.halted
    × IsByte s.trap_flag
    × IsByte s.int_pending
    × IsByte s.int_vector
    × IsByte s.seg_override_en
    × IsByte s.seg_override
    × IsByte s.rep_override_en
    × IsByte s.rep_mode
    × IsByte s.pit_lobyte_pending
    × IsByte s.spkr_en
    × (s.inst_count < 2 ^ 64)
    × IsByte s.int8_asap

-- The ranges of a state from those of its parts.
pub parts-IsWords :
    {s : Emu86State}
    → ((i : ℕ) → IsWord (s.regs i))
    → ((i : ℕ) → IsWord (s.sregs i))
    → ((i : ℕ) → IsByte (s.mem i))
    → ((i : ℕ) → IsByte (s.io_ports i))
    → ControlWords s
    → DeviceWords s
    → IsWords s
parts-IsWords r g m p c d = record {
  regs = r;
  sregs = g;
  mem = m;
  io_ports = p;
  ip = c.0;
  flags = c.1;
  halted = c.2;
  trap_flag = c.3;
  int_pending = c.4;
  int_vector = c.5;
  seg_override_en = c.6;
  seg_override = c.7;
  rep_override_en = c.8;
  rep_mode = c.9;
  pit_lobyte_pending = c.10;
  spkr_en = c.11;
  inst_count = c.12;
  int8_asap = c.13;
  devices = d;
}

-- A list stored into bytes leaves bytes.
store-lt :
    (f : ℕ → ℕ) (a : ℕ) (bytes : List ℕ)
    → ((i : ℕ) → IsByte (f i))
    → (i : ℕ) → IsByte (store f a bytes i)
unfolding store
store-lt f a [] h i = h i
store-lt f a (x ∷ bytes) h i =
    store-lt (update f a (x % 0x100)) (a + 1) bytes (λ j. ground (arith, h j)) i

module _ {s : Emu86State} where
  pub set_reg-IsWords : (i n : ℕ) → IsWords s → IsWords (set_reg s i n)
  set_reg-IsWords i n v =
      parts-IsWords (λ j. ground (arith, v.regs j)) v.sregs v.mem v.io_ports (omega arith) v.devices

  pub set_sreg-IsWords : (i n : ℕ) → IsWords s → IsWords (set_sreg s i n)
  set_sreg-IsWords i n v =
      parts-IsWords v.regs (λ j. ground (arith, v.sregs j)) v.mem v.io_ports (omega arith) v.devices

  pub set_mem-IsWords : (i n : ℕ) → IsWords s → IsWords (set_mem s i n)
  set_mem-IsWords i n v =
      parts-IsWords v.regs v.sregs (λ j. ground (arith, v.mem j)) v.io_ports (omega arith) v.devices

  pub set_port-IsWords : (i n : ℕ) → IsWords s → IsWords (set_port s i n)
  set_port-IsWords i n v =
      parts-IsWords v.regs v.sregs v.mem (λ j. ground (arith, v.io_ports j)) (omega arith) v.devices

  pub set_ip-IsWords : (n : ℕ) → IsWords s → IsWords (set_ip s n)
  set_ip-IsWords n v = parts-IsWords v.regs v.sregs v.mem v.io_ports (omega arith) v.devices

  pub flags-IsWords : {n : ℕ} → IsWord n → IsWords s → IsWords (record s { flags = n })
  flags-IsWords h v = parts-IsWords v.regs v.sregs v.mem v.io_ports (omega arith) v.devices

  pub set_seg_override_en-IsWords :
      (n : ℕ) → IsByte n → IsWords s → IsWords (record s { seg_override_en = n })
  set_seg_override_en-IsWords n h v =
      parts-IsWords v.regs v.sregs v.mem v.io_ports (omega arith) v.devices

  pub set_rep_override_en-IsWords :
      (n : ℕ) → IsByte n → IsWords s → IsWords (record s { rep_override_en = n })
  set_rep_override_en-IsWords n h v =
      parts-IsWords v.regs v.sregs v.mem v.io_ports (omega arith) v.devices

  pub set_spkr_en-IsWords : (n : ℕ) → IsByte n → IsWords s → IsWords (record s { spkr_en = n })
  set_spkr_en-IsWords n h v = parts-IsWords v.regs v.sregs v.mem v.io_ports (omega arith) v.devices

  pub store-IsWords :
      (a : ℕ) (bytes : List ℕ) → IsWords s → IsWords (record s { mem = store s.mem a bytes })
  store-IsWords a bytes v =
      parts-IsWords v.regs v.sregs (store-lt s.mem a bytes v.mem) v.io_ports (omega arith) v.devices

pub ruleset state_words = (
  if-IsWords, set_reg-IsWords, set_sreg-IsWords, set_mem-IsWords, set_port-IsWords, set_ip-IsWords,
)
