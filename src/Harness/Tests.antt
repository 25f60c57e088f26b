-- ===== src/Harness/Tests.antt =====
-- The control plane and the comparison at concrete variables and states.
use huxley.Base.{ℕ, ◌≡◌, ◌<◌, ◌⊎◌, ◌↔◌, refl, arith, is_set, true, false}
use huxley.Base.{List, [], ◌∷◌, ◌++◌, length, none, some}
use huxley.State.{Emu86State, zeroed, set_reg, reg_ax}
use huxley.Harness.Text.{codes, is_same, take, decimal}
use huxley.Harness.Control.{
  Control, ControlVar, vt_bool, vt_u64, poke, lookup_var, harness_control_handle,
}
use huxley.Harness.Replies.{length-harness_control_handle}
use huxley.Harness.Writes.{Effect, harness_control_handle-Effect}
use huxley.Harness.Settings.{IsName, harness_control_handle_get-set}
use huxley.Platform.{Emu86RingBuf}
use huxley.Platform.Wrap.{IsRing}
use huxley.Harness.Keyboard.{KbdQueue, harness_consume_kbd_byte, drain_kbd_fifo, replicate_kbd_byte}
use huxley.Harness.Keyboard.Queue.{IsQueue, kbd_bytes}
use huxley.Harness.Keyboard.Queue.{Drained, drain_kbd_fifo-Drained}
use huxley.Harness.Keyboard.Replay.{Offered, replicate-consume}
use huxley.Harness.Reference.{Reference}
use huxley.Harness.Compare.{compare_states_cheap, compare_step}
use huxley.Harness.Agree.{AgreeCheap, Agree, compare_states_cheap-AgreeCheap}
use huxley.Harness.Full.{compare_step-Agree}

abbrev step_limit : ControlVar
step_limit = record { name = codes "step_limit"; type = vt_u64; read_only = 0; ptr = 1 }

abbrev two_vars : Control
two_vars = record {
  registered_vars = some (
      record { name = codes "fast_compare"; type = vt_bool; read_only = 0; ptr = 0 }
      ∷ step_limit
      ∷ []);
  memory = λ i. 5;
}

get_limit :
    harness_control_handle two_vars (codes "\t get step_limit \n") 51
    ≡ (two_vars, some (codes "OK 5"))
unfolding harness_control_handle
get_limit = refl

abbrev reply_size : ℕ
reply_size = 20

reply_length_example :
    ((reply_size ≡ 0)
      × (harness_control_handle two_vars (codes "help") reply_size ≡ (two_vars, none)))
    ⊎ ((c : Control) × (reply : List ℕ) × (harness_control_handle two_vars (codes "help") reply_size
          ≡ (c, some reply))
        × length reply < reply_size)
reply_length_example = length-harness_control_handle two_vars (codes "help") reply_size

set_fast :
    harness_control_handle two_vars (codes "set fast_compare 1") 64
    ≡ (poke two_vars (record step_limit { ptr = 0 }) 1, some (codes "OK fast_compare=1"))
unfolding harness_control_handle
set_fast = refl

Effect_example :
    Effect two_vars 64 (poke two_vars (record step_limit { ptr = 0 }) 1, codes "OK fast_compare=1")
Effect_example =
    harness_control_handle-Effect two_vars (poke two_vars (record step_limit { ptr = 0 }) 1)
      (codes "set fast_compare 1") (codes "OK fast_compare=1") 64 set_fast

step_limit-IsName : IsName (codes "step_limit")
step_limit-IsName = record {
  word = (refl, (refl, (refl, (refl, (refl, (refl, (refl, (refl, (refl, (refl, tt))))))))));
  nonempty = refl;
  short = omega arith;
}

not_all : is_same (codes "step_limit") (codes "all") ≡ false
unfolding is_same
not_all = refl

found_limit : lookup_var two_vars (codes "step_limit") ≡ some step_limit
unfolding lookup_var is_same
found_limit = refl

setting_example :
    (harness_control_handle two_vars (codes "set " ++ (codes "step_limit" ++ b' ' ∷ decimal 700)) 31
      ≡ (
        poke two_vars step_limit 700,
        some (take 30 (codes "OK " ++ codes "step_limit" ++ codes "=" ++ decimal 700)),
      ))
    × (harness_control_handle (poke two_vars step_limit 700) (codes "get " ++ codes "step_limit") 31
        ≡ (poke two_vars step_limit 700, some (take 30 (codes "OK " ++ decimal 700))))
setting_example =
    harness_control_handle_get-set two_vars step_limit (codes "step_limit") 700 30 step_limit-IsName
      not_all found_limit refl refl (omega arith)

-- A reference that stands at AX = 3, with IF set.
abbrev at_three : Reference
at_three = record {
  mem = λ a. 0;
  io_ports = λ p. 0;
  regs16 = λ i. 3;
  regs8 = λ i. 1;
  reg_ip = 0x100;
  inst_counter = 9;
  int8_asap = 0;
  trap_flag = 0;
  seg_override_en = 2;
  seg_override = 9;
  rep_override_en = 0;
  rep_mode = 0;
  spkr_en = 0;
  io_hi_lo = 0;
}

abbrev other : Emu86State
other = set_reg zeroed reg_ax 4

cheap_example : ((compare_states_cheap other at_three).0 ≡ 0) ↔ AgreeCheap other at_three
cheap_example = compare_states_cheap-AgreeCheap other at_three

compare_step_example : ((compare_step 1 other at_three 7 2).dflags ≡ 0) ↔ (
    Agree other at_three
    ⊎ (AgreeCheap other at_three
        × (is_set 1 ≡ true)
        × (other.rep_override_en ≡ 0)
        × (at_three.rep_override_en ≡ 0)))
compare_step_example = compare_step-Agree 1 other at_three 7 2

-- A queue whose tail has wrapped, with one byte free.
abbrev wrapped : KbdQueue
wrapped = record {
  kbd_queue = λ i. i;
  kbd_queue_head = 0xFFFF_FF08;
  kbd_queue_tail = 7;
  last_consumed_byte = 0;
  last_consumed_byte_present = 0;
}

wrapped-IsQueue : IsQueue wrapped
wrapped-IsQueue = record { head = omega arith; tail = omega arith; used = omega arith }

drain_example :
    Drained (drain_kbd_fifo 9 (b'd' ∷ b'i' ∷ b'r' ∷ []) wrapped) wrapped (b'd' ∷ b'i' ∷ b'r' ∷ [])
drain_example =
    drain_kbd_fifo-Drained 9 (b'd' ∷ b'i' ∷ b'r' ∷ []) wrapped wrapped-IsQueue (omega arith)

abbrev empty_ring : Emu86RingBuf
empty_ring = record { attached = true; buf = λ i. 0; size = 8; head = 0; tail = 0 }

empty_ring-IsRing : IsRing 3 empty_ring
empty_ring-IsRing = record {
  small = omega arith;
  size = refl;
  head = omega arith;
  tail = omega arith;
}

abbrev consumed : KbdQueue
consumed = record wrapped {
  kbd_queue_head = 0xFFFF_FF09;
  last_consumed_byte = 8;
  last_consumed_byte_present = 1;
}

consume_wrapped : harness_consume_kbd_byte wrapped ≡ some (8, consumed)
unfolding harness_consume_kbd_byte
consume_wrapped = refl

replay_example :
    (kbd_bytes wrapped ≡ 8 ∷ kbd_bytes consumed)
    × ((replicate_kbd_byte consumed empty_ring).0.last_consumed_byte_present ≡ 0)
    × Offered 8 empty_ring (replicate_kbd_byte consumed empty_ring).1
replay_example =
    replicate-consume 3 wrapped consumed empty_ring 8 wrapped-IsQueue empty_ring-IsRing
      consume_wrapped
