-- ===== src/Opcodes/Strings/Rounds.antt =====
-- The REP loop: how it ends, and that CX rounds are enough.
use huxley.Base.{
  ℕ, zero, suc, ◌+◌, ◌-◌, ◌/◌, ◌%◌, ◌^◌, ◌<◌, ◌≤◌, ◌≡◌, ◌⊎◌, inl, inr, refl, ◌∙◌, ap, arith,
}
use huxley.Base.{ltb, ◌==◌, true, false, Bool-cases, ==-eq, bit_and}
use huxley.State.{Emu86State, reg_cx, reg_si, reg_di, flag_zf}
use huxley.Context.{DecodeContext}
use huxley.Access.{mem_write8, mem_write16}
use huxley.Base.Masks.{mask_test}
use huxley.Opcodes.Helpers.{
  get_flag, set_flag, clear_flag, update_flag, set_flags_szp, set_flags_sub,
}
use huxley.Opcodes.Strings.{index_advance, exec_movsb, exec_movsw, exec_cmpsb, exec_cmpsw}
use huxley.Opcodes.Strings.{exec_stosb, exec_stosw, exec_lodsb, exec_lodsw, exec_scasb, exec_scasw}
use huxley.Opcodes.Strings.{string_step, rep_stops, rep_round, rep_loop, exec_string_op}

cx-index_advance :
    (s : Emu86State) (reg w : ℕ)
    → (reg == reg_cx) ≡ false
    → (index_advance s reg w).regs reg_cx ≡ s.regs reg_cx
unfolding index_advance
cx-index_advance s reg w h = ground arith

regs-set_flags_szp : (s : Emu86State) (r w : ℕ) → (set_flags_szp s r w).regs ≡ s.regs
unfolding set_flags_szp update_flag set_flag clear_flag
regs-set_flags_szp s r w = ground arith

regs-set_flags_sub : (s : Emu86State) (a b r w : ℕ) → (set_flags_sub s a b r w).regs ≡ s.regs
unfolding set_flags_sub update_flag set_flag clear_flag
regs-set_flags_sub s a b r w = ground arith

cx-flags :
    (s : Emu86State) (a b r w : ℕ)
    → (set_flags_szp (set_flags_sub s a b r w) r w).regs reg_cx ≡ s.regs reg_cx
cx-flags s a b r w =
    ap (λ f. f reg_cx)
      (regs-set_flags_szp (set_flags_sub s a b r w) r w ∙ regs-set_flags_sub s a b r w)

cx-both :
    (s : Emu86State) (w : ℕ)
    → (index_advance (index_advance s reg_si w) reg_di w).regs reg_cx ≡ s.regs reg_cx
cx-both s w =
    cx-index_advance (index_advance s reg_si w) reg_di w refl ∙ cx-index_advance s reg_si w refl

-- A string operation leaves CX alone.
cx-string_step : (w op : ℕ) (s : Emu86State) → (string_step w op s).regs reg_cx ≡ s.regs reg_cx
unfolding string_step
cx-string_step w op s = ground (
  arith, cx-exec_movsb, cx-exec_movsw, cx-exec_cmpsb, cx-exec_cmpsw, cx-exec_stosb, cx-exec_stosw,
  cx-exec_lodsb, cx-exec_lodsw, cx-exec_scasb, cx-exec_scasw,
)
  where
    cx-exec_movsb : (exec_movsb s).regs reg_cx ≡ s.regs reg_cx
    cx-exec_movsb = unfold exec_movsb mem_write8 in cx-both _ 0

    cx-exec_movsw : (exec_movsw s).regs reg_cx ≡ s.regs reg_cx
    cx-exec_movsw = unfold exec_movsw mem_write16 in cx-both _ 1

    cx-exec_cmpsb : (exec_cmpsb s).regs reg_cx ≡ s.regs reg_cx
    cx-exec_cmpsb = unfold exec_cmpsb in cx-both _ 0 ∙ cx-flags s _ _ _ 0

    cx-exec_cmpsw : (exec_cmpsw s).regs reg_cx ≡ s.regs reg_cx
    cx-exec_cmpsw = unfold exec_cmpsw in cx-both _ 1 ∙ cx-flags s _ _ _ 1

    cx-exec_stosb : (exec_stosb s).regs reg_cx ≡ s.regs reg_cx
    cx-exec_stosb = unfold exec_stosb mem_write8 in cx-index_advance _ reg_di 0 refl

    cx-exec_stosw : (exec_stosw s).regs reg_cx ≡ s.regs reg_cx
    cx-exec_stosw = unfold exec_stosw mem_write16 in cx-index_advance _ reg_di 1 refl

    cx-exec_lodsb : (exec_lodsb s).regs reg_cx ≡ s.regs reg_cx
    cx-exec_lodsb = unfold exec_lodsb in cx-index_advance _ reg_si 0 refl

    cx-exec_lodsw : (exec_lodsw s).regs reg_cx ≡ s.regs reg_cx
    cx-exec_lodsw = unfold exec_lodsw in cx-index_advance _ reg_si 1 refl

    cx-exec_scasb : (exec_scasb s).regs reg_cx ≡ s.regs reg_cx
    cx-exec_scasb = unfold exec_scasb in cx-index_advance _ reg_di 0 refl ∙ cx-flags s _ _ _ 0

    cx-exec_scasw : (exec_scasw s).regs reg_cx ≡ s.regs reg_cx
    cx-exec_scasw = unfold exec_scasw in cx-index_advance _ reg_di 1 refl ∙ cx-flags s _ _ _ 1

cx-rep_round :
    (w op : ℕ) (s : Emu86State)
    → 0 < s.regs reg_cx
    → s.regs reg_cx < 0x1_0000
    → (rep_round w op s).regs reg_cx ≡ s.regs reg_cx - 1
unfolding rep_round
cx-rep_round w op s h k = omega (arith, cx-string_step w op s)

-- The state `n` rounds on.
unfoldable pub rounds : ℕ → ℕ → ℕ → Emu86State → Emu86State
rounds zero w op s = s
rounds (suc n) w op s = rounds n w op (rep_round w op s)

-- The end condition of a prefix after a round: a comparison (CMPS or SCAS) that came out unequal
-- under REPE (mode 1), or equal under REPNE (mode 0), which bit 6 of FLAGS says.
pub record MeetsEnd (op mode : ℕ) (t : Emu86State) : Type 0 where
  pub compares : (op ≡ 0xA6) ⊎ (op ≡ 0xAE)
  pub outcome : ((mode ≡ 1) × (t.flags / 2 ^ 6 % 2 ≡ 0)) ⊎ ((mode ≡ 0) × (t.flags / 2 ^ 6 % 2 ≡ 1))

-- Why the loop has ended in `t` after `n` rounds.
abbrev pub HasEnded : ℕ → ℕ → ℕ → Emu86State → Type 0
HasEnded n op mode t = (t.regs reg_cx ≡ 0) ⊎ ((0 < n) × MeetsEnd op mode t)

zero_flag : (s : Emu86State) → get_flag s flag_zf ≡ s.flags / 2 ^ 6 % 2
unfolding get_flag
zero_flag s = ground (arith, mask_test s.flags 6)

rep_stops-MeetsEnd :
    (op mode : ℕ) (t : Emu86State) → rep_stops op mode t ≡ true → MeetsEnd op mode t
rep_stops-MeetsEnd op mode t e = record {
  compares = ground (arith, e);
  outcome = ground (arith, zero_flag t);
}

MeetsEnd-rep_stops :
    (op mode : ℕ) (t : Emu86State)
    → 0 < t.regs reg_cx
    → MeetsEnd op mode t
    → rep_stops op mode t ≡ true
MeetsEnd-rep_stops op mode t h m =
    let one = m.compares in let two = m.outcome in ground (arith, zero_flag t)

-- No round but the last of `n` met the end condition, and CX was not used up before it.
abbrev pub GoesOn : ℕ → ℕ → ℕ → ℕ → Emu86State → Type 0
GoesOn n w op mode s =
    (m : ℕ)
    → m < n
    → (0 < (rounds m w op s).regs reg_cx) × ((m ≡ 0) ⊎ ¬ MeetsEnd op mode (rounds m w op s))

goes_on :
    (n w op mode : ℕ) (s : Emu86State)
    → 0 < s.regs reg_cx
    → rep_stops op mode (rep_round w op s) ≡ false
    → GoesOn n w op mode (rep_round w op s)
    → GoesOn (suc n) w op mode s
unfolding rounds
goes_on n w op mode s h x g zero k = (h, inl refl)
goes_on n w op mode s h x g (suc m) k =
    let (more, before) = g m (omega arith) in
    let first : (m ≡ 0) → ¬ MeetsEnd op mode (rounds m w op (rep_round w op s)) = λ e met.
      let s1 = rep_round w op s in
      let same : rounds m w op s1 ≡ s1 = rw e refl in
      let stopped = MeetsEnd-rep_stops op mode s1 (rw same at more) (rw same at met) in
      absurd (cc (stopped, x)) in
    (more, inr (elim before [ inl e ↦ first e | inr away ↦ away ]))

only_first : (w op mode : ℕ) (s : Emu86State) → 0 < s.regs reg_cx → GoesOn 1 w op mode s
unfolding rounds
only_first w op mode s h zero k = (h, inl refl)
only_first w op mode s h (suc m) k = absurd (omega arith)

rep_loop-HasEnded :
    (fuel w op mode : ℕ) (s : Emu86State)
    → s.regs reg_cx < 0x1_0000
    → s.regs reg_cx ≤ fuel
    → (n : ℕ) × (rep_loop fuel w op mode s ≡ rounds n w op s)
      × ((rep_loop fuel w op mode s).regs reg_cx + n ≡ s.regs reg_cx)
      × GoesOn n w op mode s
      × HasEnded n op mode (rep_loop fuel w op mode s)
unfolding rep_loop rounds
rep_loop-HasEnded zero w op mode s h k =
    (0, refl, omega arith, λ m l. absurd (omega arith), inl (omega arith))
rep_loop-HasEnded (suc fuel) w op mode s h k =
    let s1 = rep_round w op s in
    elim (Bool-cases (s.regs reg_cx == 0)) [
      | inl e ↦ rw e (0, refl, omega arith, λ m l. absurd (omega arith), inl (==-eq _ _ e))
      | inr e ↦
          let some_left : 0 < s.regs reg_cx = ground arith in
          let one = cx-rep_round w op s some_left h in
          elim (Bool-cases (rep_stops op mode s1)) [
            | inl x ↦
                rw (e, x)
                  (
                    1,
                    refl,
                    ground arith,
                    only_first w op mode s some_left,
                    inr (omega arith, rep_stops-MeetsEnd op mode s1 x),
                  )
            | inr x ↦
                let (n, same, count, going, ended) =
                  rep_loop-HasEnded fuel w op mode s1 (omega arith) (omega arith) in
                rw (e, x)
                  (
                    suc n,
                    same,
                    ground arith,
                    goes_on n w op mode s some_left x going,
                    elim ended [ inl z ↦ inl z | inr (l, m) ↦ inr (omega arith, m) ],
                  )
          ]
    ]

-- Under a REP prefix, on a state whose CX is a word, a string instruction is some number of rounds,
-- each of which takes 1 from CX. It goes on as long as CX is not 0 and no comparison has met the end
-- condition of its prefix, by the zero flag, and it has ended because CX is 0 or the last round met
-- that condition.
pub exec_string_op-rounds :
    (s : Emu86State) (d : DecodeContext)
    → s.regs reg_cx < 0x1_0000
    → 0 < s.rep_override_en
    → let s' = exec_string_op s d in
      let op = bit_and d.opcode 0xFE in
      (n : ℕ) × (s' ≡ rounds n d.operand_width op s)
      × (s'.regs reg_cx + n ≡ s.regs reg_cx)
      × GoesOn n d.operand_width op s.rep_mode s
      × HasEnded n op s.rep_mode s'
unfolding exec_string_op
exec_string_op-rounds s d h k =
    let repeated : ltb 0 s.rep_override_en ≡ true = ground arith in
    rw repeated (rep_loop-HasEnded (s.regs reg_cx) d.operand_width _ s.rep_mode s h (omega arith))
