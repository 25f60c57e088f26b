-- ===== src/Host/MainLoop/Stream.antt =====
-- packages/emu86/src/hosts/linux/main.c: for every schedule the host ends in order, and puts out
-- what the program printed.
use huxley.Base.{ℕ, ◌<◌, ◌≤◌, ◌≡◌, ◌⊎◌, inl, inr, refl, sym, ap, ◌∙◌, arith, ◌==◌, ==-eq}
use huxley.Base.{Bool, true, false, Bool-cases, some, List, [], ◌∷◌, ◌++◌}
use huxley.Base.Options.{◌>>=◌}
use huxley.Harness.Printed.{++_assoc, ++_nil}
use huxley.State.Words.{IsWords}
use huxley.Platform.Fifo.{contents}
use huxley.Decode.{Emu86Tables}
use huxley.Run.Loop.{Machine, Emu86YieldInfo, emu86_run, console_full}
use huxley.Run.Loop.{yield_budget, yield_io_needed, yield_halted, yield_exit}
use huxley.Run.Loop.Words.{emu86_run-IsWords}
use huxley.Run.Loop.Console.{Wired, Prints, emu86_run-Prints}
use huxley.Run.Budget.{Outcome, spent, exited, stopped, filled, Ends, emu86_run-Ends}
use huxley.Host.{Session, cycle_budget, handle_yield}
use huxley.Host.Resume.{after_flush}
use huxley.Host.MainLoop.{Turn, Loop, run_fuel, signal_handler, turn, main_loop, run_session}
use huxley.Host.MainLoop.Ready.{stream, Kept, empty-room, flush-Kept, handle_yield-Kept}

module _ {H : Type 0} where
  -- A session that the loop can go on with: wired consoles, fields in their ranges, and room in the
  -- output ring unless the loop is to end.
  pub record Ready (k : ℕ) (x : Session H) : Type 0 where
    pub wired : Wired k x.machine.platform
    pub words : IsWords x.machine.state
    pub room : (x.running ≡ 0) ⊎ (console_full x.machine.platform ≡ false)

  -- The turns of the loop for a schedule, with the characters that the instructions of their runs
  -- print: the loop goes on while `running` is not 0.
  pub data Serves (t : Emu86Tables) : List Turn → Loop H → List ℕ → Loop H → Type 0 where
    over : {l : Loop H} → Serves t [] l [] l
    stop : {us : List Turn} {l : Loop H} → l.1.running ≡ 0 → Serves t us l [] l
    next :
        {u : Turn} {us : List Turn} {info info' : Emu86YieldInfo} {x : Session H} {m : Machine H}
        {cs ds : List ℕ} {l l' : Loop H}
        → (x.running == 0) ≡ false
        → emu86_run run_fuel t cycle_budget info x.machine ≡ some (info', m)
        → Prints t x.machine cs m
        → turn t u (info, x) ≡ some l
        → Serves t us l ds l'
        → Serves t (u ∷ us) (info, x) (cs ++ ds) l'

  module _ (k : ℕ) (low : 3 ≤ k) (high : k < 30) (t : Emu86Tables) where
    -- A turn of the loop, with what its run printed.
    record Turned (u : Turn) (info : Emu86YieldInfo) (x : Session H) : Type 0 where
      yielded : Emu86YieldInfo
      left : Machine H
      printed : List ℕ
      later : Loop H
      ran : emu86_run run_fuel t cycle_budget info x.machine ≡ some (yielded, left)
      prints : Prints t x.machine printed left
      turned : turn t u (info, x) ≡ some later
      ready : Ready k later.1
      same : stream later.1 ≡ stream x ++ printed

    Kept-Ready : (x y : Session H) → Kept k x y → Ready k y
    Kept-Ready x y e = record {
      wired = e.wired;
      words = e.words;
      room = elim e.going [
        | inl r ↦ inl r
        | inr q ↦ inr (empty-room k y.machine.platform e.wired q)
      ];
    }

    signal_handler-Ready : (b : Bool) (x : Session H) → Ready k x → Ready k (signal_handler b x)
    unfolding signal_handler
    signal_handler-Ready true x r = record { wired = r.wired; words = r.words; room = inl refl }
    signal_handler-Ready false x r = r

    stream-signal_handler : (b : Bool) (x : Session H) → stream (signal_handler b x) ≡ stream x
    unfolding signal_handler
    stream-signal_handler true x = refl
    stream-signal_handler false x = refl

    reasons :
        {info : Emu86YieldInfo} {m : Machine H} {budget : ℕ}
        → Outcome budget info m
        → (info.reason ≡ yield_budget)
          ⊎ (info.reason ≡ yield_io_needed)
          ⊎ (info.reason ≡ yield_halted)
          ⊎ (info.reason ≡ yield_exit)
    reasons (spent r _ _) = inl r
    reasons (filled r _ _) = inr (inl r)
    reasons (stopped r _ _) = inr (inr (inl r))
    reasons (exited r _ _) = inr (inr (inr r))

    turn-some :
        (u : Turn) (info info' : Emu86YieldInfo) (x y : Session H) (m : Machine H)
        → emu86_run run_fuel t cycle_budget info x.machine ≡ some (info', m)
        → handle_yield info'.reason u.ready u.typed u.stack (record x { machine = m }) ≡ some y
        → turn t u (info, x) ≡ some (info', signal_handler u.signalled y)
    unfolding turn
    turn-some u info info' x y m e f = rw (turn, e, ◌>>=◌, f) refl

    turn-Turned :
        (u : Turn) (info : Emu86YieldInfo) (x : Session H)
        → Ready k x
        → (x.running == 0) ≡ false
        → Turned u info x
    unfolding Ends
    turn-Turned u info x r on =
        let (info', m, e, ended) =
          emu86_run-Ends run_fuel t cycle_budget info x.machine (omega arith) (omega arith) in
        let room : console_full x.machine.platform ≡ false = elim r.room [
          | inl h ↦ absurd (ground (arith, h, on))
          | inr h ↦ h
        ] in
        let (cs, prints, joined) =
          emu86_run-Prints k low high run_fuel t cycle_budget info info' x.machine m r.wired room
            e in
        let words = emu86_run-IsWords run_fuel t cycle_budget info info' x.machine m r.words e in
        let (y, done, kept) =
          handle_yield-Kept k (record x { machine = m }) joined.wired words info'.reason u.ready
            u.typed u.stack (reasons ended) in
        record {
          yielded = info';
          left = m;
          printed = cs;
          later = (info', signal_handler u.signalled y);
          ran = e;
          prints = prints;
          turned = turn-some u info info' x y m e done;
          ready = signal_handler-Ready u.signalled y (Kept-Ready _ y kept);
          same =
              stream-signal_handler u.signalled y
              ∙ kept.same
              ∙ ap (λ q. x.output ++ q) joined.queue
              ∙ sym (++_assoc x.output (contents x.machine.platform.console_out) cs);
        }

    -- The loop on a schedule.
    record Looped (us : List Turn) (l : Loop H) : Type 0 where
      printed : List ℕ
      later : Loop H
      done : main_loop t us l ≡ some later
      serves : Serves t us l printed later
      ready : Ready k later.1
      same : stream later.1 ≡ stream l.1 ++ printed

    stay-Looped :
        (us : List Turn) (l : Loop H)
        → Ready k l.1
        → main_loop t us l ≡ some l
        → Serves t us l [] l
        → Looped us l
    stay-Looped us l r done serves = record {
      printed = [];
      later = l;
      done = done;
      serves = serves;
      ready = r;
      same = sym (++_nil (stream l.1));
    }

    main_loop-turn :
        (u : Turn) (us : List Turn) (l l' : Loop H)
        → (l.1.running == 0) ≡ false
        → turn t u l ≡ some l'
        → main_loop t (u ∷ us) l ≡ main_loop t us l'
    unfolding main_loop
    main_loop-turn u us l l' on e = rw (main_loop, on, e, ◌>>=◌) refl

    main_loop-stop :
        (u : Turn) (us : List Turn) (l : Loop H)
        → (l.1.running == 0) ≡ true
        → main_loop t (u ∷ us) l ≡ some l
    unfolding main_loop
    main_loop-stop u us l off = rw (main_loop, off) refl

    main_loop-nil : (l : Loop H) → main_loop t [] l ≡ some l
    unfolding main_loop
    main_loop-nil l = refl

    main_loop-Looped : (us : List Turn) (l : Loop H) → Ready k l.1 → Looped us l
    main_loop-Looped [] l r = stay-Looped [] l r (main_loop-nil l) over
    main_loop-Looped (u ∷ us) (info, x) r = elim (Bool-cases (x.running == 0)) [
      | inl off ↦
          stay-Looped (u ∷ us) (info, x) r (main_loop-stop u us (info, x) off)
            (stop (==-eq x.running 0 off))
      | inr on ↦
          let first = turn-Turned u info x r on in
          let rest = main_loop-Looped us first.later first.ready in
          record {
            printed = first.printed ++ rest.printed;
            later = rest.later;
            done = main_loop-turn u us (info, x) first.later on first.turned ∙ rest.done;
            serves = next on first.ran first.prints first.turned rest.serves;
            ready = rest.ready;
            same =
                rest.same
                ∙ ap (λ q. q ++ rest.printed) first.same
                ∙ ++_assoc (stream x) first.printed rest.printed;
          }
    ]

    -- With rings of 2 ^ k bytes, k from 3 to 29, the host serves every schedule to its end, whatever
    -- the program and the tables: no run and no flush is short of fuel, the fields stay in their
    -- ranges, and by the last flush `write` was given, for standard output, what it was given or
    -- what waited at the start and behind it all characters that the program printed, in order, each
    -- once. How many bytes of a call `write` takes is no part of this.
    pub run_session-Serves :
        (us : List Turn) (buf : ℕ → ℕ) (info : Emu86YieldInfo) (x : Session H)
        → Ready k x
        → (cs : List ℕ) × (l : Loop H) × (y : Session H) × (run_session t us buf (info, x) ≡ some y)
          × Serves t us (info, x) cs l
          × IsWords y.machine.state
          × y.output ≡ stream x ++ cs
    unfolding run_session
    run_session-Serves us buf info x r =
        let loop = main_loop-Looped us (info, x) r in
        let z = loop.later.1 in
        let (rb, flushed, empty, kept) = flush-Kept k z loop.ready.wired loop.ready.words buf in
        (
          loop.printed,
          loop.later,
          after_flush z rb,
          rw (loop.done, ◌>>=◌) flushed,
          loop.serves,
          kept.words,
          loop.same,
        )
