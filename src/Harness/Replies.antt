-- ===== src/Harness/Replies.antt =====
-- packages/emu86/harness/control.c: the size of the caller's buffer only cuts the reply.
use huxley.Base.{
  ℕ, zero, suc, ◌-◌, ◌≡◌, ◌≤◌, ◌<◌, refl, ap, ◌⊎◌, arith, Bool, true, false, if◌then◌else◌, ◌||◌,
  ◌==◌, leb, is_set,
}
use huxley.Base.{List, [], length, Option, none, some, inl, inr}
use huxley.Harness.Text.{take, snprintf, codes, is_empty, is_same, strchr}
use huxley.Harness.Control.{Control, ControlVar, harness_control_handle}
use huxley.Harness.Control.{SetResult, cmd_ping, cmd_help, get_all, cmd_get, get_found}
use huxley.Harness.Control.{
  set_reply, set_found, set_split, cmd_set, dispatch, handle_command, skip_white, lookup_var,
  var_set_str,
}
use huxley.Harness.Control.{
  skip_blanks, written, refused, vars_of, value_lines, var_lines, help_lines, help_texts,
}
use huxley.Harness.Printed.{
  take-take, length-take, print-Printed, print_each-Printed, no_output-Printed,
}

pub snprintf-take : (n : ℕ) (s : List ℕ) → snprintf (suc n) s ≡ take n s
unfolding snprintf
snprintf-take n s = let same : suc n - 1 ≡ n = omega arith in rw same refl

-- A reply that is one text, cut to the buffer.
record Reply (f : ℕ → List ℕ) : Type 0 where
  text : List ℕ
  same : (n : ℕ) → f (suc n) ≡ take n text

-- A command with such a reply, whose effect does not depend on the size of the buffer.
record Cut (f : ℕ → Control × List ℕ) : Type 0 where
  after : Control
  text : List ℕ
  same : (n : ℕ) → f (suc n) ≡ (after, take n text)

if-Reply : (b : Bool) {f g : ℕ → List ℕ} → Reply f → Reply g → Reply (λ n. if b then f n else g n)
if-Reply true v w = v
if-Reply false v w = w

if-Cut : (b : Bool) {f g : ℕ → Control × List ℕ} → Cut f → Cut g → Cut (λ n. if b then f n else g n)
if-Cut true v w = v
if-Cut false v w = w

snprintf-Reply : (s : List ℕ) → Reply (λ n. snprintf n s)
snprintf-Reply s = record { text = s; same = λ n. snprintf-take n s }

Reply-Cut : (c : Control) (f : ℕ → List ℕ) → Reply f → Cut (λ n. (c, f n))
Reply-Cut c f v = record { after = c; text = v.text; same = λ n. ap (λ r. (c, r)) (v.same n) }

snprintf-Cut : (c : Control) (s : List ℕ) → Cut (λ n. (c, snprintf n s))
snprintf-Cut c s = Reply-Cut c (λ n. snprintf n s) (snprintf-Reply s)

ruleset cuts = (if-Reply, if-Cut, snprintf-Reply, Reply-Cut)

module _ (c : Control) (args : List ℕ) where
  cmd_ping-Reply : Reply (cmd_ping args)
  unfolding cmd_ping
  cmd_ping-Reply = snprintf-Reply _

  cmd_help-Reply : Reply (cmd_help c args)
  unfolding cmd_help
  cmd_help-Reply = record {
    text = _;
    same = λ n.
        let o1 = print-Printed n [] (codes "OK commands:\n") (no_output-Printed n) in
        let o2 = print_each-Printed n (help_lines help_texts) _ o1 in
        let o3 = print-Printed n _ (codes "variables:\n") o2 in
        (print_each-Printed n (var_lines (vars_of c)) _ o3).response;
  }

  get_all-Reply : Reply (get_all c)
  unfolding get_all
  get_all-Reply = record {
    text = _;
    same = λ n.
        let o = print-Printed n [] (codes "OK\n") (no_output-Printed n) in
        (print_each-Printed n (value_lines c (vars_of c)) _ o).response;
  }

  get_found-Reply : (o : Option ControlVar) → Reply (get_found c args o)
  unfolding get_found
  get_found-Reply none = snprintf-Reply _
  get_found-Reply (some v) = snprintf-Reply _

  cmd_get-Reply : Reply (cmd_get c args)
  unfolding cmd_get
  cmd_get-Reply =
      if-Reply (is_empty args) (snprintf-Reply _)
        (if-Reply (is_same args (codes "all")) get_all-Reply (get_found-Reply (lookup_var c args)))

  set_reply-Cut : (v : ControlVar) (name : List ℕ) (r : SetResult) → Cut (set_reply c v name r)
  unfolding set_reply
  set_reply-Cut v name (refused message) = search (cuts)
  set_reply-Cut v name (written c') = search (cuts)

  set_found-Cut : (name val : List ℕ) (o : Option ControlVar) → Cut (set_found c name val o)
  unfolding set_found
  set_found-Cut name val none = search (cuts)
  set_found-Cut name val (some v) =
      if-Cut (is_set v.read_only) (snprintf-Cut c _) (set_reply-Cut v name (var_set_str c v val))

  set_split-Cut : (o : Option (List ℕ × List ℕ)) → Cut (set_split c o)
  unfolding set_split
  set_split-Cut none = search (cuts)
  set_split-Cut (some (name, after)) =
      if-Cut ((length name == 0) || leb 128 (length name)) (snprintf-Cut c _) (
        if-Cut (is_empty (skip_blanks after)) (snprintf-Cut c _)
          (set_found-Cut name (skip_blanks after) (lookup_var c name)))

  cmd_set-Cut : Cut (cmd_set c args)
  unfolding cmd_set
  cmd_set-Cut = if-Cut (is_empty args) (snprintf-Cut c _) (set_split-Cut (strchr args b' '))

  dispatch-Cut : (verb : List ℕ) → Cut (dispatch c verb args)
  unfolding dispatch
  dispatch-Cut verb = search (cuts, cmd_help-Reply, cmd_get-Reply, cmd_set-Cut) depth 12

handle_command-Cut : (c : Control) (cmd : List ℕ) → Cut (handle_command c cmd)
unfolding handle_command
handle_command-Cut c cmd = search (cuts, dispatch-Cut)

-- A smaller buffer changes nothing but the length of the reply: the variables after the command are
-- the same, and the reply is the reply to the larger buffer, cut to one byte less than the size.
pub harness_control_handle-take :
    (c c' : Control) (cmd reply : List ℕ) (m n : ℕ)
    → m ≤ n
    → harness_control_handle c cmd (suc n) ≡ (c', some reply)
    → harness_control_handle c cmd (suc m) ≡ (c', some (take m reply))
unfolding harness_control_handle
harness_control_handle-take c c' cmd reply m n h e =
    let v = handle_command-Cut c (skip_white cmd) in
    let e' : (v.after, some (take n v.text)) ≡ (c', some reply) = rw (v.same n) at e in
    rw (v.same m) (cc (e', take-take m n v.text h))

-- A reply fits into the caller's buffer with the NUL at its end, and a buffer without a byte is
-- left alone, with the variables.
pub length-harness_control_handle :
    (c : Control) (cmd : List ℕ) (size : ℕ)
    → ((size ≡ 0) × (harness_control_handle c cmd size ≡ (c, none)))
      ⊎ ((c' : Control) × (reply : List ℕ) × (harness_control_handle c cmd size ≡ (c', some reply))
          × length reply < size)
unfolding harness_control_handle
length-harness_control_handle c cmd zero = inl (refl, refl)
length-harness_control_handle c cmd (suc n) =
    let v = handle_command-Cut c (skip_white cmd) in
    let short = length-take n v.text in
    inr (v.after, take n v.text, rw (v.same n) refl, omega arith)
