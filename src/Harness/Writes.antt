-- ===== src/Harness/Writes.antt =====
-- packages/emu86/harness/control.c: what a command can write.
use huxley.Base.{ℕ, zero, suc, ◌^◌, ◌≡◌, ◌<◌, ◌⊎◌, refl, arith, u64}
use huxley.Base.{
  Bool, true, false, if◌then◌else◌, ◌||◌, ◌==◌, leb, is_set, inl, inr, Bool-cases, Option-cases,
}
use huxley.Base.{List, ◌++◌, length, Option, none, some}
use huxley.Harness.Text.{snprintf, codes, is_empty, is_same, strchr, strtoull}
use huxley.Harness.Control.{Control, ControlVar, SetResult, written, refused, vt_bool, vt_u64, poke}
use huxley.Harness.Control.{
  lookup_var, var_get_str, set_bool, set_u64, var_set_str, set_reply, set_found, set_split,
}
use huxley.Harness.Control.{
  cmd_set, dispatch, handle_command, harness_control_handle, skip_blanks, skip_white,
}

-- The values of a type of variable.
abbrev pub IsValue : ℕ → ℕ → Type 0
IsValue type n = ((type ≡ vt_bool) × (n < 2)) ⊎ ((type ≡ vt_u64) × (n < 2 ^ 64))

-- A conversion that succeeds has written one value of the variable's type at its address.
pub data IsSetResult (c : Control) (v : ControlVar) : SetResult → Type 0 where
  unchanged : (message : List ℕ) → IsSetResult c v (refused message)
  stored : (n : ℕ) → IsValue v.type n → IsSetResult c v (written (poke c v n))

module _ (c : Control) (v : ControlVar) where
  if-IsSetResult :
      (b : Bool) {r s : SetResult}
      → IsSetResult c v r
      → IsSetResult c v s
      → IsSetResult c v (if b then r else s)
  if-IsSetResult true x y = x
  if-IsSetResult false x y = y

  set_bool-IsSetResult : (val : List ℕ) → v.type ≡ vt_bool → IsSetResult c v (set_bool c v val)
  unfolding set_bool
  set_bool-IsSetResult val h =
      if-IsSetResult (is_same val (codes "0")) (stored 0 (inl (h, omega arith)))
        (if-IsSetResult (is_same val (codes "1")) (stored 1 (inl (h, omega arith))) (unchanged _))

  set_u64-IsSetResult : (val : List ℕ) → v.type ≡ vt_u64 → IsSetResult c v (set_u64 c v val)
  unfolding set_u64
  set_u64-IsSetResult val h = elim (Option-cases (strtoull val)) [
    | inl e ↦ rw (set_u64, e) (unchanged _)
    | inr ((n, rest), e) ↦
        rw (set_u64, e)
          (if-IsSetResult (is_empty rest) (stored (u64 n) (inr (h, omega arith))) (unchanged _))
  ]

  pub var_set_str-IsSetResult : (val : List ℕ) → IsSetResult c v (var_set_str c v val)
  unfolding var_set_str
  var_set_str-IsSetResult val = elim (Bool-cases (v.type == vt_bool)) [
    | inl e ↦ rw e (set_bool-IsSetResult val (ground arith))
    | inr e ↦ elim (Bool-cases (v.type == vt_u64)) [
      | inl f ↦ rw (e, f) (set_u64-IsSetResult val (ground arith))
      | inr f ↦ rw (e, f) (unchanged _)
    ]
  ]

-- A command has set a writable variable, and its reply says so.
pub record Wrote (c : Control) (size : ℕ) (r : Control × List ℕ) : Type 0 where
  pub name : List ℕ
  pub var : ControlVar
  pub value : ℕ
  pub found : lookup_var c name ≡ some var
  pub writable : var.read_only ≡ 0
  pub in_type : IsValue var.type value
  pub after : r.0 ≡ poke c var value
  pub reply :
      r.1 ≡ snprintf size (codes "OK " ++ name ++ codes "=" ++ snprintf 64 (var_get_str r.0 var))

-- All that a command does to the variables.
abbrev pub Effect : Control → ℕ → Control × List ℕ → Type 0
Effect c size r = (r.0 ≡ c) ⊎ Wrote c size r

module _ (c : Control) (size : ℕ) where
  if-Effect :
      (b : Bool) {r s : Control × List ℕ}
      → Effect c size r
      → Effect c size s
      → Effect c size (if b then r else s)
  if-Effect true x y = x
  if-Effect false x y = y

  kept : (text : List ℕ) → Effect c size (c, text)
  kept text = inl refl

  set_reply-Effect :
      (name : List ℕ) (v : ControlVar) (r : SetResult)
      → lookup_var c name ≡ some v
      → v.read_only ≡ 0
      → IsSetResult c v r
      → Effect c size (set_reply c v name r size)
  unfolding set_reply
  set_reply-Effect name v _ f w (unchanged message) = inl refl
  set_reply-Effect name v _ f w (stored n t) = inr (record {
    name = name;
    var = v;
    value = n;
    found = f;
    writable = w;
    in_type = t;
    after = refl;
    reply = refl;
  })

  set_found-Effect :
      (name val : List ℕ) (o : Option ControlVar)
      → lookup_var c name ≡ o
      → Effect c size (set_found c name val o size)
  unfolding set_found
  set_found-Effect name val none f = inl refl
  set_found-Effect name val (some v) f = elim (Bool-cases (is_set v.read_only)) [
    | inl e ↦ rw e (kept _)
    | inr e ↦ rw e (set_reply-Effect name v _ f (ground arith) (var_set_str-IsSetResult c v val))
  ]

  set_split-Effect : (o : Option (List ℕ × List ℕ)) → Effect c size (set_split c o size)
  unfolding set_split
  set_split-Effect none = inl refl
  set_split-Effect (some (name, after)) =
      if-Effect ((length name == 0) || leb 128 (length name)) (kept _) (
        if-Effect (is_empty (skip_blanks after)) (kept _)
          (set_found-Effect name (skip_blanks after) (lookup_var c name) refl))

  cmd_set-Effect : (args : List ℕ) → Effect c size (cmd_set c args size)
  unfolding cmd_set
  cmd_set-Effect args = if-Effect (is_empty args) (kept _) (set_split-Effect (strchr args b' '))

  dispatch-Effect : (verb args : List ℕ) → Effect c size (dispatch c verb args size)
  unfolding dispatch
  dispatch-Effect verb args = if-Effect (is_same verb (codes "ping")) (kept _) (
      if-Effect (is_same verb (codes "help")) (kept _) (
        if-Effect (is_same verb (codes "get")) (kept _)
          (if-Effect (is_same verb (codes "set")) (cmd_set-Effect args) (kept _))))

  handle_command-Effect : (cmd : List ℕ) → Effect c size (handle_command c cmd size)
  unfolding handle_command
  handle_command-Effect cmd = search (if-Effect, kept, dispatch-Effect)

-- A command leaves the variables alone, or it sets the value at the address of one variable: one
-- that the table has under a name and that is not read-only, to a value of its type, with a reply
-- that gives the name and the value. So a refused command has no effect.
pub harness_control_handle-Effect :
    (c c' : Control) (cmd reply : List ℕ) (size : ℕ)
    → harness_control_handle c cmd size ≡ (c', some reply)
    → Effect c size (c', reply)
unfolding harness_control_handle
harness_control_handle-Effect c c' cmd reply zero e = ground arith
harness_control_handle-Effect c c' cmd reply (suc n) e =
    let v = handle_command-Effect c (suc n) (skip_white cmd) in
    let same : handle_command c (skip_white cmd) (suc n) ≡ (c', reply) = cc e in rw same at v
