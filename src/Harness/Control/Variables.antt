-- ===== src/Harness/Control/Variables.antt =====
-- packages/emu86/harness/control.c, control.h: the table of variables, and their values as text.
use huxley.Base.{ℕ, ◌==◌, if◌then◌else◌, is_set, update, u64, to_int}
use huxley.Base.{Option, none, some, List, [], ◌∷◌}
use huxley.Harness.Text.{codes, is_empty, is_same, decimal, strtoull}

abbrev pub vt_bool : ℕ
vt_bool = 0

abbrev pub vt_u64 : ℕ
vt_u64 = 1

pub record ControlVar : Type 0 where
  pub name : List ℕ
  pub type : ℕ
  pub read_only : ℕ
  pub ptr : ℕ

-- The registered table, `none` before one is registered, and the memory with the values.
pub record Control : Type 0 where
  pub registered_vars : Option (List ControlVar)
  pub memory : ℕ → ℕ

unfoldable pub harness_control_set_vars : Control → List ControlVar → Control
harness_control_set_vars c vars = record c { registered_vars = some vars }

unfoldable pub find_var : List ControlVar → List ℕ → Option ControlVar
find_var [] name = none
find_var (v ∷ vars) name =
    let rest = find_var vars name in if is_same v.name name then some v else rest

abbrev pub vars_of : Control → List ControlVar
vars_of c = elim c.registered_vars [ none ↦ [] | some vars ↦ vars ]

unfoldable pub lookup_var : Control → List ℕ → Option ControlVar
unfolding find_var
lookup_var c name = find_var (vars_of c) name

unfoldable pub var_get_str : Control → ControlVar → List ℕ
unfolding decimal
var_get_str c v =
    if v.type == vt_bool
    then decimal (to_int (is_set (c.memory v.ptr)))
    else (if v.type == vt_u64 then decimal (c.memory v.ptr) else codes "?")

pub data SetResult : Type 0 where
  written : Control → SetResult
  refused : List ℕ → SetResult

abbrev pub poke : Control → ControlVar → ℕ → Control
poke c v n = record c { memory = update c.memory v.ptr n }

unfoldable pub set_bool : Control → ControlVar → List ℕ → SetResult
unfolding is_same
set_bool c v val =
    if is_same val (codes "0")
    then written (poke c v 0)
    else (if is_same val (codes "1")
        then written (poke c v 1)
        else refused (codes "expected 0 or 1"))

unfoldable pub set_u64 : Control → ControlVar → List ℕ → SetResult
unfolding strtoull
set_u64 c v val = elim (strtoull val) [
  | none ↦ refused (codes "expected unsigned integer")
  | some (n, rest) ↦
      if is_empty rest
      then written (poke c v (u64 n))
      else refused (codes "expected unsigned integer")
]

unfoldable pub var_set_str : Control → ControlVar → List ℕ → SetResult
unfolding set_bool set_u64
var_set_str c v val =
    if v.type == vt_bool
    then set_bool c v val
    else (if v.type == vt_u64 then set_u64 c v val else refused (codes "unknown type"))
