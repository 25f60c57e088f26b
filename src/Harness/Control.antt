-- ===== src/Harness/Control.antt =====
-- packages/emu86/harness/control.c, control.h: the command dispatcher of the control plane.
--
-- A variable has the address of its value; the values are memory. The response is the string in
-- the caller's buffer, `none` where the buffer is left alone.
mod Variables
unfoldable pub use Variables.*
use huxley.Base.{
  ℕ, zero, suc, ◌+◌, ◌-◌, ◌^◌, leb, ltb, ◌==◌, if◌then◌else◌, is_set, update, u64, to_int,
}
use huxley.Base.{Bool, true, false, ◌&&◌, ◌||◌, Option, none, some, List, [], ◌∷◌, ◌++◌, length}
use huxley.Harness.Text.{
  codes, is_empty, is_same, strchr, take, snprintf, decimal, pad_right, strtoull,
}

-- The buffer of a handler that prints in pieces. `off` is the sum of what `snprintf` returned, which
-- is the length of a piece before it was cut; once a piece does not fit, the handler returns.
pub record Output : Type 0 where
  pub response : List ℕ
  pub off : ℕ
  pub full : Bool

-- `rsz - off`, in `size_t`.
abbrev pub size_left : ℕ → ℕ → ℕ
size_left rsz off = if ltb rsz off then 2 ^ 64 - (off - rsz) else rsz - off

unfoldable pub print : ℕ → List ℕ → Output → Output
unfolding snprintf take
print rsz s out = if out.full then out else record {
  response = take out.off out.response ++ snprintf (size_left rsz out.off) s;
  off = out.off + length s;
  full = leb (size_left rsz out.off) (length s);
}

abbrev pub no_output : Output
no_output = record { response = []; off = 0; full = false }

unfoldable pub print_each : ℕ → List (List ℕ) → Output → Output
unfolding print
print_each rsz [] out = out
print_each rsz (s ∷ texts) out = print_each rsz texts (print rsz s out)

unfoldable pub cmd_ping : List ℕ → ℕ → List ℕ
unfolding snprintf
cmd_ping args rsz = snprintf rsz (codes "OK pong")

abbrev pub help_texts : List (List ℕ)
help_texts =
    codes "ping                  - sanity check, returns 'pong'"
    ∷ codes "help                  - list commands and variables"
    ∷ codes "get <name> | get all  - read a variable"
    ∷ codes "set <name> <value>    - write a variable"
    ∷ []

unfoldable pub help_lines : List (List ℕ) → List (List ℕ)
help_lines [] = []
help_lines (s ∷ texts) = (codes "  " ++ s ++ codes "\n") ∷ help_lines texts

unfoldable pub var_lines : List ControlVar → List (List ℕ)
var_lines [] = []
var_lines (v ∷ vars) =
    let ty = if v.type == vt_bool then codes "bool" else codes "u64" in
    let access = if is_set v.read_only then codes "R " else codes "RW" in
    (codes "  "
      ++ pad_right 18 v.name
      ++ codes " "
      ++ pad_right 4 ty
      ++ codes " "
      ++ access
      ++ codes "\n")
    ∷ var_lines vars

unfoldable pub cmd_help : Control → List ℕ → ℕ → List ℕ
unfolding print print_each help_lines var_lines
cmd_help c args rsz =
    let o1 = print rsz (codes "OK commands:\n") no_output in
    let o2 = print_each rsz (help_lines help_texts) o1 in
    let o3 = print rsz (codes "variables:\n") o2 in
    (print_each rsz (var_lines (vars_of c)) o3).response

unfoldable pub value_lines : Control → List ControlVar → List (List ℕ)
unfolding var_get_str snprintf
value_lines c [] = []
value_lines c (v ∷ vars) =
    (v.name ++ codes "=" ++ snprintf 64 (var_get_str c v) ++ codes "\n") ∷ value_lines c vars

unfoldable pub get_all : Control → ℕ → List ℕ
unfolding print print_each value_lines
get_all c rsz =
    (print_each rsz (value_lines c (vars_of c)) (print rsz (codes "OK\n") no_output)).response

-- The end of `cmd_get`, with the variable looked up.
unfoldable pub get_found : Control → List ℕ → Option ControlVar → ℕ → List ℕ
unfolding var_get_str snprintf
get_found c args none rsz = snprintf rsz (codes "ERR unknown variable '" ++ args ++ codes "'")
get_found c args (some v) rsz = snprintf rsz (codes "OK " ++ snprintf 64 (var_get_str c v))

unfoldable pub cmd_get : Control → List ℕ → ℕ → List ℕ
unfolding get_all is_same lookup_var get_found snprintf
cmd_get c args rsz =
    if is_empty args
    then snprintf rsz (codes "ERR usage: get <name> | get all")
    else (if is_same args (codes "all")
        then get_all c rsz
        else get_found c args (lookup_var c args) rsz)

abbrev pub skip_blanks : List ℕ → List ℕ
skip_blanks [] = []
skip_blanks (c ∷ s) = if c == b' ' then skip_blanks s else c ∷ s

-- The end of `cmd_set`, with the value converted, and with the variable looked up.
unfoldable pub set_reply : Control → ControlVar → List ℕ → SetResult → ℕ → Control × List ℕ
unfolding var_get_str snprintf
set_reply c v name (refused message) rsz = (c, snprintf rsz (codes "ERR " ++ snprintf 64 message))
set_reply c v name (written c') rsz =
    (c', snprintf rsz (codes "OK " ++ name ++ codes "=" ++ snprintf 64 (var_get_str c' v)))

unfoldable pub set_found : Control → List ℕ → List ℕ → Option ControlVar → ℕ → Control × List ℕ
unfolding var_set_str set_reply snprintf
set_found c name val none rsz =
    (c, snprintf rsz (codes "ERR unknown variable '" ++ name ++ codes "'"))
set_found c name val (some v) rsz =
    if is_set v.read_only
    then (c, snprintf rsz (codes "ERR " ++ name ++ codes " is read-only"))
    else set_reply c v name (var_set_str c v val) rsz

abbrev pub set_usage : List ℕ
set_usage = codes "ERR usage: set <name> <value>"

-- `cmd_set` with the arguments split at the first space.
unfoldable pub set_split : Control → Option (List ℕ × List ℕ) → ℕ → Control × List ℕ
unfolding lookup_var set_found snprintf
set_split c none rsz = (c, snprintf rsz set_usage)
set_split c (some (name, after)) rsz =
    if (length name == 0) || leb 128 (length name)
    then (c, snprintf rsz (codes "ERR bad variable name"))
    else (if is_empty (skip_blanks after)
        then (c, snprintf rsz set_usage)
        else set_found c name (skip_blanks after) (lookup_var c name) rsz)

unfoldable pub cmd_set : Control → List ℕ → ℕ → Control × List ℕ
unfolding strchr set_split snprintf
cmd_set c args rsz =
    if is_empty args then (c, snprintf rsz set_usage) else set_split c (strchr args b' ') rsz

-- The leading and the trailing white space of a command.
unfoldable pub skip_white : List ℕ → List ℕ
skip_white [] = []
skip_white (c ∷ s) = if (c == b' ') || (c == 9) then skip_white s else c ∷ s

abbrev pub is_white : ℕ → Bool
is_white c = (c == 10) || (c == 13) || (c == b' ') || (c == 9)

unfoldable pub strip_white : List ℕ → List ℕ
strip_white [] = []
strip_white (c ∷ s) =
    let rest = strip_white s in if is_empty rest && is_white c then [] else c ∷ rest

unfoldable pub dispatch : Control → List ℕ → List ℕ → ℕ → Control × List ℕ
unfolding is_same cmd_ping cmd_help cmd_get cmd_set snprintf
dispatch c verb args rsz =
    if is_same verb (codes "ping")
    then (c, cmd_ping args rsz)
    else (if is_same verb (codes "help")
        then (c, cmd_help c args rsz)
        else (if is_same verb (codes "get")
            then (c, cmd_get c args rsz)
            else (if is_same verb (codes "set")
                then cmd_set c args rsz
                else (c, snprintf rsz (codes "ERR unknown command '" ++ verb ++ codes "'")))))

-- The verb ends at the first space; the spaces behind it are skipped.
unfoldable pub split_verb : List ℕ → List ℕ × List ℕ
unfolding strchr
split_verb buf = elim (strchr buf b' ') [
  | none ↦ (buf, [])
  | some (verb, after) ↦ (verb, skip_blanks after)
]

abbrev pub starts_line_end : List ℕ → Bool
starts_line_end [] = true
starts_line_end (c ∷ s) = (c == 10) || (c == 13)

-- The command with the first 511 bytes in the scratch buffer.
unfoldable pub handle_command : Control → List ℕ → ℕ → Control × List ℕ
unfolding strip_white take split_verb dispatch snprintf
handle_command c cmd rsz =
    let buf = strip_white (take 511 cmd) in
    let (verb, args) = split_verb buf in
    if starts_line_end cmd || is_empty buf
    then (c, snprintf rsz (codes "ERR empty command"))
    else dispatch c verb args rsz

unfoldable pub harness_control_handle : Control → List ℕ → ℕ → Control × Option (List ℕ)
unfolding handle_command skip_white
harness_control_handle c cmd zero = (c, none)
harness_control_handle c cmd (suc n) =
    let (c', response) = handle_command c (skip_white cmd) (suc n) in (c', some response)
