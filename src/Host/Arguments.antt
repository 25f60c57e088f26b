-- ===== src/Host/Arguments.antt =====
-- packages/emu86/src/hosts/linux/main.c: the command line.
use huxley.Base.{ℕ, ◌==◌, if◌then◌else◌, Bool, true, false, Option, none, some, List, [], ◌∷◌}
use huxley.Harness.Text.{codes, is_same}

pub record Arguments : Type 0 where
  pub bios_path : Option (List ℕ)
  pub fd_path : Option (List ℕ)
  pub hd_path : Option (List ℕ)
  pub snapshot_in_path : Option (List ℕ)
  pub snapshot_out_path : Option (List ℕ)
  pub boot_hd : Bool

abbrev pub no_arguments : Arguments
no_arguments = record {
  bios_path = none;
  fd_path = none;
  hd_path = none;
  snapshot_in_path = none;
  snapshot_out_path = none;
  boot_hd = false;
}

-- The path of the hard disk; with an `@` in front, it is the one to boot from.
unfoldable pub take_hd_path : List ℕ → Arguments → Arguments
take_hd_path [] a = record a { hd_path = some [] }
take_hd_path (c ∷ path) a =
    if c == b'@'
    then record a { hd_path = some path; boot_hd = true }
    else record a { hd_path = some (c ∷ path) }

-- An argument that is no option: a fourth one is ignored.
unfoldable pub take_path : List ℕ → Arguments → Arguments
unfolding take_hd_path
take_path arg a = elim a.bios_path [
  | none ↦ record a { bios_path = some arg }
  | some bios ↦ elim a.fd_path [
    | none ↦ record a { fd_path = some arg }
    | some fd ↦ elim a.hd_path [ none ↦ take_hd_path arg a | some hd ↦ a ]
  ]
]

abbrev pub snapshot_in : List ℕ
snapshot_in = codes "--snapshot-in"

abbrev pub snapshot_out : List ℕ
snapshot_out = codes "--snapshot-out"

-- The loop, from an argument on. An option that comes last is taken for a path.
unfoldable pub parse_arguments : List (List ℕ) → Arguments → Arguments
unfolding take_path is_same
parse_arguments [] a = a
parse_arguments (arg ∷ []) a = take_path arg a
parse_arguments (arg ∷ value ∷ args) a =
    let behind = parse_arguments args in
    let next = parse_arguments (value ∷ args) (take_path arg a) in
    if is_same arg snapshot_in
    then behind (record a { snapshot_in_path = some value })
    else if is_same arg snapshot_out
    then behind (record a { snapshot_out_path = some value })
    else next
