-- ===== src/Harness/Settings.antt =====
-- packages/emu86/harness/control.c: a variable that is set is read back.
use huxley.Base.{
  ℕ, suc, ◌%◌, ◌^◌, ◌≡◌, ◌≤◌, ◌<◌, refl, ap, ◌∙◌, arith, leb, ◌==◌, ◌||◌, true, false,
}
use huxley.Base.{List, [], ◌∷◌, ◌++◌, length, some}
use huxley.Harness.Text.{codes, is_empty, is_same, strchr, take, snprintf, decimal}
use huxley.Harness.Control.{
  Control, ControlVar, poke, lookup_var, var_get_str, var_set_str, set_u64, written, vt_u64,
}
use huxley.Harness.Control.{
  skip_white, skip_blanks, strip_white, is_white, split_verb, dispatch, handle_command,
  harness_control_handle,
}
use huxley.Harness.Control.{cmd_set, set_split, set_found, set_reply, cmd_get, get_found}
use huxley.Harness.Printed.{take_fits, length-++, ++_nil}
use huxley.Harness.Replies.{snprintf-take}
use huxley.Harness.Decimal.{
  AreDigits, decimal-AreDigits, decimal_nonempty, length-decimal, strtoull-decimal,
}

-- A text without white space.
abbrev pub IsWord : List ℕ → Type 0
IsWord [] = Unit {0}
IsWord (c ∷ s) = (is_white c ≡ false) × IsWord s

AreDigits-IsWord : (s : List ℕ) → AreDigits s → IsWord s
AreDigits-IsWord [] v = tt
AreDigits-IsWord (c ∷ s) (low, high, v) = (ground arith, AreDigits-IsWord s v)

strip_white-IsWord : (s : List ℕ) → IsWord s → strip_white s ≡ s
unfolding strip_white
strip_white-IsWord [] v = refl
strip_white-IsWord (c ∷ []) (h, v) = rw h refl
strip_white-IsWord (c ∷ d ∷ s) (h, v) = rw (strip_white-IsWord (d ∷ s) v) refl

nonempty : (p s : List ℕ) → is_empty s ≡ false → is_empty (p ++ s) ≡ false
nonempty [] s h = h
nonempty (c ∷ p) s h = refl

-- What stands before a word is kept.
strip_white-++ :
    (p s : List ℕ) → is_empty s ≡ false → strip_white s ≡ s → strip_white (p ++ s) ≡ p ++ s
unfolding strip_white
strip_white-++ [] s h e = e
strip_white-++ (c ∷ p) s h e = rw (strip_white-++ p s h e, nonempty p s h) refl

strchr-IsWord :
    (name val : List ℕ) → IsWord name → strchr (name ++ b' ' ∷ val) b' ' ≡ some (name, val)
unfolding strchr
strchr-IsWord [] val v = refl
strchr-IsWord (c ∷ name) val (h, v) =
    let other : (c == b' ') ≡ false = ground arith in rw (strchr-IsWord name val v, other) refl

skip_blanks-IsWord : (s t : List ℕ) → IsWord s → is_empty s ≡ false → skip_blanks (s ++ t) ≡ s ++ t
skip_blanks-IsWord [] t v h = ground arith
skip_blanks-IsWord (c ∷ s) t (w, v) h =
    let other : (c == b' ') ≡ false = ground arith in rw other refl

-- A name that a command can give.
pub record IsName (name : List ℕ) : Type 0 where
  pub word : IsWord name
  pub nonempty : is_empty name ≡ false
  pub short : length name < 128

length_positive : (s : List ℕ) → is_empty s ≡ false → 0 < length s
length_positive [] h = ground arith
length_positive (c ∷ s) h = omega arith

-- Arguments that a command passes on as they are.
record IsArgs (args : List ℕ) : Type 0 where
  stripped : strip_white args ≡ args
  nonempty : is_empty args ≡ false
  unskipped : skip_blanks args ≡ args
  short : length args ≤ 500

module _ (c : Control) (args : List ℕ) (rsz : ℕ) (v : IsArgs args) where
  whole : (p : List ℕ) → length p ≤ 11 → strip_white (take 511 (p ++ args)) ≡ p ++ args
  whole p h =
      let total = length-++ p args in
      rw (take_fits 511 (p ++ args) (omega (arith, v.short)))
        (strip_white-++ p args v.nonempty v.stripped)

  handle_command_set : handle_command c (codes "set " ++ args) rsz ≡ cmd_set c args rsz
  unfolding handle_command split_verb strchr dispatch is_same
  handle_command_set = rw (whole (codes "set ") (omega arith), v.unskipped) refl

  handle_command_get : handle_command c (codes "get " ++ args) rsz ≡ (c, cmd_get c args rsz)
  unfolding handle_command split_verb strchr dispatch is_same
  handle_command_get = rw (whole (codes "get ") (omega arith), v.unskipped) refl

module _ (c : Control) (name : List ℕ) (k : IsName name) where
  cmd_set_words :
      (val : List ℕ) (rsz : ℕ)
      → IsWord val
      → is_empty val ≡ false
      → cmd_set c (name ++ b' ' ∷ val) rsz ≡ set_found c name val (lookup_var c name) rsz
  unfolding cmd_set set_split
  cmd_set_words val rsz w h =
      let some_args = nonempty name (b' ' ∷ val) refl in
      let bad : ((length name == 0) || leb 128 (length name)) ≡ false =
        let some_name = length_positive name k.nonempty in ground (arith, k.short) in
      let kept = rw (++_nil val) at (skip_blanks-IsWord val [] w h) in
      rw (some_args, strchr-IsWord name val k.word, bad, kept, h) refl

name-IsArgs : (name : List ℕ) → IsName name → IsArgs name
name-IsArgs name k = record {
  stripped = strip_white-IsWord name k.word;
  nonempty = k.nonempty;
  unskipped = rw (++_nil name) at (skip_blanks-IsWord name [] k.word k.nonempty);
  short = omega (arith, k.short);
}

setting-IsArgs :
    (name val : List ℕ)
    → IsName name
    → IsWord val
    → is_empty val ≡ false
    → length val ≤ 20
    → IsArgs (name ++ b' ' ∷ val)
setting-IsArgs name val k w h short =
    let total = length-++ name (b' ' ∷ val) in
    record {
      stripped =
          strip_white-++ name (b' ' ∷ val) refl
            (strip_white-++ (b' ' ∷ []) val h (strip_white-IsWord val w));
      nonempty = nonempty name (b' ' ∷ val) refl;
      unskipped = skip_blanks-IsWord name (b' ' ∷ val) k.word k.nonempty;
      short = omega (arith, k.short);
    }

module _ (c : Control) (v : ControlVar) (name : List ℕ) (k : IsName name)
    (found : lookup_var c name ≡ some v) (u : v.type ≡ vt_u64) where
  var_get_str-decimal : (n : ℕ) → var_get_str (poke c v n) v ≡ decimal n
  unfolding var_get_str
  var_get_str-decimal n =
      let e : (v.type == 0) ≡ false = ground arith in
      let f : (v.type == 1) ≡ true = ground arith in
      let same : (v.ptr == v.ptr) ≡ true = ground arith in rw (e, f, same) refl

  snprintf-decimal : (n : ℕ) → snprintf 64 (decimal n) ≡ decimal n
  unfolding snprintf
  snprintf-decimal n = let short = length-decimal n in take_fits 63 (decimal n) (omega arith)

  set_u64-decimal : (n : ℕ) → n < 2 ^ 64 → set_u64 c v (decimal n) ≡ written (poke c v n)
  unfolding set_u64
  set_u64-decimal n h =
      let same : n % 2 ^ 64 ≡ n = omega arith in rw (set_u64, strtoull-decimal n h, same) refl

  var_set_str-decimal : (n : ℕ) → n < 2 ^ 64 → var_set_str c v (decimal n) ≡ written (poke c v n)
  unfolding var_set_str
  var_set_str-decimal n h =
      let e : (v.type == 0) ≡ false = ground arith in
      let f : (v.type == 1) ≡ true = ground arith in rw (e, f, set_u64-decimal n h) refl

  set_found-decimal :
      (n rsz : ℕ)
      → v.read_only ≡ 0
      → n < 2 ^ 64
      → set_found c name (decimal n) (lookup_var c name) rsz
        ≡ (poke c v n, snprintf rsz (codes "OK " ++ name ++ codes "=" ++ decimal n))
  unfolding set_found set_reply
  set_found-decimal n rsz w h =
      rw (found, w, var_set_str-decimal n h, var_get_str-decimal n, snprintf-decimal n) refl

  cmd_get-decimal :
      (n rsz : ℕ)
      → is_same name (codes "all") ≡ false
      → cmd_get (poke c v n) name rsz ≡ snprintf rsz (codes "OK " ++ decimal n)
  unfolding cmd_get get_found lookup_var
  cmd_get-decimal n rsz w =
      rw (k.nonempty, w, found, var_get_str-decimal n, snprintf-decimal n) refl

  handle_command_set-decimal :
      (n rsz : ℕ)
      → v.read_only ≡ 0
      → n < 2 ^ 64
      → handle_command c (codes "set " ++ (name ++ b' ' ∷ decimal n)) rsz
        ≡ (poke c v n, snprintf rsz (codes "OK " ++ name ++ codes "=" ++ decimal n))
  handle_command_set-decimal n rsz w h =
      let word = AreDigits-IsWord (decimal n) (decimal-AreDigits n) in
      let args = setting-IsArgs name (decimal n) k word (decimal_nonempty n) (length-decimal n) in
      handle_command_set c (name ++ b' ' ∷ decimal n) rsz args
      ∙ cmd_set_words c name k (decimal n) rsz word (decimal_nonempty n)
      ∙ set_found-decimal n rsz w h

  handle_command_get-decimal :
      (n rsz : ℕ)
      → is_same name (codes "all") ≡ false
      → handle_command (poke c v n) (codes "get " ++ name) rsz
        ≡ (poke c v n, snprintf rsz (codes "OK " ++ decimal n))
  handle_command_get-decimal n rsz w =
      handle_command_get (poke c v n) name rsz (name-IsArgs name k)
      ∙ ap (λ r. (poke c v n, r)) (cmd_get-decimal n rsz w)

-- A number that is set is read back: for a registered and writable 64-bit variable with a name
-- that is a word of less than 128 bytes and not "all", `set` with the decimal digits of a 64-bit
-- number stores the number and confirms it, and `get` then replies with these digits. Both replies
-- are cut to the buffer.
pub harness_control_handle_get-set :
    (c : Control) (v : ControlVar) (name : List ℕ) (n size : ℕ)
    → IsName name
    → is_same name (codes "all") ≡ false
    → lookup_var c name ≡ some v
    → v.type ≡ vt_u64
    → v.read_only ≡ 0
    → n < 2 ^ 64
    → (harness_control_handle c (codes "set " ++ (name ++ b' ' ∷ decimal n)) (suc size)
        ≡ (poke c v n, some (take size (codes "OK " ++ name ++ codes "=" ++ decimal n))))
      × (harness_control_handle (poke c v n) (codes "get " ++ name) (suc size)
          ≡ (poke c v n, some (take size (codes "OK " ++ decimal n))))
unfolding harness_control_handle skip_white
harness_control_handle_get-set c v name n size k w found u writable h = (
  rw (handle_command_set-decimal c v name k found u n (suc size) writable h, snprintf-take) refl,
  rw (handle_command_get-decimal c v name k found u n (suc size) w, snprintf-take) refl,
)
