-- ===== src/Base/Marks.antt =====
-- Laws of bit sets that are collected by `bit_or`.
use Prim.Native.Nat.{ℕ, zero, suc, ◌+◌, ◌/◌, ◌≤◌, bit_and, bit_or}
use Prim.Native.Nat.{bit_and-bitwise, bit_or-bitwise}
use native.Mathlib.Nat.{le_refl}
use mathlib.Core.Path.{◌≡◌, ap, sym, ◌∙◌}
use native.Mathlib.Omega.{arith}
use huxley.Base.Bits.{bit_or_step, bit_and_step}

or_null : (n a b : ℕ) → a + b ≤ n → bit_or a b ≡ 0 → (a ≡ 0) × (b ≡ 0)
or_null zero a b h e = (omega arith, omega arith)
or_null (suc n) a b h e =
    let halves = or_null n (a / 2) (b / 2) (omega arith) (omega (arith, bit_or_step a b)) in
    (omega (arith, bit_or_step a b, halves.0), omega (arith, bit_or_step a b, halves.1))

-- A union is empty only if both sides are.
pub bit_or_null : (a b : ℕ) → bit_or a b ≡ 0 → (a ≡ 0) × (b ≡ 0)
bit_or_null a b e = or_null (a + b) a b (le_refl _) e

half-bit_or : (a b : ℕ) → bit_or a b / 2 ≡ bit_or (a / 2) (b / 2)
half-bit_or a b = omega (arith, bit_or_step a b)

half-bit_and : (a b : ℕ) → bit_and a b / 2 ≡ bit_and (a / 2) (b / 2)
half-bit_and a b = omega (arith, bit_and_step a b)

and_or : (n a b m : ℕ) → a + b ≤ n → bit_and (bit_or a b) m ≡ bit_or (bit_and a m) (bit_and b m)
and_or zero a b m h =
    let e : a ≡ 0 = omega arith in
    let f : b ≡ 0 = omega arith in
    let none : bit_or 0 0 ≡ 0 = bit_or-bitwise 0 0 in
    rw (e, f)
      (ap (λ x. bit_and x m) none
        ∙ bit_and-bitwise 0 m
        ∙ sym (ap (λ x. bit_or x x) (bit_and-bitwise 0 m) ∙ none))
and_or (suc n) a b m h =
    let halves = and_or n (a / 2) (b / 2) (m / 2) (omega arith) in
    let left = rw (half-bit_or a b) at (bit_and_step (bit_or a b) m) in
    let right =
      rw (half-bit_and a m, half-bit_and b m) at (bit_or_step (bit_and a m) (bit_and b m)) in
    omega (arith, left, right, halves, bit_or_step a b, bit_and_step a m, bit_and_step b m)

pub bit_and-bit_or : (a b m : ℕ) → bit_and (bit_or a b) m ≡ bit_or (bit_and a m) (bit_and b m)
bit_and-bit_or a b m = and_or (a + b) a b m (le_refl _)
