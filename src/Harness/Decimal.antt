-- ===== src/Harness/Decimal.antt =====
-- packages/emu86/harness/control.c: a number printed in decimal, and read back.
use huxley.Base.{
  ℕ, zero, suc, ◌+◌, ◌-◌, ◌*◌, ◌/◌, ◌%◌, ◌^◌, ◌≡◌, ◌≤◌, ◌<◌, inl, inr, refl, ◌∙◌, arith, ltb, leb,
  ◌==◌, true, false, Bool-cases,
}
use huxley.Base.{List, [], ◌∷◌, ◌++◌, length, some}
use huxley.Harness.Text.{
  digits, decimal, number, is_digit, is_space, is_empty, strtoull, signed_part, skip_spaces,
  unsigned_part,
}
use huxley.Harness.Printed.{++_assoc, ++_nil, length-++}

abbrev pub AreDigits : List ℕ → Type 0
AreDigits [] = Unit {0}
AreDigits (c ∷ s) = (48 ≤ c) × (c ≤ 57) × AreDigits s

AreDigits-++ : (s : List ℕ) (d : ℕ) → AreDigits s → 48 ≤ d → d ≤ 57 → AreDigits (s ++ d ∷ [])
AreDigits-++ [] d v l h = (l, h, tt)
AreDigits-++ (c ∷ s) d (l', h', v) l h = (l', h', AreDigits-++ s d v l h)

digits-AreDigits : (fuel n : ℕ) → AreDigits (digits fuel n)
unfolding digits
digits-AreDigits zero n = tt
digits-AreDigits (suc fuel) n = elim (Bool-cases (ltb n 10)) [
  | inl e ↦ rw e (omega arith, ground arith, tt)
  | inr e ↦ rw e (AreDigits-++ _ _ (digits-AreDigits fuel (n / 10)) (omega arith) (omega arith))
]

length-digits : (fuel n : ℕ) → length (digits fuel n) ≤ fuel
unfolding digits
length-digits zero n = omega arith
length-digits (suc fuel) n =
    let rest = length-digits fuel (n / 10) in
    let longer = length-++ (digits fuel (n / 10)) ((48 + n % 10) ∷ []) in
    elim (Bool-cases (ltb n 10)) [ inl e ↦ rw e (omega arith) | inr e ↦ rw e (omega arith) ]

ends_nonempty : (s : List ℕ) (d : ℕ) → is_empty (s ++ d ∷ []) ≡ false
ends_nonempty [] d = refl
ends_nonempty (c ∷ s) d = refl

digits_nonempty : (fuel n : ℕ) → is_empty (digits (suc fuel) n) ≡ false
unfolding digits
digits_nonempty fuel n = elim (Bool-cases (ltb n 10)) [
  | inl e ↦ rw e refl
  | inr e ↦ rw e (ends_nonempty (digits fuel (n / 10)) (48 + n % 10))
]

number_digit :
    (acc d n : ℕ) (s : List ℕ) → d < 10 → 10 * acc + d ≡ n → number acc ((48 + d) ∷ s) ≡ number n s
unfolding number
number_digit acc d n s h whole =
    let e : is_digit (48 + d) ≡ true = ground arith in
    let f : 10 * acc + (48 + d - 48) ≡ n = omega arith in rw (e, f) refl

number-digits :
    (fuel n : ℕ) (s : List ℕ) → n < 10 ^ fuel → number 0 (digits fuel n ++ s) ≡ number n s
unfolding digits
number-digits zero n s h = let e : n ≡ 0 = omega arith in rw e refl
number-digits (suc fuel) n s h = elim (Bool-cases (ltb n 10)) [
  | inl e ↦ rw e (number_digit 0 n n s (ground arith) (omega arith))
  | inr e ↦
      let d = (48 + n % 10) ∷ [] in
      rw (e, ++_assoc (digits fuel (n / 10)) d s)
        (number-digits fuel (n / 10) _ (omega arith)
          ∙ number_digit (n / 10) (n % 10) n s (omega arith) (omega arith))
]

-- Digits are read as a number without a sign.
strtoull_digits :
    (s : List ℕ) (n : ℕ)
    → AreDigits s
    → is_empty s ≡ false
    → number 0 s ≡ (n, [])
    → n < 2 ^ 64
    → strtoull s ≡ some (n, [])
unfolding strtoull skip_spaces signed_part unsigned_part
strtoull_digits [] n v h e l = ground arith
strtoull_digits (c ∷ s) n (low, high, v) h e l =
    let space : is_space c ≡ false = ground arith in
    let minus : (c == 45) ≡ false = ground arith in
    let plus : (c == 43) ≡ false = ground arith in
    let digit : is_digit c ≡ true = ground arith in
    let fits : leb (2 ^ 64) n ≡ false = ground arith in rw (space, minus, plus, e, digit, fits) refl

pub decimal-AreDigits : (n : ℕ) → AreDigits (decimal n)
unfolding decimal
decimal-AreDigits n = digits-AreDigits 20 n

pub decimal_nonempty : (n : ℕ) → is_empty (decimal n) ≡ false
unfolding decimal
decimal_nonempty n = digits_nonempty 19 n

pub length-decimal : (n : ℕ) → length (decimal n) ≤ 20
unfolding decimal
length-decimal n = length-digits 20 n

number_nil : (n : ℕ) → number n [] ≡ (n, [])
unfolding number
number_nil n = refl

-- The decimal digits of a 64-bit number are read back as the number, and nothing is left of them.
pub strtoull-decimal : (n : ℕ) → n < 2 ^ 64 → strtoull (decimal n) ≡ some (n, [])
unfolding decimal
strtoull-decimal n h =
    let read = number-digits 20 n [] (omega arith) in
    let whole : number 0 (digits 20 n) ≡ (n, []) =
      rw (++_nil (digits 20 n)) at read ∙ number_nil n in
    strtoull_digits (digits 20 n) n (digits-AreDigits 20 n) (digits_nonempty 19 n) whole h
