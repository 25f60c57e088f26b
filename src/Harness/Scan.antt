-- ===== src/Harness/Scan.antt =====
-- packages/emu86/harness/harness.c: the comparing loops and the set of categories.
use huxley.Base.{
  ℕ, zero, suc, ◌+◌, ◌≡◌, ◌≤◌, ◌<◌, ◌⊎◌, inl, inr, refl, arith, ◌==◌, ◌&&◌, ◌||◌, is_set,
}
use huxley.Base.{Bool, true, false, none, List, [], ◌∷◌, Bool-cases}
use huxley.Base.Marks.{bit_or_null}
use huxley.Harness.Reference.{mark, marks}
use huxley.Harness.Compare.{first_difference, is_some, differ}

-- A category is reported only for a difference.
pub mark_null : (b : Bool) (bit f : ℕ) → 0 < bit → mark b bit f ≡ 0 → (b ≡ false) × (f ≡ 0)
unfolding mark
mark_null false bit f h e = (refl, e)
mark_null true bit f h e = let both = bit_or_null f bit e in (ground (arith, both.1), both.0)

-- Tests of which none holds.
abbrev pub AllFalse : List (Bool × ℕ) → Type 0
AllFalse [] = Unit {0}
AllFalse ((b, bit) ∷ rest) = (b ≡ false) × AllFalse rest

abbrev pub AllPositive : List (Bool × ℕ) → Type 0
AllPositive [] = Unit {0}
AllPositive ((b, bit) ∷ rest) = (0 < bit) × AllPositive rest

pub marks_null :
    (tests : List (Bool × ℕ)) (f : ℕ)
    → AllPositive tests
    → marks tests f ≡ 0
    → (f ≡ 0) × AllFalse tests
unfolding marks
marks_null [] f p e = (e, tt)
marks_null ((b, bit) ∷ rest) f (p, ps) e =
    let later = marks_null rest (mark b bit f) ps e in
    let here = mark_null b bit f p later.0 in (here.1, (here.0, later.1))

pub marks_none : (tests : List (Bool × ℕ)) (f : ℕ) → AllFalse tests → marks tests f ≡ f
unfolding marks mark
marks_none [] f v = refl
marks_none ((b, bit) ∷ rest) f (e, v) = rw e (marks_none rest f v)

pub differ_eq : (a b : ℕ) → differ a b ≡ false → a ≡ b
differ_eq a b e = ground arith

pub differ_same : (a b : ℕ) → a ≡ b → differ a b ≡ false
differ_same a b e = ground arith

pub or_split : (a b : Bool) → (a || b) ≡ false → (a ≡ false) × (b ≡ false)
or_split false b e = (refl, e)
or_split true b e = ground arith

pub and_split : (a b : Bool) → (a && b) ≡ false → (a ≡ false) ⊎ (b ≡ false)
and_split false b e = inl refl
and_split true b e = inr e

pub or_join : (a b : Bool) → a ≡ false → b ≡ false → (a || b) ≡ false
or_join false b e f = f
or_join true b e f = e

pub and_join : (a b : Bool) → (a ≡ false) ⊎ (b ≡ false) → (a && b) ≡ false
and_join false b e = refl
and_join true b (inl e) = ground arith
and_join true b (inr e) = e

-- Two arrays with the same cells in a range.
abbrev pub SameCells : (ℕ → ℕ) → (ℕ → ℕ) → ℕ → ℕ → Type 0
SameCells f g start n = (i : ℕ) → start ≤ i → i < start + n → f i ≡ g i

pub first_difference-SameCells :
    (f g : ℕ → ℕ) (start n : ℕ)
    → is_some (first_difference f g start n) ≡ false
    → SameCells f g start n
unfolding first_difference
first_difference-SameCells f g start zero e i l h = absurd (omega arith)
first_difference-SameCells f g start (suc n) e i l h = elim (Bool-cases (f start == g start)) [
  | inl s ↦ elim (Bool-cases (i == start)) [
    | inl t ↦ let here : i ≡ start = ground arith in rw here (ground arith)
    | inr t ↦
        first_difference-SameCells f g (start + 1) n (rw s at e) i (ground arith) (omega arith)
  ]
  | inr s ↦ ground (arith, rw s at e)
]

pub first_difference-none :
    (f g : ℕ → ℕ) (start n : ℕ) → SameCells f g start n → first_difference f g start n ≡ none
unfolding first_difference
first_difference-none f g start zero v = refl
first_difference-none f g start (suc n) v =
    let here = v start (omega arith) (omega arith) in
    let same : (f start == g start) ≡ true = ground arith in
    rw same (first_difference-none f g (start + 1) n (λ i l h. v i (omega arith) (omega arith)))

pub zero_clear : (a : ℕ) → a ≡ 0 → is_set a ≡ false
zero_clear a e = ground arith

pub clear_or_zero : (a : ℕ) → is_set a ≡ false → a ≡ 0
clear_or_zero a e = ground arith
