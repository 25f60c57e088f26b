-- ===== src/Harness/Printed.antt =====
-- packages/emu86/harness/control.c: what is left of a text that is cut to a buffer.
use huxley.Base.{
  ℕ, zero, suc, ◌+◌, ◌-◌, ◌≡◌, ◌≤◌, ◌<◌, refl, sym, ap, ◌∙◌, arith, ltb, Bool, true, false,
}
use huxley.Base.{List, [], ◌∷◌, ◌++◌, length}
use huxley.Harness.Text.{take, snprintf}
use huxley.Harness.Control.{Output, size_left, print, print_each, no_output}

pub length-++ : (s t : List ℕ) → length (s ++ t) ≡ length s + length t
length-++ [] t = omega arith
length-++ (c ∷ s) t = let rest = length-++ s t in omega arith

pub ++_assoc : (s t r : List ℕ) → (s ++ t) ++ r ≡ s ++ (t ++ r)
++_assoc [] t r = refl
++_assoc (c ∷ s) t r = ap (λ x. c ∷ x) (++_assoc s t r)

pub ++_nil : (s : List ℕ) → s ++ [] ≡ s
++_nil [] = refl
++_nil (c ∷ s) = ap (λ x. c ∷ x) (++_nil s)

pub take-take : (m n : ℕ) (s : List ℕ) → m ≤ n → take m (take n s) ≡ take m s
unfolding take
take-take zero n s h = refl
take-take (suc m) zero s h = ground arith
take-take (suc m) (suc n) [] h = refl
take-take (suc m) (suc n) (c ∷ s) h = ap (λ x. c ∷ x) (take-take m n s (omega arith))

pub length-take : (n : ℕ) (s : List ℕ) → length (take n s) ≤ n
unfolding take
length-take zero s = omega arith
length-take (suc n) [] = omega arith
length-take (suc n) (c ∷ s) = let rest = length-take n s in omega arith

-- A text that fits is kept whole.
pub take_fits : (n : ℕ) (s : List ℕ) → length s ≤ n → take n s ≡ s
unfolding take
take_fits zero [] h = refl
take_fits zero (c ∷ s) h = ground arith
take_fits (suc n) [] h = refl
take_fits (suc n) (c ∷ s) h = ap (λ x. c ∷ x) (take_fits n s (omega arith))

take-++ : (n : ℕ) (s t : List ℕ) → length s ≤ n → take n (s ++ t) ≡ s ++ take (n - length s) t
unfolding take
take-++ n [] t h = let same : n - 0 ≡ n = omega arith in rw same refl
take-++ zero (c ∷ s) t h = ground arith
take-++ (suc n) (c ∷ s) t h =
    let same : suc n - suc (length s) ≡ n - length s = omega arith in
    rw same (ap (λ x. c ∷ x) (take-++ n s t (omega arith)))

take-++_full : (n : ℕ) (s t : List ℕ) → n ≤ length s → take n (s ++ t) ≡ take n s
unfolding take
take-++_full zero s t h = refl
take-++_full (suc n) [] t h = ground arith
take-++_full (suc n) (c ∷ s) t h = ap (λ x. c ∷ x) (take-++_full n s t (omega arith))

-- The output is the text, cut to `n` bytes, and it is full once the text is longer.
pub record Printed (n : ℕ) (text : List ℕ) (out : Output) : Type 0 where
  pub response : out.response ≡ take n text
  pub off : out.full ≡ false → out.off ≡ length text
  pub full : out.full ≡ ltb n (length text)

module _ (n : ℕ) where
  print_to :
      (text s r : List ℕ) (o : ℕ) (b : Bool)
      → r ≡ take n text
      → ((b ≡ false) → o ≡ length text)
      → b ≡ ltb n (length text)
      → Printed n (text ++ s) (print (suc n) s (record { response = r; off = o; full = b }))
  unfolding print snprintf
  print_to text s r o true e at l =
      let long : n < length text = ground arith in
      record {
        response = e ∙ sym (take-++_full n text s (omega arith));
        off = λ h. absurd (cc h);
        full = ground (arith, length-++ text s);
      }
  print_to text s r o false e at l =
      let short : length text ≤ n = ground arith in
      let whole : r ≡ text = e ∙ take_fits n text short in
      let left : size_left (suc n) (length text) ≡ suc n - length text = ground arith in
      let room : suc n - length text - 1 ≡ n - length text = omega arith in
      record {
        response =
            rw (at refl, whole, left, room, take_fits (length text) text (omega arith))
              (sym (take-++ n text s short));
        off = λ h. rw (at refl) (sym (length-++ text s));
        full = rw (at refl, left) (ground (arith, length-++ text s));
      }

  pub print-Printed :
      (text s : List ℕ) {out : Output}
      → Printed n text out
      → Printed n (text ++ s) (print (suc n) s out)
  print-Printed text s {out} v =
      print_to text s out.response out.off out.full v.response v.off v.full

  -- The texts of a list, one behind the other.
  abbrev pub joined : List (List ℕ) → List ℕ
  joined [] = []
  joined (s ∷ texts) = s ++ joined texts

  pub print_each-Printed :
      (texts : List (List ℕ)) (text : List ℕ) {out : Output}
      → Printed n text out
      → Printed n (text ++ joined texts) (print_each (suc n) texts out)
  unfolding print_each
  print_each-Printed [] text v = rw (++_nil text) v
  print_each-Printed (s ∷ texts) text v =
      rw (sym (++_assoc text s (joined texts)))
        (print_each-Printed texts (text ++ s) (print-Printed text s v))

  pub no_output-Printed : Printed n [] no_output
  no_output-Printed = record {
    response = sym (take_fits n [] (omega arith));
    off = λ h. refl;
    full = ground arith;
  }
