-- ===== src/Snapshot/Bytes.antt =====
-- The little-endian writers and readers of snapshot.c, and that a reader undoes its writer.
use huxley.Base.{ℕ, zero, suc, ◌+◌, ◌*◌, ◌/◌, ◌^◌, ◌<◌, ◌≤◌, ◌≡◌, refl, ap, arith, bit_or}
use huxley.Base.{Option, none, some, List, [], ◌∷◌, update, u8, u16, u32, u64}
use native.Mathlib.Decide.{dec_lt}
use mathlib.Core.Path.{◌∙◌}
use huxley.Base.Bits.{bit_or_low-mul}

pub record Parsed (A : Type 0) : Type 0 where
  pub value : A
  pub rest : List ℕ

-- A reader: what it read and the bytes behind it.
abbrev pub Reader : Type 0 → Type 0
Reader A = List ℕ → Option (Parsed A)

infixl 5 ◌>>=◌
abbrev pub ◌>>=◌ : {A B : Type 0} → Reader A → (A → Reader B) → Reader B
◌>>=◌ m f bytes = elim (m bytes) [ none ↦ none | some r ↦ f r.value r.rest ]

abbrev pub pure : {A : Type 0} → A → Reader A
pure a bytes = some (record { value = a; rest = bytes })

-- A reader that succeeds hands its value and its rest on.
pub >>=-eq :
    {A B : Type 0} (m : Reader A) (f : A → Reader B) (bytes : List ℕ) {a : A} {rest : List ℕ}
    → m bytes ≡ some (record { value = a; rest = rest })
    → (m >>= f) bytes ≡ f a rest
>>=-eq m f bytes e = rw (e, ◌>>=◌)

unfoldable pub write_u8 : ℕ → List ℕ → List ℕ
write_u8 v rest = u8 v ∷ rest

unfoldable pub write_u16 : ℕ → List ℕ → List ℕ
write_u16 v rest = u8 v ∷ u8 (u16 v / 2 ^ 8) ∷ rest

unfoldable pub write_u32 : ℕ → List ℕ → List ℕ
write_u32 v rest = u8 v ∷ u8 (u32 v / 2 ^ 8) ∷ u8 (u32 v / 2 ^ 16) ∷ u8 (u32 v / 2 ^ 24) ∷ rest

unfoldable pub write_u64 : ℕ → List ℕ → List ℕ
write_u64 v rest = write_u32 (u32 v) (write_u32 (u32 (u64 v / 2 ^ 32)) rest)

-- A loop over the `n` cells of an array from index `i` on, each written by `write`; with `write_u8`
-- this is the `memcpy` of `write_bytes`.
unfoldable pub write_each : {A : Type 0} → (A → List ℕ → List ℕ) → (ℕ → A) → ℕ → ℕ → List ℕ → List ℕ
write_each write src i zero rest = rest
write_each write src i (suc n) rest = write (src i) (write_each write src (i + 1) n rest)

unfoldable pub read_u8 : Reader ℕ
read_u8 [] = none
read_u8 (a ∷ rest) = some (record { value = a; rest = rest })

unfoldable pub read_u16 : Reader ℕ
read_u16 (a ∷ b ∷ rest) = some (record { value = bit_or a (u16 (b * 2 ^ 8)); rest = rest })
read_u16 _ = none

unfoldable pub read_u32 : Reader ℕ
read_u32 (a ∷ b ∷ c ∷ e ∷ rest) = some (record {
  value = bit_or (bit_or (bit_or a (u32 (b * 2 ^ 8))) (u32 (c * 2 ^ 16))) (u32 (e * 2 ^ 24));
  rest = rest;
})
read_u32 _ = none

unfoldable pub read_u64 : Reader ℕ
read_u64 = do lo ← read_u32; hi ← read_u32; pure (bit_or lo (u64 (hi * 2 ^ 32)))

-- The loop that fills an array's cells; with `read_u8` the `memcpy` of `read_bytes`.
unfoldable pub read_each : {A : Type 0} → Reader A → (ℕ → A) → ℕ → ℕ → Reader (ℕ → A)
read_each read dst i zero = pure dst
read_each read dst i (suc n) = do a ← read; read_each read (update dst i a) (i + 1) n

pub read_u8-write_u8 :
    (v : ℕ) (rest : List ℕ)
    → v < 0x100
    → read_u8 (write_u8 v rest) ≡ some (record { value = v; rest = rest })
unfolding read_u8 write_u8
read_u8-write_u8 v rest h = ground arith

join16 : (a b : ℕ) → a < 0x100 → b < 0x100 → bit_or a (u16 (b * 2 ^ 8)) ≡ b * 0x100 + a
join16 a b ha hb =
    let fits : u16 (b * 2 ^ 8) ≡ b * 2 ^ 8 = omega arith in rw fits (bit_or_low-mul b a 8 ha)

join32 :
    (a b c e : ℕ)
    → a < 0x100
    → b < 0x100
    → c < 0x100
    → e < 0x100
    → bit_or (bit_or (bit_or a (u32 (b * 2 ^ 8))) (u32 (c * 2 ^ 16))) (u32 (e * 2 ^ 24))
      ≡ e * 2 ^ 24 + (c * 2 ^ 16 + (b * 2 ^ 8 + a))
join32 a b c e ha hb hc he =
    let fits8 : u32 (b * 2 ^ 8) ≡ b * 2 ^ 8 = omega arith in
    let fits16 : u32 (c * 2 ^ 16) ≡ c * 2 ^ 16 = omega arith in
    let fits24 : u32 (e * 2 ^ 24) ≡ e * 2 ^ 24 = omega arith in
    rw
      (
        fits8,
        fits16,
        fits24,
        bit_or_low-mul b a 8 ha,
        bit_or_low-mul c (b * 2 ^ 8 + a) 16 (omega arith),
      )
      (bit_or_low-mul e (c * 2 ^ 16 + (b * 2 ^ 8 + a)) 24 (omega arith))

pub read_u16-write_u16 :
    (v : ℕ) (rest : List ℕ)
    → v < 0x1_0000
    → read_u16 (write_u16 v rest) ≡ some (record { value = v; rest = rest })
unfolding read_u16 write_u16
read_u16-write_u16 v rest h =
    rw (join16 (u8 v) (u8 (u16 v / 2 ^ 8)) (omega arith) (omega arith))
      (ap (λ (k : ℕ). some (record { value = k; rest = rest })) (omega arith))

pub read_u32-write_u32 :
    (v : ℕ) (rest : List ℕ)
    → v < 0x1_0000_0000
    → read_u32 (write_u32 v rest) ≡ some (record { value = v; rest = rest })
unfolding read_u32 write_u32
read_u32-write_u32 v rest h =
    rw
      (join32 (u8 v) (u8 (u32 v / 2 ^ 8)) (u8 (u32 v / 2 ^ 16)) (u8 (u32 v / 2 ^ 24)) (omega arith)
        (omega arith) (omega arith) (omega arith))
      (ap (λ (k : ℕ). some (record { value = k; rest = rest })) (omega arith))

join64 : (v : ℕ) → v < 2 ^ 64 → bit_or (u32 v) (u64 (u32 (u64 v / 2 ^ 32) * 2 ^ 32)) ≡ v
join64 v h =
    let fits : u64 (u32 (u64 v / 2 ^ 32) * 2 ^ 32) ≡ u32 (u64 v / 2 ^ 32) * 2 ^ 32 = omega arith in
    rw (fits, bit_or_low-mul (u32 (u64 v / 2 ^ 32)) (u32 v) 32 (omega arith)) (omega arith)

pub read_u64-write_u64 :
    (v : ℕ) (rest : List ℕ)
    → v < 2 ^ 64
    → read_u64 (write_u64 v rest) ≡ some (record { value = v; rest = rest })
unfolding read_u64 write_u64
read_u64-write_u64 v rest h =
    let hi = u32 (u64 v / 2 ^ 32) in
    let e1 = read_u32-write_u32 (u32 v) (write_u32 hi rest) (omega arith) in
    let e2 = read_u32-write_u32 hi rest (omega arith) in
    >>=-eq read_u32 _ _ e1
    ∙ >>=-eq read_u32 _ _ e2
    ∙ ap (λ (k : ℕ). some (record { value = k; rest = rest })) (join64 v h)

-- The cells of `src` from `i` on, `n` of them, over `dst`.
unfoldable pub copied : {A : Type 0} → (ℕ → A) → (ℕ → A) → ℕ → ℕ → ℕ → A
copied dst src i zero = dst
copied dst src i (suc n) = copied (update dst i (src i)) src (i + 1) n

pub copied_below : {A : Type 0} (n i j : ℕ) (dst src : ℕ → A) → j < i → copied dst src i n j ≡ dst j
unfolding copied
copied_below zero i j dst src h = refl
copied_below (suc n) i j dst src h =
    copied_below n (i + 1) j (update dst i (src i)) src (omega arith) ∙ ground arith

-- In the range the copy has the cells of `src`.
pub copied_lem :
    {A : Type 0} (n i j : ℕ) (dst src : ℕ → A) → i ≤ j → j < i + n → copied dst src i n j ≡ src j
unfolding copied
copied_lem zero i j dst src p q = absurd (omega arith)
copied_lem (suc n) i j dst src p q = elim (dec_lt i j) [
  | yes l ↦ copied_lem n (i + 1) j (update dst i (src i)) src (omega arith) (omega arith)
  | no l ↦
      let e : j ≡ i = omega arith in
      rw e (copied_below n (i + 1) i (update dst i (src i)) src (omega arith) ∙ ground arith)
]

-- If `read` undoes `write` on every cell in the range, then the loops undo one another.
pub read_each-write_each :
    {A : Type 0} (read : Reader A) (write : A → List ℕ → List ℕ) (src : ℕ → A) (n i : ℕ)
    (dst : ℕ → A) (rest : List ℕ)
    → ((j : ℕ) (more : List ℕ)
        → i ≤ j
        → j < i + n
        → read (write (src j) more) ≡ some (record { value = src j; rest = more }))
    → read_each read dst i n (write_each write src i n rest)
      ≡ some (record { value = copied dst src i n; rest = rest })
unfolding read_each write_each copied
read_each-write_each read write src zero i dst rest h = refl
read_each-write_each read write src (suc n) i dst rest h =
    >>=-eq read _ _ (h i (write_each write src (i + 1) n rest) (omega arith) (omega arith))
    ∙ read_each-write_each read write src n (i + 1) (update dst i (src i)) rest
        (λ j more p q. h j more (omega arith) (omega arith))
