-- ===== src/Snapshot/Reads.antt =====
-- What the readers of snapshot.c read from bytes fits the types of the fields.
use huxley.Base.{ℕ, zero, suc, ◌+◌, ◌*◌, ◌^◌, ◌<◌, arith, u16, u32, u64, ◌==◌}
use huxley.Base.{update, Bool-cases, Option, none, some, inl, inr, List, [], ◌∷◌}
use huxley.Base.Bits.{bit_or-lt}
use huxley.State.Words.{IsByte, IsWord}
use huxley.Snapshot.Bytes.{
  Parsed, Reader, ◌>>=◌, pure, read_u8, read_u16, read_u32, read_u64, read_each,
}

-- A buffer holds bytes.
pub data AllBytes : List ℕ → Type 0 where
  done : AllBytes []
  byte : {a : ℕ} {rest : List ℕ} → IsByte a → AllBytes rest → AllBytes (a ∷ rest)

-- What was read, if anything, is as `P` says, and bytes are left.
abbrev pub Good : {A : Type 0} → (A → Type 0) → Option (Parsed A) → Type 0
Good P none = Unit {0}
Good P (some r) = P r.value × AllBytes r.rest

-- A reader of bytes whose results are as `P` says.
pub record Reads {A : Type 0} (P : A → Type 0) (m : Reader A) : Type 0 where
  pub good : (bytes : List ℕ) → AllBytes bytes → Good P (m bytes)

pub pure-Reads : {A : Type 0} {P : A → Type 0} {a : A} → P a → Reads P (pure a)
pure-Reads h = record { good = λ bytes v. (h, v) }

module _ {A B : Type 0} {P : A → Type 0} {Q : B → Type 0} where
  bind-Good :
      (o : Option (Parsed A)) (f : A → Reader B)
      → Good P o
      → ((a : A) → P a → Reads Q (f a))
      → Good Q (elim o [ none ↦ none | some r ↦ f r.value r.rest ])
  bind-Good none f h k = tt
  bind-Good (some r) f (h, v) k = (k r.value h).good r.rest v

  pub bind-Reads :
      {m : Reader A} {f : A → Reader B}
      → Reads P m
      → ((a : A) → P a → Reads Q (f a))
      → Reads Q (m >>= f)
  bind-Reads {m = m} {f = f} h k = record {
    good = λ bytes v. bind-Good (m bytes) f (h.good bytes v) k;
  }

pub read_u8-Reads : Reads IsByte read_u8
unfolding read_u8
read_u8-Reads = record { good = go }
  where
    go : (bytes : List ℕ) → AllBytes bytes → Good IsByte (read_u8 bytes)
    go [] v = tt
    go (a ∷ rest) (byte h v) = (h, v)

read_u16-Good : (bytes : List ℕ) → AllBytes bytes → Good IsWord (read_u16 bytes)
unfolding read_u16
read_u16-Good [] v = tt
read_u16-Good (a ∷ []) v = tt
read_u16-Good (a ∷ b ∷ rest) (byte h (byte k v)) =
    (bit_or-lt a (u16 (b * 2 ^ 8)) 16 (omega arith) (omega arith), v)

pub read_u16-Reads : Reads IsWord read_u16
read_u16-Reads = record { good = read_u16-Good }

read_u32-Good : (bytes : List ℕ) → AllBytes bytes → Good (λ n. n < 2 ^ 32) (read_u32 bytes)
unfolding read_u32
read_u32-Good [] v = tt
read_u32-Good (a ∷ []) v = tt
read_u32-Good (a ∷ b ∷ []) v = tt
read_u32-Good (a ∷ b ∷ c ∷ []) v = tt
read_u32-Good (a ∷ b ∷ c ∷ e ∷ rest) (byte h (byte k (byte l (byte m v)))) =
    let two = bit_or-lt a (u32 (b * 2 ^ 8)) 32 (omega arith) (omega arith) in
    let three = bit_or-lt _ (u32 (c * 2 ^ 16)) 32 two (omega arith) in
    (bit_or-lt _ (u32 (e * 2 ^ 24)) 32 three (omega arith), v)

pub read_u32-Reads : Reads (λ n. n < 2 ^ 32) read_u32
read_u32-Reads = record { good = read_u32-Good }

pub read_u64-Reads : Reads (λ n. n < 2 ^ 64) read_u64
unfolding read_u64
read_u64-Reads = bind-Reads read_u32-Reads (λ lo h.
    bind-Reads read_u32-Reads
      (λ hi k. pure-Reads (bit_or-lt lo (u64 (hi * 2 ^ 32)) 64 (omega arith) (omega arith))))

updated :
    {A : Type 0} (P : A → Type 0) (dst : ℕ → A) (i : ℕ) (a : A)
    → ((j : ℕ) → P (dst j))
    → P a
    → (j : ℕ) → P (update dst i a j)
updated P dst i a h k j = elim (Bool-cases (j == i)) [ inl e ↦ rw e k | inr e ↦ rw e (h j) ]

pub read_each-Reads :
    {A : Type 0} {P : A → Type 0} {read : Reader A} (dst : ℕ → A) (i n : ℕ)
    → Reads P read
    → ((j : ℕ) → P (dst j))
    → Reads (λ f. (j : ℕ) → P (f j)) (read_each read dst i n)
unfolding read_each
read_each-Reads dst i zero h k = pure-Reads k
read_each-Reads {P = P} dst i (suc n) h k =
    bind-Reads h (λ a l. read_each-Reads (update dst i a) (i + 1) n h (updated P dst i a k l))
