-- ===== src/Platform/Wrap.antt =====
-- The masked index arithmetic of a ring buffer, without masks.
use huxley.Base.{
  ℕ, zero, suc, ◌+◌, ◌-◌, ◌*◌, ◌/◌, ◌%◌, ◌^◌, ◌<◌, ◌≤◌, ◌≡◌, inl, inr, ◌∙◌, sym, ap, arith,
}
use huxley.Base.{bit_and, leb, ◌==◌, if◌then◌else◌, u32, sub32, Bool-cases, ==-eq}
use huxley.Base.Bits.{bit_and-ones, ones, low, high}
use huxley.Base.Masks.{pow-lt, pow_pos, ones-pow}
use huxley.Platform.{Emu86RingBuf}
use native.Mathlib.Nat.{mul-add-mod_self_left, mod-eq_of_lt, mod_self, pow-suc}

-- `size` is 2 ^ k, as platform.h asks for, and the indices are inside the array.
pub record IsRing (k : ℕ) (rb : Emu86RingBuf) : Type 0 where
  pub small : k < 32
  pub size : rb.size ≡ 2 ^ k
  pub head : rb.head < 2 ^ k
  pub tail : rb.tail < 2 ^ k

-- The next index, and the number of cells from one index to another, without masks.
abbrev pub next : ℕ → ℕ → ℕ
next size i = if (i + 1) == size then 0 else i + 1

abbrev pub distance : ℕ → ℕ → ℕ → ℕ
distance size i j = if leb i j then j - i else j + size - i

low_split : (n k : ℕ) → n ≡ 2 ^ k * high n k + low n k
low_split n zero = omega arith
low_split n (suc k) =
    let twice : 2 ^ suc k * high (n / 2) k ≡ 2 * (2 ^ k * high (n / 2) k) =
      rw pow-suc (omega arith) in
    omega (arith, low_split (n / 2) k, twice)

low-lt : (n k : ℕ) → low n k < 2 ^ k
low-lt n zero = omega arith
low-lt n (suc k) = omega (arith, low-lt (n / 2) k, pow-suc 2 k)

low-mod : (n k : ℕ) → low n k ≡ n % 2 ^ k
low-mod n k =
    sym (mod-eq_of_lt (low-lt n k))
    ∙ sym (mul-add-mod_self_left (2 ^ k) (high n k) (low n k))
    ∙ ap (λ m. m % 2 ^ k) (sym (low_split n k))

mask_lem : (n k : ℕ) → k < 32 → bit_and n (sub32 (2 ^ k) 1) ≡ n % 2 ^ k
mask_lem n k h =
    let mask : sub32 (2 ^ k) 1 ≡ ones k = omega (arith, pow_pos k, pow-lt k 32 h, ones-pow k) in
    rw mask (bit_and-ones n k ∙ low-mod n k)

mod-next : (i m : ℕ) → i < m → (i + 1) % m ≡ next m i
mod-next i m h = elim (Bool-cases ((i + 1) == m)) [
  | inl e ↦ rw e (ap (λ n. n % m) (==-eq (i + 1) m e) ∙ mod_self m)
  | inr e ↦ rw e (mod-eq_of_lt (ground arith))
]

pub wrap_next :
    (i k : ℕ) → k < 32 → i < 2 ^ k → bit_and (u32 (i + 1)) (sub32 (2 ^ k) 1) ≡ next (2 ^ k) i
wrap_next i k h l =
    let fits : u32 (i + 1) ≡ i + 1 = omega (arith, pow-lt k 32 h) in
    mask_lem (u32 (i + 1)) k h ∙ ap (λ n. n % 2 ^ k) fits ∙ mod-next i (2 ^ k) l

-- A larger power of 2 is a multiple.
pow-multiple : (k n : ℕ) → k ≤ n → (q : ℕ) × (2 ^ n ≡ 2 ^ k * q + 2 ^ k)
pow-multiple zero n h = (2 ^ n - 1, omega (arith, pow_pos n))
pow-multiple (suc k) zero h = absurd (omega arith)
pow-multiple (suc k) (suc n) h =
    let (q, e) = pow-multiple k n (omega arith) in
    let twice : 2 ^ suc k * q ≡ 2 * (2 ^ k * q) = rw pow-suc (omega arith) in
    (q, omega (arith, e, twice, pow-suc 2 n, pow-suc 2 k))

mod-distance : (i j m q : ℕ) → 2 ^ 32 ≡ m * q + m → i < m → j < m → sub32 j i % m ≡ distance m i j
mod-distance i j m q e h k = elim (Bool-cases (leb i j)) [
  | inl l ↦
      let near : sub32 j i ≡ j - i = ground arith in rw (l, near) (mod-eq_of_lt (ground arith))
  | inr l ↦
      let far : sub32 j i ≡ m * q + (j + m - i) = ground arith in
      rw (l, far) (mul-add-mod_self_left m q (j + m - i) ∙ mod-eq_of_lt (ground arith))
]

pub wrap_distance :
    (i j k : ℕ)
    → k < 32
    → i < 2 ^ k
    → j < 2 ^ k
    → bit_and (sub32 j i) (sub32 (2 ^ k) 1) ≡ distance (2 ^ k) i j
wrap_distance i j k h l m =
    let (q, e) = pow-multiple k 32 (omega arith) in
    mask_lem (sub32 j i) k h ∙ mod-distance i j (2 ^ k) q e l m
