-- ===== src/Base/Options.antt =====
-- The `do` blocks of optional results: `none` ends them.
use mathlib.Core.Path.{◌≡◌, refl, subst}
use mathlib.Core.Option.{Option, none, some}

infixl 5 ◌>>=◌
abbrev pub ◌>>=◌ {ℓ ℓ'} : {A : Type ℓ} {B : Type ℓ'} → Option A → (A → Option B) → Option B
none >>= f = none
some a >>= f = f a

-- Every result is as `P` says.
pub record Every {ℓ ℓ'} {A : Type ℓ} (P : A → Type ℓ') (o : Option A) : Type (ℓ ⊔ ℓ') where
  pub at : (a : A) → o ≡ some a → P a

pub some-Every {ℓ ℓ'} : {A : Type ℓ} {P : A → Type ℓ'} {a : A} → P a → Every P (some a)
some-Every {P = P} {a = a} h = record { at = λ b e. subst P (cc e) h }

pub none-Every {ℓ ℓ'} : {A : Type ℓ} {P : A → Type ℓ'} → Every P none
none-Every = record { at = λ b e. absurd (cc e) }

-- A block is as `P` says if what stands behind its first line is, for each of that line's results.
pub bind-Every {ℓ ℓ' ℓ''} :
    {A : Type ℓ} {B : Type ℓ'} {P : B → Type ℓ''} (o : Option A) {f : A → Option B}
    → ((a : A) → o ≡ some a → Every P (f a))
    → Every P (o >>= f)
bind-Every none h = none-Every
bind-Every (some a) h = h a refl
