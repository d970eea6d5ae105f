-- ===== src/Common/Partial.antt =====
-- Options as results of computations that may not have returned.
use mathlib.Core.Path.{◌≡◌, refl}
use mathlib.Core.Bool.{Bool, true, false}
use mathlib.Core.Option.{Option, none, some}
use native.Mathlib.Omega.{arith}

infixl 5 ◌>>=◌
abbrev pub ◌>>=◌ {ℓ κ} : {A : Type ℓ} {B : Type κ} → Option A → (A → Option B) → Option B
none >>= f = none
some a >>= f = f a

abbrev pub is_some {ℓ} : {A : Type ℓ} → Option A → Bool
is_some none = false
is_some (some a) = true

-- There is a result.
abbrev pub Returns {ℓ} : {A : Type ℓ} → Option A → Type 0
Returns o = is_some o ≡ true

pub Returns-result {ℓ} : {A : Type ℓ} (o : Option A) → Returns o → (a : A) × (o ≡ some a)
Returns-result none h = absurd (ground arith)
Returns-result (some a) h = (a, refl)

pub Returns->>= {ℓ κ} :
    {A : Type ℓ} {B : Type κ} (o : Option A) (f : A → B)
    → Returns o
    → Returns (o >>= λ a. some (f a))
Returns->>= none f h = h
Returns->>= (some a) f h = refl

-- What holds of the result, if there is one.
abbrev pub After {ℓ κ} : {A : Type ℓ} → (A → Type κ) → Option A → Type κ
After P none = Unit
After P (some a) = P a

pub After->>= {ℓ κ μ ν} :
    {A : Type ℓ} {B : Type κ} (P : A → Type μ) (Q : B → Type ν) (o : Option A) (f : A → B)
    → After P o
    → ((a : A) → P a → Q (f a))
    → After Q (o >>= λ a. some (f a))
After->>= P Q none f h k = tt
After->>= P Q (some a) f h k = k a h

pub After-result {ℓ κ} :
    {A : Type ℓ} (P : A → Type κ) (o : Option A) (a : A) → After P o → o ≡ some a → P a
After-result P o a h e = rw e at h

pub After-any {ℓ} : {A : Type ℓ} (o : Option A) → After (λ a. Unit {0}) o
After-any none = tt
After-any (some a) = tt

pub After-both {ℓ κ μ} :
    {A : Type ℓ} (P : A → Type κ) (Q : A → Type μ) (o : Option A)
    → After P o
    → After Q o
    → After (λ a. P a × Q a) o
After-both P Q none p q = tt
After-both P Q (some a) p q = (p, q)
