-- ===== src/Prelude/Outcome.antt =====
-- A call in Go that may panic, as on a nil pointer.
use mathlib.Core.Path.{◌≡◌, refl, subst}

pub data Outcome {ℓ} (A : Type ℓ) : Type ℓ where
  returns : A → Outcome A
  panics : Outcome A

infixl 5 ◌>>=◌
abbrev pub ◌>>=◌ {ℓ κ} : {A : Type ℓ} {B : Type κ} → Outcome A → (A → Outcome B) → Outcome B
returns a >>= f = f a
panics >>= f = panics

-- the parts of a sequence of two calls that returned
pub >>=-returns {ℓ κ} :
    {A : Type ℓ} {B : Type κ} (m : Outcome A) (f : A → Outcome B) {b : B}
    → (m >>= f) ≡ returns b
    → (a : A) × (m ≡ returns a) × (f a ≡ returns b)
>>=-returns (returns a) f h = (a, refl, h)
>>=-returns panics f h = cc

-- what holds of the result of a call that returns
abbrev pub Ensures {ℓ κ} : {A : Type ℓ} → (A → Type κ) → Outcome A → Type κ
Ensures P (returns a) = P a
Ensures P panics = Unit

pub >>=-Ensures {ℓ κ μ ν} :
    {A : Type ℓ} {B : Type κ} (Q : A → Type μ) (P : B → Type ν) (m : Outcome A) (f : A → Outcome B)
    → Ensures Q m
    → ((a : A) → Q a → Ensures P (f a))
    → Ensures P (m >>= f)
>>=-Ensures Q P (returns a) f h k = k a h
>>=-Ensures Q P panics f h k = tt

pub Ensures-returns {ℓ κ} :
    {A : Type ℓ} (P : A → Type κ) (m : Outcome A) (a : A) → Ensures P m → m ≡ returns a → P a
Ensures-returns P m a h e = subst (Ensures P) e h

pub Ensures-const {ℓ κ} : {A : Type ℓ} {P : Type κ} → P → (m : Outcome A) → Ensures (λ _. P) m
Ensures-const p (returns a) = p
Ensures-const p panics = tt
