-- ===== src/Prelude/Lists.antt =====
-- Lists over native numbers, Boolean quantifiers, and predicates by recursion on a list.
use Prim.Native.Nat.{ℕ, zero, suc, ◌+◌}
use mathlib.Core.Path.{◌≡◌, subst}
use mathlib.Core.Logic.{◌⊎◌, inl, inr}
use mathlib.Core.Bool.{Bool, true, false, ◌&&◌, ◌||◌}
use mathlib.Core.Option.{Option, none, some}
use mathlib.Core.List.{List, [], ◌∷◌, ◌++◌}
use native.Mathlib.Omega.{arith}

module _ {ℓ} {A : Type ℓ} where
  abbrev pub length : List A → ℕ
  length [] = 0
  length (x ∷ xs) = suc (length xs)

  abbrev pub get_elem? : List A → ℕ → Option A
  get_elem? [] i = none
  get_elem? (x ∷ xs) zero = some x
  get_elem? (x ∷ xs) (suc i) = get_elem? xs i

  abbrev pub all : (A → Bool) → List A → Bool
  all p [] = true
  all p (x ∷ xs) = p x && all p xs

  abbrev pub any : (A → Bool) → List A → Bool
  any p [] = false
  any p (x ∷ xs) = p x || any p xs

  pub length-append : (xs ys : List A) → length (xs ++ ys) ≡ length xs + length ys
  length-append [] ys = omega arith
  length-append (x ∷ xs) ys = omega (arith, length-append xs ys)

module _ {ℓ κ} {A : Type ℓ} (P : A → Type κ) where
  abbrev pub All : List A → Type κ
  All [] = Unit
  All (x ∷ xs) = P x × All xs

  pub All-append : (xs ys : List A) → All xs → All ys → All (xs ++ ys)
  All-append [] ys _ k = k
  All-append (x ∷ xs) ys (p, h) k = (p, All-append xs ys h k)

-- where a value stands in a list
module _ {A : Type 0} where
  abbrev pub In : A → List A → Type 0
  In v [] = ⊥
  In v (w ∷ xs) = (w ≡ v) ⊎ In v xs

  pub In-append_left : (v : A) (xs ys : List A) → In v xs → In v (xs ++ ys)
  In-append_left v (x ∷ xs) ys (inl e) = inl e
  In-append_left v (x ∷ xs) ys (inr m) = inr (In-append_left v xs ys m)
  In-append_left v [] ys m = elim m [ ]

  pub In-append_right : (v : A) (xs ys : List A) → In v ys → In v (xs ++ ys)
  In-append_right v [] ys m = m
  In-append_right v (x ∷ xs) ys m = inr (In-append_right v xs ys m)

  pub In-append : (v : A) (xs ys : List A) → In v (xs ++ ys) → In v xs ⊎ In v ys
  In-append v [] ys m = inr m
  In-append v (x ∷ xs) ys (inl e) = inl (inl e)
  In-append v (x ∷ xs) ys (inr m) = elim (In-append v xs ys m) [
    | inl k ↦ inl (inr k)
    | inr k ↦ inr k
  ]

pub All-at : {A : Type 0} (P : A → Type 0) (v : A) (xs : List A) → All P xs → In v xs → P v
All-at P v [] h i = elim i [ ]
All-at P v (x ∷ xs) (p, h) (inl e) = subst P e p
All-at P v (x ∷ xs) (p, h) (inr i) = All-at P v xs h i

pub All-map :
    {A : Type 0} (P Q : A → Type 0) → ((v : A) → P v → Q v) → (xs : List A) → All P xs → All Q xs
All-map P Q k [] h = tt
All-map P Q k (x ∷ xs) (p, h) = (k x p, All-map P Q k xs h)
