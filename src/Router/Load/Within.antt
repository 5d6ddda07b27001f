-- ===== src/Router/Load/Within.antt =====
-- What holds of the result of a load that kept within its fuel.
use aah.Prelude.{◌≡◌, refl, Bool, true, false, Option, none, some}
use aah.Prelude.Outcome.{Outcome, returns, panics, Ensures}
use mathlib.Core.Path.{subst}
use aah.Router.Route.{Parsed}
use aah.Router.Constraints.{RouteConstraints}
use aah.Text.{Text}
use aah.Router.Load.{
  Load, LoadError, loaded, failed, faulted, out_of_fuel, ◌>>=◌, lift, guard, given, from_parsed,
  from_constraints,
}

pub data Within {A : Type 0} (P : A → Type 0) : Load A → Type 0 where
  holds : {a : A} → P a → Within P (loaded a)
  fails : {e : LoadError} → Within P (failed e)
  faults : Within P faulted

-- a load that takes no fuel
abbrev pub Ends : {A : Type 0} → Load A → Type 0
Ends m = Within (λ _. Unit {0}) m

module _ {A : Type 0} {P : A → Type 0} where
  pub Within-loaded : {m : Load A} {a : A} → Within P m → m ≡ loaded a → P a
  Within-loaded (holds h) e = subst P (cc) h
  Within-loaded fails e = cc
  Within-loaded faults e = cc

  pub Within-out_of_fuel : {m : Load A} → Within P m → m ≡ out_of_fuel → ⊥
  Within-out_of_fuel (holds h) e = cc
  Within-out_of_fuel fails e = cc
  Within-out_of_fuel faults e = cc

  pub Within-map : {Q : A → Type 0} {m : Load A} → ((a : A) → P a → Q a) → Within P m → Within Q m
  Within-map k (holds h) = holds (k _ h)
  Within-map k fails = fails
  Within-map k faults = faults

  pub guard-Within :
      (e : LoadError) (b : Bool) {m : Load A} → (b ≡ false → Within P m) → Within P (guard e b m)
  unfolding guard
  guard-Within e true h = fails
  guard-Within e false h = h refl

module _ {A B : Type 0} {Q : A → Type 0} {P : B → Type 0} where
  pub >>=-Within :
      {m : Load A} {f : A → Load B}
      → Within Q m
      → ((a : A) → Q a → Within P (f a))
      → Within P (m >>= f)
  unfolding ◌>>=◌
  >>=-Within (holds h) k = k _ h
  >>=-Within fails k = fails
  >>=-Within faults k = faults

  -- the same with the equation of the first load
  pub >>=-known :
      {m : Load A} {f : A → Load B}
      → Within Q m
      → ((a : A) → m ≡ loaded a → Q a → Within P (f a))
      → Within P (m >>= f)
  unfolding ◌>>=◌
  >>=-known (holds h) k = k _ refl h
  >>=-known fails k = fails
  >>=-known faults k = faults

module _ {A B : Type 0} {P : B → Type 0} where
  -- after a load that takes no fuel
  pub >>=-Ends :
      {m : Load A} {f : A → Load B} → Ends m → ((a : A) → Within P (f a)) → Within P (m >>= f)
  >>=-Ends h k = >>=-Within h (λ a _. k a)

  -- after a call that may panic
  pub lift-Within :
      (m : Outcome A) {f : A → Load B} → ((a : A) → Within P (f a)) → Within P (lift m >>= f)
  unfolding ◌>>=◌ lift
  lift-Within (returns a) k = k a
  lift-Within panics k = faults

  -- the same with the equation of the call
  pub lift-known :
      (m : Outcome A) {f : A → Load B}
      → ((a : A) → m ≡ returns a → Within P (f a))
      → Within P (lift m >>= f)
  unfolding ◌>>=◌ lift
  lift-known (returns a) k = k a refl
  lift-known panics k = faults

  -- after a call with a postcondition
  pub lift-Ensures :
      {R : A → Type 0} (m : Outcome A) (f : A → Load B)
      → Ensures R m
      → ((a : A) → R a → Within P (f a))
      → Within P (lift m >>= f)
  unfolding ◌>>=◌ lift
  lift-Ensures (returns a) f h k = k a h
  lift-Ensures panics f h k = faults

  -- after a call that returns
  pub lift-returns :
      {m : Outcome A} (f : A → Load B) (a : A)
      → m ≡ returns a
      → Within P (f a)
      → Within P (lift m >>= f)
  unfolding ◌>>=◌ lift
  lift-returns f a e h = rw e h

pub given-Ends : {A : Type 0} (e : LoadError) (m : Option A) → Ends (given e m)
unfolding given
given-Ends e none = fails
given-Ends e (some a) = holds tt

pub from_parsed-Ends : {A : Type 0} (name : Text) (m : Parsed A) → Ends (from_parsed name m)
unfolding from_parsed
from_parsed-Ends name (Parsed.ok a) = holds tt
from_parsed-Ends name (Parsed.err e) = fails
from_parsed-Ends name Parsed.both_incomplete = fails
from_parsed-Ends name Parsed.out_of_range = faults

pub from_constraints-Ends : (name : Text) (m : RouteConstraints) → Ends (from_constraints name m)
unfolding from_constraints
from_constraints-Ends name (RouteConstraints.ok p cs) = holds tt
from_constraints-Ends name (RouteConstraints.invalid p cs s) = fails
from_constraints-Ends name RouteConstraints.panics = faults
