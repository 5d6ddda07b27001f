-- ===== src/Authz/Permission/Order.antt =====
-- `Implies` against an index-wise description, and as an order on permissions.
use mathlib.Core.Path.{subst}
use aah.Prelude.{
  ℕ, zero, suc, ◌≡◌, refl, sym, ◌↔◌, ◌⊎◌, inl, inr, true, false, not, ◌&&◌, List, [], ◌∷◌, some,
  some_inj, arith, Bool-cases, get_elem?, In,
}
use aah.Authz.Permission.{
  Parts, Permission, wildcard_token, contains, contains_all, all_wildcards, implies_from, implies,
}
use aah.Authz.Permission.Contains.{Covers, contains_iff, contains_all_iff}

abbrev pub IsWild : Parts → Type 0
IsWild part = In wildcard_token part

-- Each part of the first permission is a wildcard or covers the part of the second at its place.
abbrev pub Grants : List Parts → List Parts → Type 0
Grants ps os =
    (i : ℕ) (part : Parts)
    → get_elem? ps i ≡ some part
    → IsWild part ⊎ ((other : Parts) × (get_elem? os i ≡ some other) × Covers part other)

all_wildcards_sound : (ps : List Parts) → all_wildcards ps ≡ true → Grants ps []
unfolding all_wildcards
all_wildcards_sound (q ∷ ps) h zero part e =
    inl (subst IsWild (some_inj e) ((contains_iff q wildcard_token).0 (ground arith)))
all_wildcards_sound (q ∷ ps) h (suc i) part e = all_wildcards_sound ps (ground arith) i part e
all_wildcards_sound [] h i part e = cc

implies_from_sound : (ps os : List Parts) → implies_from ps os ≡ true → Grants ps os
unfolding implies_from
implies_from_sound ps [] h i part e = all_wildcards_sound ps h i part e
implies_from_sound [] (o ∷ os) h i part e = cc
implies_from_sound (p ∷ ps) (o ∷ os) h zero part e = elim (Bool-cases (contains p wildcard_token)) [
  | inl w ↦ inl (subst IsWild (some_inj e) ((contains_iff p wildcard_token).0 w))
  | inr tame ↦
      inr (o, refl, subst (λ x. Covers x o) (some_inj e) ((contains_all_iff p o).0 (ground arith)))
]
implies_from_sound (p ∷ ps) (o ∷ os) h (suc i) part e =
    implies_from_sound ps os (ground arith) i part e

wild_first : (q : Parts) (ps : List Parts) → Grants (q ∷ ps) [] → contains q wildcard_token ≡ true
wild_first q ps h = elim (h zero q refl) [
  | inl w ↦ (contains_iff q wildcard_token).1 w
  | inr (o, e, _) ↦ cc e
]

first_passes :
    (p : Parts) (ps : List Parts) (o : Parts) (os : List Parts)
    → Grants (p ∷ ps) (o ∷ os)
    → (not (contains p wildcard_token) && not (contains_all p o)) ≡ false
first_passes p ps o os h = elim (h zero p refl) [
  | inl w ↦ rw ((contains_iff p wildcard_token).1 w) refl
  | inr (x, e, c) ↦
      let covered = (contains_all_iff p o).1 (subst (Covers p) (sym (some_inj e)) c) in ground arith
]

all_wildcards_complete : (ps : List Parts) → Grants ps [] → all_wildcards ps ≡ true
unfolding all_wildcards
all_wildcards_complete [] h = refl
all_wildcards_complete (q ∷ ps) h =
    rw (wild_first q ps h) (all_wildcards_complete ps (λ i. h (suc i)))

implies_from_complete : (ps os : List Parts) → Grants ps os → implies_from ps os ≡ true
unfolding implies_from
implies_from_complete ps [] h = all_wildcards_complete ps h
implies_from_complete [] (o ∷ os) h = refl
implies_from_complete (p ∷ ps) (o ∷ os) h =
    rw (first_passes p ps o os h) (implies_from_complete ps os (λ i. h (suc i)))

-- `Implies` answers true exactly when, at each place of this permission, its part is a wildcard
-- or the other permission has a part there whose strings it all contains.
pub implies_iff : (p q : Permission) → (implies p q ≡ true) ↔ Grants p.parts q.parts
unfolding implies
implies_iff p q = (implies_from_sound p.parts q.parts, implies_from_complete p.parts q.parts)

Grants-refl : (ps : List Parts) → Grants ps ps
Grants-refl ps i part e = inr (part, e, λ v m. m)

Grants-trans : (ps qs rs : List Parts) → Grants ps qs → Grants qs rs → Grants ps rs
Grants-trans ps qs rs f g i part e = elim (f i part e) [
  | inl w ↦ inl w
  | inr (q, eq, c) ↦ elim (g i q eq) [
    | inl w ↦ inl (c wildcard_token w)
    | inr (r, er, d) ↦ inr (r, er, λ v m. c v (d v m))
  ]
]

-- A permission implies itself.
pub implies_refl : (p : Permission) → implies p p ≡ true
implies_refl p = (implies_iff p p).1 (Grants-refl p.parts)

-- Implication is transitive: a permission implies all that is implied by one that it implies.
pub implies_trans :
    (p q r : Permission) → implies p q ≡ true → implies q r ≡ true → implies p r ≡ true
implies_trans p q r h k =
    (implies_iff p r).1
      (Grants-trans p.parts q.parts r.parts ((implies_iff p q).0 h) ((implies_iff q r).0 k))
