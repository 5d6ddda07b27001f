-- ===== src/Router/Cors/Origins.antt =====
-- The origins that a policy allows, as a set of names up to letter case.
use aah.Prelude.{
  ◌≡◌, ◌≢◌, refl, ◌∙◌, ◌↔◌, ◌⊎◌, inl, inr, true, not, List, [], ◌∷◌, ◌++◌, arith, if◌then◌else◌,
  Bool-cases, length, ◌==◌, In,
}
use aah.Text.{Text, text_eq, to_lower, contains_fold}
use aah.Text.Equality.{text_eq_iff, equal_fold_iff, to_lower_idem, contains_fold-to_lower}
use aah.Router.Cors.{Cors, allow_all, add_origins, is_origin_allowed}

-- a name of the list up to letter case
abbrev pub Names : List Text → Text → Type 0
Names [] s = ⊥
Names (x ∷ xs) s = (to_lower x ≡ to_lower s) ⊎ Names xs s

pub contains_fold_iff : (xs : List Text) (s : Text) → (contains_fold xs s ≡ true) ↔ Names xs s
unfolding contains_fold
contains_fold_iff [] s = ground arith
contains_fold_iff (x ∷ xs) s = ground (arith, contains_fold_iff xs s, equal_fold_iff x s)

pub Names-append : (xs ys : List Text) (s : Text) → Names (xs ++ ys) s ↔ (Names xs s ⊎ Names ys s)
Names-append [] ys s = ground arith
Names-append (x ∷ xs) ys s = ground (arith, Names-append xs ys s)

pub Names-fold : (xs : List Text) (s t : Text) → to_lower s ≡ to_lower t → Names xs s → Names xs t
Names-fold [] s t e h = h
Names-fold (x ∷ xs) s t e (inl f) = inl (f ∙ e)
Names-fold (x ∷ xs) s t e (inr h) = inr (Names-fold xs s t e h)

-- all origins are allowed, or this one is named
abbrev pub Admits : Cors → Text → Type 0
Admits c o = (c.allow_all_origins ≡ true) ⊎ Names c.allow_origins o

pub length-eq-zero_iff : (o : Text) → ((length o == 0) ≡ true) ↔ (o ≡ [])
length-eq-zero_iff [] = ground arith
length-eq-zero_iff (c ∷ o) = ground arith

pub is_origin_allowed_iff :
    (c : Cors) (o : Text) → (is_origin_allowed c o ≡ true) ↔ ((o ≢ []) × Admits c o)
unfolding is_origin_allowed
is_origin_allowed_iff c o =
    rw contains_fold-to_lower
      (ground (arith, length-eq-zero_iff o, contains_fold_iff c.allow_origins o))

abbrev with_origin : Cors → Text → Cors
with_origin c x =
    if not (contains_fold c.allow_origins (to_lower x))
    then record c { allow_origins = c.allow_origins ++ to_lower x ∷ [] }
    else c

Admits-with_origin :
    (c : Cors) (x o : Text) → Admits (with_origin c x) o ↔ (Admits c o ⊎ (to_lower x ≡ to_lower o))
Admits-with_origin c x o = ground (
  arith,
  contains_fold_iff c.allow_origins (to_lower x),
  Names-append c.allow_origins (to_lower x ∷ []) o,
  Names-fold c.allow_origins (to_lower x) o,
  to_lower_idem x,
)

pub Admits-add_origins :
    (c : Cors) (origins : List Text) (o : Text)
    → Admits (add_origins c origins) o ↔ (Admits c o ⊎ (In allow_all origins ⊎ Names origins o))
unfolding add_origins
Admits-add_origins c [] o = ground arith
Admits-add_origins c (x ∷ origins) o = elim (Bool-cases (text_eq x allow_all)) [
  | inl e ↦ rw e (λ _. inr (inl (inl ((text_eq_iff x allow_all).0 e))), λ _. inl refl)
  | inr e ↦ rw e (
      ground (
        arith,
        text_eq_iff x allow_all,
        Admits-add_origins (with_origin c x) origins o,
        Admits-with_origin c x o,
      ))
]

-- `AddOrigins` allows what was allowed before and the origins given, up to letter case, and every
-- origin where one of those given is `*`. An empty origin is never allowed.
pub is_origin_allowed-add_origins :
    (c : Cors) (origins : List Text) (o : Text)
    → (is_origin_allowed (add_origins c origins) o ≡ true)
      ↔ ((is_origin_allowed c o ≡ true) ⊎ ((o ≢ []) × (In allow_all origins ⊎ Names origins o)))
is_origin_allowed-add_origins c origins o =
    iff (is_origin_allowed_iff (add_origins c origins) o) (is_origin_allowed_iff c o)
      (Admits-add_origins c origins o)
  where
    iff : {A B N S T P : Type 0} → (A ↔ (N × S)) → (B ↔ (N × T)) → (S ↔ (T ⊎ P)) → A ↔ (B ⊎ (N × P))
    iff f g h = (
      λ a. let (n, s) = f.0 a in elim (h.0 s) [ inl t ↦ inl (g.1 (n, t)) | inr p ↦ inr (n, p) ],
      λ e. elim e [
        | inl b ↦ let (n, t) = g.0 b in f.1 (n, h.1 (inl t))
        | inr np ↦ f.1 (np.0, h.1 (inr np.1))
      ],
    )
