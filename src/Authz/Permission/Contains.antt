-- ===== src/Authz/Permission/Contains.antt =====
-- `parts.Contains` and `parts.ContainsAll` as relations.
use mathlib.Core.Path.{subst}
use aah.Prelude.{◌≡◌, refl, ◌↔◌, inl, inr, true, [], ◌∷◌, arith, Bool-cases, In}
use aah.Text.{Text}
use aah.Text.Equality.{text_eq_iff}
use aah.Authz.Permission.{Parts, contains, contains_all, contains_any}

pub contains_iff : (p : Parts) (v : Text) → (contains p v ≡ true) ↔ In v p
unfolding contains
contains_iff [] v = ground arith
contains_iff (w ∷ p) v = ground (arith, contains_iff p v, text_eq_iff w v)

-- every string of the second slice stands in the first
abbrev pub Covers : Parts → Parts → Type 0
Covers p pp = (v : Text) → In v pp → In v p

Covers-cons : (p : Parts) (w : Text) (pp : Parts) → In w p → Covers p pp → Covers p (w ∷ pp)
Covers-cons p w pp k c v (inl e) = subst (λ x. In x p) e k
Covers-cons p w pp k c v (inr m) = c v m

pub contains_all_sound : (p pp : Parts) → contains_all p pp ≡ true → Covers p pp
unfolding contains_all
contains_all_sound p (w ∷ pp) h v m = elim (Bool-cases (contains p w)) [
  | inl e ↦ Covers-cons p w pp ((contains_iff p w).0 e) (contains_all_sound p pp (rw e at h)) v m
  | inr e ↦ cc (rw e at h)
]
contains_all_sound p [] h v m = elim m [ ]

pub contains_all_complete : (p pp : Parts) → Covers p pp → contains_all p pp ≡ true
unfolding contains_all
contains_all_complete p [] h = refl
contains_all_complete p (w ∷ pp) h =
    rw ((contains_iff p w).1 (h w (inl refl))) (contains_all_complete p pp (λ v m. h v (inr m)))

pub contains_all_iff : (p pp : Parts) → (contains_all p pp ≡ true) ↔ Covers p pp
contains_all_iff p pp = (contains_all_sound p pp, contains_all_complete p pp)

contains_any_sound : (p pp : Parts) → contains_any p pp ≡ true → (v : Text) × In v pp × In v p
unfolding contains_any
contains_any_sound p (w ∷ pp) h = elim (Bool-cases (contains p w)) [
  | inl e ↦ (w, inl refl, (contains_iff p w).0 e)
  | inr e ↦ let (v, m, k) = contains_any_sound p pp (rw e at h) in (v, inr m, k)
]
contains_any_sound p [] h = cc

contains_any_complete : (p pp : Parts) (v : Text) → In v pp → In v p → contains_any p pp ≡ true
unfolding contains_any
contains_any_complete p (w ∷ pp) v (inl e) k = rw (e, (contains_iff p v).1 k) refl
contains_any_complete p (w ∷ pp) v (inr m) k = ground (arith, contains_any_complete p pp v m k)
contains_any_complete p [] v m k = elim m [ ]

pub contains_any_iff : (p pp : Parts) → (contains_any p pp ≡ true) ↔ ((v : Text) × In v pp × In v p)
contains_any_iff p pp = (contains_any_sound p pp, λ (v, m, k). contains_any_complete p pp v m k)
