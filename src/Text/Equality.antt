-- ===== src/Text/Equality.antt =====
-- `==` on strings, and `ess.IsSliceContainsString`.
use aah.Prelude.{
  ℕ, ◌≡◌, refl, sym, ◌∙◌, inl, inr, Bool-cases, ◌↔◌, true, false, List, [], ◌∷◌, arith, any,
}
use aah.Text.{Text, text_eq, lower_byte, to_lower, equal_fold, contains_fold}

pub text_eq_iff : (s t : Text) → (text_eq s t ≡ true) ↔ (s ≡ t)
unfolding text_eq
text_eq_iff (c ∷ s) (d ∷ t) = ground (arith, text_eq_iff s t)
text_eq_iff _ _ = ground arith

pub text_eq_refl : (s : Text) → text_eq s s ≡ true
text_eq_refl s = (text_eq_iff s s).1 refl

pub equal_fold_iff : (s t : Text) → (equal_fold s t ≡ true) ↔ (to_lower s ≡ to_lower t)
unfolding equal_fold
equal_fold_iff s t = text_eq_iff (to_lower s) (to_lower t)

pub lower_byte_idem : (c : ℕ) → lower_byte (lower_byte c) ≡ lower_byte c
unfolding lower_byte
lower_byte_idem c = ground arith

pub to_lower_idem : (s : Text) → to_lower (to_lower s) ≡ to_lower s
to_lower_idem [] = refl
to_lower_idem (c ∷ s) = cc (lower_byte_idem c, to_lower_idem s)

-- `ess.IsSliceContainsString` is membership up to letter case.
pub contains_fold-any :
    (xs : List Text) (s : Text)
    → contains_fold xs s ≡ any (λ x. text_eq (to_lower x) (to_lower s)) xs
unfolding contains_fold equal_fold
contains_fold-any [] s = refl
contains_fold-any (x ∷ xs) s = ground (arith, contains_fold-any xs s)

pub contains_fold-to_lower :
    (xs : List Text) (s : Text) → contains_fold xs (to_lower s) ≡ contains_fold xs s
unfolding contains_fold equal_fold
contains_fold-to_lower [] s = refl
contains_fold-to_lower (x ∷ xs) s = rw (to_lower_idem s, contains_fold-to_lower xs s) refl

-- two keys that are equal are found alike
pub same_key : (k key key' : Text) → text_eq k key ≡ true → text_eq k key' ≡ text_eq key key'
same_key k key key' e = rw ((text_eq_iff k key).0 e) refl

pub other_key :
    (k key key' : Text) → text_eq k key ≡ false → text_eq k key' ≡ true → text_eq key key' ≡ false
other_key k key key' e f = elim (Bool-cases (text_eq key key')) [
  | inr g ↦ g
  | inl g ↦
      let h : text_eq k key ≡ true =
        (text_eq_iff k key).1 ((text_eq_iff k key').0 f ∙ sym ((text_eq_iff key key').0 g)) in
      absurd (cc (e, h))
]
