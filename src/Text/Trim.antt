-- ===== src/Text/Trim.antt =====
-- What `strings.TrimSpace` leaves.
use aah.Prelude.{
  ℕ, ◌≡◌, ◌≢◌, refl, ap, inl, inr, false, [], ◌∷◌, ◌++◌, arith, Bool-cases, length, ◌≤◌,
}
use aah.Text.{Text, is_space, trim_left, trim_right, trim_space, cons_trimmed, is_nil, is_str_empty}

-- a text with no blank at either end
abbrev pub IsTrimmed : Text → Type 0
IsTrimmed s = (trim_left s ≡ s) × (trim_right s ≡ s)

pub trim_left_idem : (s : Text) → trim_left (trim_left s) ≡ trim_left s
unfolding trim_left
trim_left_idem [] = refl
trim_left_idem (c ∷ s) = ground (arith, trim_left_idem s)

trim_right-cons_trimmed :
    (c : ℕ) (s : Text) → trim_right s ≡ s → trim_right (cons_trimmed c s) ≡ cons_trimmed c s
unfolding trim_right
trim_right-cons_trimmed c [] h = ground arith
trim_right-cons_trimmed c (d ∷ s) h = rw h refl

pub trim_right_idem : (s : Text) → trim_right (trim_right s) ≡ trim_right s
unfolding trim_right
trim_right_idem [] = refl
trim_right_idem (c ∷ s) = trim_right-cons_trimmed c (trim_right s) (trim_right_idem s)

-- a text that starts with no blank keeps its first byte when its end is trimmed
trim_left-cons_trimmed :
    (c : ℕ) (s : Text) → is_space c ≡ false → trim_left (cons_trimmed c s) ≡ cons_trimmed c s
unfolding trim_left
trim_left-cons_trimmed c [] h = rw h (rw h refl)
trim_left-cons_trimmed c (d ∷ s) h = rw h refl

length-trim_left : (s : Text) → length (trim_left s) ≤ length s
unfolding trim_left
length-trim_left [] = omega arith
length-trim_left (c ∷ s) = ground (arith, length-trim_left s)

-- a text that trimming leaves alone starts with no blank
pub trim_left_head : (c : ℕ) (s : Text) → trim_left (c ∷ s) ≡ c ∷ s → is_space c ≡ false
unfolding trim_left
trim_left_head c s h = elim (Bool-cases (is_space c)) [
  | inr e ↦ e
  | inl e ↦ absurd (omega (arith, length-trim_left s, ap length (rw e at h)))
]

pub trim_left-trim_right : (s : Text) → trim_left s ≡ s → trim_left (trim_right s) ≡ trim_right s
unfolding trim_right
trim_left-trim_right [] h = h
trim_left-trim_right (c ∷ s) h = trim_left-cons_trimmed c (trim_right s) (trim_left_head c s h)

pub trim_space-IsTrimmed : (s : Text) → IsTrimmed (trim_space s)
unfolding trim_space
trim_space-IsTrimmed s =
    (trim_left-trim_right (trim_left s) (trim_left_idem s), trim_right_idem (trim_left s))

pub trim_space_of_IsTrimmed : (s : Text) → IsTrimmed s → trim_space s ≡ s
unfolding trim_space
trim_space_of_IsTrimmed s h = rw h.0 h.1

pub trim_left-append : (s t : Text) → s ≢ [] → trim_left s ≡ s → trim_left (s ++ t) ≡ s ++ t
unfolding trim_left
trim_left-append [] t n h = absurd (n refl)
trim_left-append (c ∷ s) t n h = rw (trim_left_head c s h) refl

cons_trimmed-append : (c : ℕ) (s t : Text) → t ≢ [] → cons_trimmed c (s ++ t) ≡ c ∷ (s ++ t)
cons_trimmed-append c [] [] n = absurd (n refl)
cons_trimmed-append c [] (d ∷ t) n = refl
cons_trimmed-append c (d ∷ s) t n = refl

pub trim_right-append : (s t : Text) → t ≢ [] → trim_right t ≡ t → trim_right (s ++ t) ≡ s ++ t
unfolding trim_right
trim_right-append [] t n h = h
trim_right-append (c ∷ s) t n h = rw (trim_right-append s t n h) (cons_trimmed-append c s t n)

-- Trimming first does not change whether a text is blank.
pub is_str_empty-trim_space : (s : Text) → is_str_empty (trim_space s) ≡ is_str_empty s
unfolding is_str_empty
is_str_empty-trim_space s =
    ap is_nil (trim_space_of_IsTrimmed (trim_space s) (trim_space-IsTrimmed s))

pub is_str_empty_of_IsTrimmed : (s : Text) → s ≢ [] → IsTrimmed s → is_str_empty s ≡ false
unfolding is_str_empty
is_str_empty_of_IsTrimmed [] n h = absurd (n refl)
is_str_empty_of_IsTrimmed (c ∷ s) n h = rw (trim_space_of_IsTrimmed (c ∷ s) h) refl
