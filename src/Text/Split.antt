-- ===== src/Text/Split.antt =====
-- `strings.Split` and `strings.Join`, one after the other.
use aah.Prelude.{
  ℕ, ◌≡◌, ◌≢◌, refl, sym, ap, ◌∙◌, inl, inr, false, List, [], ◌∷◌, ◌++◌, Bool-cases, ==_iff,
  ==_refl, ◌==◌, All,
}
use aah.Text.{Text, split, join, cons_head}

-- the byte does not stand in the text
abbrev pub Lacks : ℕ → Text → Type 0
Lacks b s = All (λ c. (c == b) ≡ false) s

cons_head-ne-nil : (c : ℕ) (ss : List Text) → cons_head c ss ≢ []
cons_head-ne-nil c [] h = cc
cons_head-ne-nil c (s ∷ ss) h = cc

pub split-ne-nil : (sep : ℕ) (s : Text) → split sep s ≢ []
unfolding split
split-ne-nil sep [] h = cc
split-ne-nil sep (c ∷ s) h = elim (Bool-cases (c == sep)) [
  | inl e ↦ cc (rw e at h)
  | inr e ↦ cons_head-ne-nil c (split sep s) (rw e at h)
]

join-cons_head :
    (sep : Text) (c : ℕ) (ss : List Text) → ss ≢ [] → join sep (cons_head c ss) ≡ c ∷ join sep ss
unfolding join
join-cons_head sep c [] n = absurd (n refl)
join-cons_head sep c (s ∷ []) n = refl
join-cons_head sep c (s ∷ t ∷ ss) n = refl

join-nil_cons : (sep : Text) (ss : List Text) → ss ≢ [] → join sep ([] ∷ ss) ≡ sep ++ join sep ss
unfolding join
join-nil_cons sep [] n = absurd (n refl)
join-nil_cons sep (t ∷ ss) n = refl

-- Joining the pieces of a split gives the text back.
pub join-split : (sep : ℕ) (s : Text) → join (sep ∷ []) (split sep s) ≡ s
unfolding split
join-split sep [] = unfold join in refl
join-split sep (c ∷ s) = elim (Bool-cases (c == sep)) [
  | inl e ↦ rw e (
      join-nil_cons (sep ∷ []) (split sep s) (split-ne-nil sep s)
      ∙ ap (◌∷◌ sep) (join-split sep s)
      ∙ ap (λ d. d ∷ s) (sym ((==_iff c sep).0 e)))
  | inr e ↦ rw e (
      join-cons_head (sep ∷ []) c (split sep s) (split-ne-nil sep s)
      ∙ ap (◌∷◌ c) (join-split sep s))
]

pub split_of_Lacks : (sep : ℕ) (s : Text) → Lacks sep s → split sep s ≡ s ∷ []
unfolding split
split_of_Lacks sep [] h = refl
split_of_Lacks sep (c ∷ s) (p, h) = rw (p, split_of_Lacks sep s h) refl

pub split-append_sep :
    (sep : ℕ) (s t : Text) → Lacks sep s → split sep (s ++ (sep ∷ t)) ≡ s ∷ split sep t
unfolding split
split-append_sep sep [] t h = rw (==_refl sep) refl
split-append_sep sep (c ∷ s) t (p, h) = rw (p, split-append_sep sep s t h) refl

-- Splitting a join gives the pieces back where none holds the separator.
pub split-join :
    (sep : ℕ) (s : Text) (ss : List Text)
    → All (Lacks sep) (s ∷ ss)
    → split sep (join (sep ∷ []) (s ∷ ss)) ≡ s ∷ ss
unfolding join
split-join sep s [] (p, _) = split_of_Lacks sep s p
split-join sep s (t ∷ ss) (p, h) =
    split-append_sep sep s (join (sep ∷ []) (t ∷ ss)) p ∙ ap (◌∷◌ s) (split-join sep t ss h)

cons_head-Lacks :
    (sep c : ℕ) (ss : List Text)
    → (c == sep) ≡ false
    → All (Lacks sep) ss
    → All (Lacks sep) (cons_head c ss)
cons_head-Lacks sep c [] e h = ((e, tt), tt)
cons_head-Lacks sep c (s ∷ ss) e (p, h) = ((e, p), h)

-- No piece of a split holds the separator.
pub split-Lacks : (sep : ℕ) (s : Text) → All (Lacks sep) (split sep s)
unfolding split
split-Lacks sep [] = (tt, tt)
split-Lacks sep (c ∷ s) = elim (Bool-cases (c == sep)) [
  | inl e ↦ rw e (tt, split-Lacks sep s)
  | inr e ↦ rw e (cons_head-Lacks sep c (split sep s) e (split-Lacks sep s))
]
