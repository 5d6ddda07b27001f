-- ===== src/Config/StandIn.antt =====
-- A tree of sections with forge's `Resolve`: a path of names with dots between them.
pub mod Free
use aah.Prelude.{
  ℕ, suc, ◌+◌, ◌≤◌, ◌<◌, ◌≡◌, sym, ap, ◌∙◌, inl, inr, Bool, List, [], ◌∷◌, Option, none, some,
  some_inj, if◌then◌else◌, arith, Bool-cases, Option-cases,
}
use aah.Text.{Text, split, text_eq}
use aah.Config.{Setting, section, string, boolean, list, Item, Forge}

mutual
  pub data Tree : Type 0 where
    end : Tree
    entry : Text → Entry → Tree → Tree

  pub data Entry : Type 0 where
    sub : Tree → Entry
    text : Text → Entry
    flag : Bool → Entry
    items : List Item → Entry

abbrev pub setting_of : Entry → Setting Tree
setting_of (sub t) = section t
setting_of (text s) = string s
setting_of (flag b) = boolean b
setting_of (items is) = list is

unfoldable pub names : Tree → List Text
names end = []
names (entry n e t) = n ∷ names t

unfoldable pub find : Tree → Text → Option Entry
find end k = none
find (entry n e t) k = if text_eq n k then some e else find t k

abbrev pub sub_tree : Option Entry → Option Tree
sub_tree (some (sub t)) = some t
sub_tree _ = none

unfoldable pub find_path : Tree → List Text → Option (Setting Tree)
unfolding find
find_path t [] = none
find_path t (n ∷ []) = elim (find t n) [ none ↦ none | some e ↦ some (setting_of e) ]
find_path t (n ∷ m ∷ path) = elim (sub_tree (find t n)) [
  | none ↦ none
  | some u ↦ find_path u (m ∷ path)
]

abbrev pub tree_forge : Forge Tree
tree_forge = record { section_keys = names; resolve = λ t key. find_path t (split b'.' key) }

-- the sections of a tree, counted with those below them
unfoldable mutual
  pub weight : Tree → ℕ
  weight end = 0
  weight (entry n e t) = weight_entry e + weight t

  pub weight_entry : Entry → ℕ
  weight_entry (sub t) = suc (weight t)
  weight_entry (text s) = 0
  weight_entry (flag b) = 0
  weight_entry (items is) = 0

find-le : (t : Tree) (k : Text) (e : Entry) → find t k ≡ some e → weight_entry e ≤ weight t
unfolding find weight
find-le end k e h = absurd (cc h)
find-le (entry n e' t) k e h = elim (Bool-cases (text_eq n k)) [
  | inl f ↦
      le_add_right (weight_entry e) (weight_entry e') (weight t)
        (ap weight_entry (sym (some_inj (rw f at h))))
  | inr f ↦ le_add_left (weight_entry e) (weight_entry e') (weight t) (find-le t k e (rw f at h))
]
  where
    le_add_right : (a b c : ℕ) → a ≡ b → a ≤ b + c
    le_add_right a b c h = omega arith

    le_add_left : (a b c : ℕ) → a ≤ c → a ≤ b + c
    le_add_left a b c h = omega arith

sub-lt : (t u : Tree) (k : Text) → find t k ≡ some (sub u) → weight u < weight t
sub-lt t u k h = unfold weight in find-le t k (sub u) h

section-sub : (e : Entry) (u : Tree) → setting_of e ≡ section u → e ≡ sub u
section-sub (sub t) u h = cc h
section-sub (text s) u h = absurd (cc h)
section-sub (flag b) u h = absurd (cc h)
section-sub (items is) u h = absurd (cc h)

found-sub : (o : Option Entry) (u : Tree) → sub_tree o ≡ some u → o ≡ some (sub u)
found-sub (some (sub t)) u h = cc h
found-sub (some (text s)) u h = absurd (cc h)
found-sub (some (flag b)) u h = absurd (cc h)
found-sub (some (items is)) u h = absurd (cc h)
found-sub none u h = absurd (cc h)

find_path-lt :
    (path : List Text) (t u : Tree) → find_path t path ≡ some (section u) → weight u < weight t
unfolding find_path
find_path-lt [] t u h = absurd (cc h)
find_path-lt (n ∷ []) t u h = elim (Option-cases (find t n)) [
  | inl e ↦ absurd (cc (rw (find_path, e) at h))
  | inr (x, e) ↦
      sub-lt t u n (e ∙ ap (λ y. some y) (section-sub x u (some_inj (rw (find_path, e) at h))))
]
find_path-lt (n ∷ m ∷ path) t u h = elim (Option-cases (sub_tree (find t n))) [
  | inl e ↦ absurd (cc (rw (find_path, e) at h))
  | inr (s, e) ↦ omega (
    arith,
    find_path-lt (m ∷ path) s u (rw (find_path, e) at h),
    sub-lt t s n (found-sub (find t n) s e),
  )
]

-- a section that a path leads to weighs less
pub tree_forge-lt :
    (t : Tree) (key : Text) (u : Tree)
    → tree_forge.resolve t key ≡ some (section u)
    → weight u < weight t
tree_forge-lt t key u h = find_path-lt (split b'.' key) t u h
