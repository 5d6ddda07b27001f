-- ===== src/Router/Paths/Rooted.antt =====
-- Paths that start with a slash.
use aah.Prelude.{ℕ, ◌≡◌, refl, [], ◌∷◌, Bool-cases, ◌==◌, ==_iff, inl, inr}
use aah.Text.{Text, trim_left, trim_right, trim_space, cons_trimmed, is_space}
use aah.Router.Paths.{clean, join_path, add_slash_prefix}

abbrev pub Rooted : Text → Type 0
Rooted u = (rest : Text) × (u ≡ b'/' ∷ rest)

pub clean-Rooted : (u : Text) → Rooted u → Rooted (clean u)
unfolding clean
clean-Rooted u (rest, e) = rw e (_, refl)

pub join_path-Rooted : (base element : Text) → Rooted base → Rooted (join_path base element)
unfolding join_path
join_path-Rooted base element (rest, e) = rw e (_, refl)

-- below no path at all
pub join_path-element-Rooted : (element : Text) → Rooted element → Rooted (join_path [] element)
unfolding join_path clean
join_path-element-Rooted element (rest, e) = rw e (_, refl)

cons_trimmed-Rooted : (s : Text) → Rooted (cons_trimmed b'/' s)
unfolding is_space
cons_trimmed-Rooted [] = (_, refl)
cons_trimmed-Rooted (c ∷ s) = (_, refl)

pub trim_space-Rooted : (u : Text) → Rooted u → Rooted (trim_space u)
unfolding trim_space trim_left trim_right is_space
trim_space-Rooted u (rest, e) = rw e (cons_trimmed-Rooted (trim_right rest))

pub add_slash_prefix-Rooted : (c : ℕ) (s : Text) → Rooted (add_slash_prefix (c ∷ s))
unfolding add_slash_prefix
add_slash_prefix-Rooted c s = elim (Bool-cases (c == b'/')) [
  | inl e ↦ rw (e, (==_iff c b'/').0 e) (_, refl)
  | inr e ↦ rw e (_, refl)
]
