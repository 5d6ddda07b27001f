-- ===== src/Authz/Slices.antt =====
-- The roles of an `AuthorizationInfo` as Go slices: a slice is a window on an array that other
-- slices may share. `append` writes in place where the array has room behind the window.
pub mod Aliasing
use aah.Prelude.{
  ℕ, zero, suc, ◌+◌, ◌-◌, ◌≡◌, ◌≢◌, ◌≤◌, ◌<◌, refl, sym, ap, ◌∙◌, ◌⊎◌, inl, inr, Bool, true, false,
  List, [], ◌∷◌, ◌++◌, Option, none, some, arith, if◌then◌else◌, length, length-append, leb, ◌==◌,
}
use aah.Text.{Text}

abbrev pub Array : Type 0
Array = List Text

-- arrays by their address, each with all its cells, and the next address that is free
pub record Store : Type 0 where
  pub array : ℕ → Array
  pub next : ℕ

-- a slice that starts at the first cell of its array
pub record Slice : Type 0 where
  pub address : ℕ
  pub len : ℕ

abbrev pub take : ℕ → Array → Array
take zero xs = []
take (suc n) [] = []
take (suc n) (x ∷ xs) = x ∷ take n xs

-- the strings that a slice shows
abbrev pub view : Store → Slice → List Text
view st s = take s.len (st.array s.address)

-- a write of several cells from an index on, within the array
abbrev pub write_at : Array → ℕ → List Text → Array
write_at xs i [] = xs
write_at [] i (v ∷ vs) = []
write_at (x ∷ xs) zero (v ∷ vs) = v ∷ write_at xs zero vs
write_at (x ∷ xs) (suc i) (v ∷ vs) = x ∷ write_at xs i (v ∷ vs)

abbrev pub update : (ℕ → Array) → ℕ → Array → ℕ → Array
update f a v b = if a == b then v else f b

-- Go's `append`: in place where the array has room, else in a new array. `spare` are the cells
-- that the runtime adds to the new array beyond what it holds.
unfoldable pub append : Store → Slice → List Text → List Text → Store × Slice
append st s vs spare =
    if leb (s.len + length vs) (length (st.array s.address))
    then (
      record st { array = update st.array s.address (write_at (st.array s.address) s.len vs) },
      record s { len = s.len + length vs },
    )
    else (
      record { array = update st.array st.next (view st s ++ (vs ++ spare)); next = st.next + 1 },
      record { address = st.next; len = s.len + length vs },
    )

-- the line `n.roles = append(a.roles, authInfo.roles...)` of `Merge`
unfoldable pub merge_roles : Store → Slice → Slice → List Text → Store × Slice
unfolding append
merge_roles st mine theirs spare = append st mine (view st theirs) spare
