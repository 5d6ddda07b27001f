-- ===== src/Authz/Slices/Aliasing.antt =====
-- What `append` shows, what it leaves alone, and what two merges from one subject share.
use aah.Prelude.{
  ℕ, zero, suc, ◌+◌, ◌≡◌, ◌≢◌, ◌≤◌, ◌<◌, refl, sym, ap, ◌∙◌, inl, inr, false, List, [], ◌∷◌, ◌++◌,
  arith, length, length-append, append-nil, leb, leb→le, le→leb, ◌==◌, ==_refl, Bool-cases,
}
use aah.Text.{Text}
use aah.Authz.Slices.{Array, Store, Slice, take, view, write_at, append, merge_roles}

-- the slice lies within an array that was handed out
abbrev pub IsValid : Store → Slice → Type 0
IsValid st s = (s.len ≤ length (st.array s.address)) × (s.address < st.next)

length-write_at : (xs : Array) (i : ℕ) (vs : List Text) → length (write_at xs i vs) ≡ length xs
length-write_at xs i [] = refl
length-write_at [] i (v ∷ vs) = refl
length-write_at (x ∷ xs) zero (v ∷ vs) = ap suc (length-write_at xs zero vs)
length-write_at (x ∷ xs) (suc i) (v ∷ vs) = ap suc (length-write_at xs i (v ∷ vs))

take-write_at : (xs : Array) (i : ℕ) (vs : List Text) → take i (write_at xs i vs) ≡ take i xs
take-write_at xs zero vs = refl
take-write_at xs (suc i) [] = refl
take-write_at [] (suc i) (v ∷ vs) = refl
take-write_at (x ∷ xs) (suc i) (v ∷ vs) = ap (◌∷◌ x) (take-write_at xs i (v ∷ vs))

take-write_at-zero :
    (xs : Array) (vs : List Text)
    → length vs ≤ length xs
    → take (length vs) (write_at xs zero vs) ≡ vs
take-write_at-zero xs [] h = refl
take-write_at-zero [] (v ∷ vs) h = absurd (omega arith)
take-write_at-zero (x ∷ xs) (v ∷ vs) h = ap (◌∷◌ v) (take-write_at-zero xs vs (omega arith))

-- a window that ends behind the cells written shows what it held and then what was written
take-write_at_window :
    (xs : Array) (i : ℕ) (vs : List Text) (n : ℕ)
    → n ≡ i + length vs
    → n ≤ length xs
    → take n (write_at xs i vs) ≡ take i xs ++ vs
take-write_at_window xs zero vs n e h =
    let same : n ≡ length vs = omega arith in rw same (take-write_at-zero xs vs (omega arith))
take-write_at_window xs (suc i) vs zero e h = absurd (omega arith)
take-write_at_window [] (suc i) vs (suc n) e h = absurd (omega arith)
take-write_at_window (x ∷ xs) (suc i) [] (suc n) e h =
    let same : n ≡ i = omega arith in rw (same, append-nil) refl
take-write_at_window (x ∷ xs) (suc i) (v ∷ vs) (suc n) e h =
    ap (◌∷◌ x) (take-write_at_window xs i (v ∷ vs) n (omega arith) (omega arith))

take-append_exact :
    (xs : Array) (vs ys : List Text) (n : ℕ)
    → n ≡ length xs + length vs
    → take n (xs ++ (vs ++ ys)) ≡ xs ++ vs
take-append_exact [] [] ys n e = let z : n ≡ 0 = omega arith in rw z refl
take-append_exact [] (v ∷ vs) ys zero e = absurd (omega arith)
take-append_exact [] (v ∷ vs) ys (suc n) e = ap (◌∷◌ v) (take-append_exact [] vs ys n (omega arith))
take-append_exact (x ∷ xs) vs ys zero e = absurd (omega arith)
take-append_exact (x ∷ xs) vs ys (suc n) e = ap (◌∷◌ x) (take-append_exact xs vs ys n (omega arith))

length-take : (n : ℕ) (xs : Array) → n ≤ length xs → length (take n xs) ≡ n
length-take zero xs h = refl
length-take (suc n) [] h = absurd (omega arith)
length-take (suc n) (x ∷ xs) h = ap suc (length-take n xs (omega arith))

-- `append` gives a valid slice that shows the strings of the old one and then the new ones.
pub view-append :
    (st : Store) (s : Slice) (vs spare : List Text)
    → IsValid st s
    → (view (append st s vs spare).0 (append st s vs spare).1 ≡ view st s ++ vs)
      × IsValid (append st s vs spare).0 (append st s vs spare).1
unfolding append
view-append st s vs spare (fits, known) =
    elim (Bool-cases (leb (s.len + length vs) (length (st.array s.address)))) [
      | inl room ↦
          rw (room, ==_refl s.address)
            (
              take-write_at_window (st.array s.address) s.len vs (s.len + length vs) refl
                  (leb→le _ _ room),
              (
                omega (arith, leb→le _ _ room, length-write_at (st.array s.address) s.len vs),
                known,
              ),
            )
      | inr full ↦
          rw (full, ==_refl st.next)
            (
              take-append_exact (view st s) vs spare (s.len + length vs)
                  (omega (arith, length-take s.len (st.array s.address) fits)),
              (
                omega (
                  arith,
                  length-append (view st s) (vs ++ spare),
                  length-append vs spare,
                  length-take s.len (st.array s.address) fits,
                ),
                omega arith,
              ),
            )
    ]

-- A slice in another array, or that ends no later than where the new strings go, shows what it
-- showed before.
pub view-append_other :
    (st : Store) (s t : Slice) (vs spare : List Text)
    → t.address < st.next
    → (t.address ≡ s.address → t.len ≡ s.len)
    → view (append st s vs spare).0 t ≡ view st t
unfolding append
view-append_other st s t vs spare known short =
    elim (Bool-cases (leb (s.len + length vs) (length (st.array s.address)))) [
      | inl room ↦ elim (Bool-cases (s.address == t.address)) [
        | inl same ↦
            let at' : t.address ≡ s.address = ground arith in
            rw (room, same, at', short at') (take-write_at (st.array s.address) s.len vs)
        | inr other ↦ rw (room, other) refl
      ]
      | inr full ↦
          let other : (st.next == t.address) ≡ false = ground arith in rw (full, other) refl
    ]

-- Merging shows the roles of the first subject and then those of the second, and neither subject
-- shows anything else than before.
pub merge_roles-view :
    (st : Store) (mine theirs : Slice) (spare : List Text)
    → IsValid st mine
    → IsValid st theirs
    → theirs.address ≢ mine.address
    → let (st', merged) = merge_roles st mine theirs spare in
      (view st' merged ≡ view st mine ++ view st theirs)
      × (view st' mine ≡ view st mine)
      × (view st' theirs ≡ view st theirs)
unfolding merge_roles
merge_roles-view st mine theirs spare valid (_, known) apart = (
  (view-append st mine (view st theirs) spare valid).0,
  view-append_other st mine mine (view st theirs) spare valid.1 (λ _. refl),
  view-append_other st mine theirs (view st theirs) spare known (λ e. absurd (apart e)),
)

-- with room the new slice is the old one, made longer, and the array keeps its size
append_in_place :
    (st : Store) (s : Slice) (vs spare : List Text)
    → s.len + length vs ≤ length (st.array s.address)
    → ((append st s vs spare).1 ≡ record s { len = s.len + length vs })
      × (length ((append st s vs spare).0.array s.address) ≡ length (st.array s.address))
      × ((append st s vs spare).0.next ≡ st.next)
unfolding append
append_in_place st s vs spare room =
    rw (le→leb _ _ room, ==_refl s.address)
      (refl, length-write_at (st.array s.address) s.len vs, refl)

twice_in_place :
    (st : Store) (s : Slice) (vs ws spare spare' : List Text)
    → IsValid st s
    → length vs ≡ length ws
    → s.len + length vs ≤ length (st.array s.address)
    → let (st₁, long) = append st s vs spare in
      view (append st₁ s ws spare').0 long ≡ view st s ++ ws
twice_in_place st s vs ws spare spare' v same room =
    let (longer, size, kept) = append_in_place st s vs spare room in
    let st₁ : Store = (append st s vs spare).0 in
    let room' : s.len + length ws ≤ length (st₁.array s.address) = omega arith in
    let (longer', _, _) = append_in_place st₁ s ws spare' room' in
    let valid : IsValid st₁ s = (omega arith, omega arith) in
    ap (view (append st₁ s ws spare').0)
      (longer ∙ ap (λ (n : ℕ). record s { len = s.len + n }) same ∙ sym longer')
    ∙ (view-append st₁ s ws spare' valid).0
    ∙ ap (λ (xs : List Text). xs ++ ws) (view-append_other st s s vs spare v.1 (λ _. refl))

-- Two merges of equally many roles from one subject, whose array has room for them and does not hold the
-- roles of the second merge, share their cells: once the second is made, the first merged subject
-- shows the second one's roles in place of its own.
pub merge_roles_twice :
    (st : Store) (mine first second : Slice) (spare spare' : List Text)
    → IsValid st mine
    → IsValid st first
    → IsValid st second
    → second.address ≢ mine.address
    → first.len ≡ second.len
    → mine.len + first.len ≤ length (st.array mine.address)
    → let (st₁, merged₁) = merge_roles st mine first spare in
      let (st₂, merged₂) = merge_roles st₁ mine second spare' in
      view st₂ merged₁ ≡ view st mine ++ view st second
unfolding merge_roles
merge_roles_twice st mine first second spare spare' v (f, _) (s, known) apart₂ same room =
    let seen =
      view-append_other st mine second (view st first) spare known (λ e. absurd (apart₂ e)) in
    let first_length = length-take first.len (st.array first.address) f in
    let second_length = length-take second.len (st.array second.address) s in
    rw seen (
      twice_in_place st mine (view st first) (view st second) spare spare' v (omega arith)
        (omega arith))
