-- ===== src/Authz/Permission/Parse.antt =====
-- What `NewPermissioncs` accepts and what the accepted permission holds.
use mathlib.Core.Path.{subst, ap₂}
use aah.Prelude.{
  ℕ, ◌+◌, ◌≡◌, ◌≢◌, refl, sym, ap, ◌∙◌, ◌↔◌, inl, inr, Bool, true, false, not, List, [], ◌∷◌, ◌++◌,
  map, ◌<◌, arith, if◌then◌else◌, Bool-cases, length, length-append, All, ◌==◌, append_assoc,
  append-nil,
}
use aah.Text.{
  Text, to_lower, trim_space, trim_left, trim_right, is_str_empty, split, cons_head, cons_trimmed,
}
use aah.Text.Trim.{IsTrimmed, trim_space-IsTrimmed, is_str_empty-trim_space}
use aah.Text.Split.{Lacks, split-Lacks, split-ne-nil}
use aah.Authz.Permission.{
  Parts, Permission, ok, err, string_empty, sub_parts, lone_blank, push, parse_parts, parse_into,
  blank, new_permission_cs,
}

-- a string that a part may hold: not empty, no blank at its ends, and no divider in it
abbrev pub IsToken : Text → Type 0
IsToken s = (s ≢ []) × IsTrimmed s × Lacks b':' s × Lacks b',' s

-- trimming drops bytes only
trim_left-Lacks : (b : ℕ) (s : Text) → Lacks b s → Lacks b (trim_left s)
unfolding trim_left
trim_left-Lacks b [] h = tt
trim_left-Lacks b (c ∷ s) h = ground (arith, trim_left-Lacks b s h.1)

cons_trimmed-Lacks :
    (b c : ℕ) (s : Text) → (c == b) ≡ false → Lacks b s → Lacks b (cons_trimmed c s)
cons_trimmed-Lacks b c [] p h = ground arith
cons_trimmed-Lacks b c (d ∷ s) p h = (p, h)

trim_right-Lacks : (b : ℕ) (s : Text) → Lacks b s → Lacks b (trim_right s)
unfolding trim_right
trim_right-Lacks b [] h = tt
trim_right-Lacks b (c ∷ s) (p, h) = cons_trimmed-Lacks b c (trim_right s) p (trim_right-Lacks b s h)

trim_space-Lacks : (b : ℕ) (s : Text) → Lacks b s → Lacks b (trim_space s)
unfolding trim_space
trim_space-Lacks b s h = trim_right-Lacks b (trim_left s) (trim_left-Lacks b s h)

-- the pieces between commas of a text with no colon have no colon
cons_head-Lacks_other :
    (b c : ℕ) (ss : List Text)
    → (c == b) ≡ false
    → All (Lacks b) ss
    → All (Lacks b) (cons_head c ss)
cons_head-Lacks_other b c [] p h = ((p, tt), tt)
cons_head-Lacks_other b c (s ∷ ss) p (k, h) = ((p, k), h)

split-Lacks_other : (sep b : ℕ) (s : Text) → Lacks b s → All (Lacks b) (split sep s)
unfolding split
split-Lacks_other sep b [] h = (tt, tt)
split-Lacks_other sep b (c ∷ s) (p, h) = elim (Bool-cases (c == sep)) [
  | inl e ↦ rw e (tt, split-Lacks_other sep b s h)
  | inr e ↦ rw e (cons_head-Lacks_other b c (split sep s) p (split-Lacks_other sep b s h))
]

trim_space-IsToken :
    (s : Text) → is_str_empty s ≡ false → Lacks b':' s → Lacks b',' s → IsToken (trim_space s)
unfolding is_str_empty
trim_space-IsToken s e h k = (
  λ n. cc (rw n at e),
  trim_space-IsTrimmed s,
  trim_space-Lacks b':' s h,
  trim_space-Lacks b',' s k,
)

sub_parts-IsToken :
    (ss : List Text) → All (Lacks b':') ss → All (Lacks b',') ss → All IsToken (sub_parts ss)
unfolding sub_parts
sub_parts-IsToken [] h k = tt
sub_parts-IsToken (s ∷ ss) (p, h) (q, k) = elim (Bool-cases (is_str_empty s)) [
  | inl e ↦ rw e (sub_parts-IsToken ss h k)
  | inr e ↦ rw e (trim_space-IsToken s e p q, sub_parts-IsToken ss h k)
]

-- the strings of one piece between the colons
abbrev pub piece : Text → Parts
piece part = sub_parts (split b',' part)

abbrev pub IsGoodPiece : Text → Type 0
IsGoodPiece part = lone_blank (split b',' part) ≡ false

-- the text that is split at its colons
abbrev pub folded : Text → Bool → Text
folded s cs = if not cs then to_lower (trim_space s) else trim_space s

parse_parts_sound :
    (p : Permission) (ss : List Text) (r : Permission)
    → parse_parts p ss ≡ ok r
    → All IsGoodPiece ss × (r.parts ≡ p.parts ++ map piece ss)
unfolding parse_parts
parse_parts_sound p [] r e = (tt, rw append-nil (ground arith))
parse_parts_sound p (s ∷ ss) r e = elim (Bool-cases (lone_blank (split b',' s))) [
  | inl bad ↦ cc (rw bad at e)
  | inr good ↦
      let (h, q) = parse_parts_sound (push p (piece s)) ss r (rw good at e) in
      ((good, h), q ∙ append_assoc p.parts (piece s ∷ []) (map piece ss))
]

parse_parts_complete :
    (p : Permission) (ss : List Text)
    → 0 < length p.parts + length ss
    → All IsGoodPiece ss
    → parse_parts p ss ≡ ok (record { parts = p.parts ++ map piece ss })
unfolding parse_parts
parse_parts_complete p [] n h = rw append-nil (ground arith)
parse_parts_complete p (s ∷ ss) n (good, h) = rw good (
    parse_parts_complete (push p (piece s)) ss (omega (arith, length-append p.parts (piece s ∷ [])))
      h
    ∙ rw append_assoc refl)

length-pos {ℓ} : {A : Type ℓ} (xs : List A) → xs ≢ [] → 0 < length xs
length-pos [] h = absurd (h refl)
length-pos (x ∷ xs) h = omega arith

-- what the loops read, against the loops' own results
pub new_permission_cs-pieces_iff :
    (s : Text) (cs : Bool) (r : Permission)
    → (new_permission_cs s cs ≡ ok r) ↔ (
        (is_str_empty s ≡ false)
        × All IsGoodPiece (split b':' (folded s cs))
        × (r.parts ≡ map piece (split b':' (folded s cs))))
unfolding new_permission_cs parse_into
new_permission_cs-pieces_iff s cs r = elim (Bool-cases (is_str_empty s)) [
  | inl e ↦ rw (is_str_empty-trim_space s, e) (λ h. cc h, λ (f, _, _). cc f)
  | inr e ↦
      rw (is_str_empty-trim_space s, e)
        (
          λ h. let (g, q) = parse_parts_sound blank (split b':' (folded s cs)) r h in (refl, g, q),
          λ (_, g, q).
              parse_parts_complete blank (split b':' (folded s cs))
                (omega
                  (arith, length-pos (split b':' (folded s cs)) (split-ne-nil b':' (folded s cs))))
                g
              ∙ ap (λ (ps : List Parts). ok (record { parts = ps })) (sym q),
        )
]

-- the strings that are read from the pieces between commas: those that are not blank, trimmed
pub data Reads : List Text → Parts → Type 0 where
  finished : Reads [] []
  skipped :
      {s : Text} {ss : List Text} {p : Parts}
      → is_str_empty s ≡ true
      → Reads ss p
      → Reads (s ∷ ss) p
  read :
      {s : Text} {ss : List Text} {p : Parts}
      → is_str_empty s ≡ false
      → Reads ss p
      → Reads (s ∷ ss) (trim_space s ∷ p)

-- the parts that are read from the pieces between colons
abbrev pub ReadsAll : List Text → List Parts → Type 0
ReadsAll [] [] = Unit
ReadsAll (s ∷ ss) (p ∷ ps) = Reads (split b',' s) p × ReadsAll ss ps
ReadsAll _ _ = ⊥

-- a piece that is not one blank text
abbrev pub NotBlank : Text → Type 0
NotBlank piece' = (s : Text) → split b',' piece' ≡ s ∷ [] → is_str_empty s ≡ false

sub_parts-Reads : (ss : List Text) → Reads ss (sub_parts ss)
unfolding sub_parts
sub_parts-Reads [] = finished
sub_parts-Reads (s ∷ ss) = elim (Bool-cases (is_str_empty s)) [
  | inl e ↦ rw e (skipped e (sub_parts-Reads ss))
  | inr e ↦ rw e (read e (sub_parts-Reads ss))
]

Reads-sub_parts : (ss : List Text) (p : Parts) → Reads ss p → p ≡ sub_parts ss
unfolding sub_parts
Reads-sub_parts [] p finished = refl
Reads-sub_parts (s ∷ ss) p (skipped e r) = rw e (Reads-sub_parts ss p r)
Reads-sub_parts (s ∷ ss) (t ∷ p) (read e r) =
    rw e (ap (◌∷◌ (trim_space s)) (Reads-sub_parts ss p r))

ReadsAll-pieces : (ss : List Text) (ps : List Parts) → ReadsAll ss ps ↔ (ps ≡ map piece ss)
ReadsAll-pieces [] [] = (λ h. refl, λ e. tt)
ReadsAll-pieces [] (p ∷ ps) = (λ h. elim h [ ], λ e. absurd (cc e))
ReadsAll-pieces (s ∷ ss) [] = (λ h. elim h [ ], λ e. absurd (cc e))
ReadsAll-pieces (s ∷ ss) (p ∷ ps) = (
  λ (r, rs).
      ap₂ (λ (x : Parts) (xs : List Parts). x ∷ xs) (Reads-sub_parts (split b',' s) p r)
        ((ReadsAll-pieces ss ps).0 rs),
  λ e. (
    subst (Reads (split b',' s)) (sym (head_eq e)) (sub_parts-Reads (split b',' s)),
    (ReadsAll-pieces ss ps).1 (tail_eq e),
  ),
)
  where
    head_eq : p ∷ ps ≡ piece s ∷ map piece ss → p ≡ piece s
    head_eq e = cc e

    tail_eq : p ∷ ps ≡ piece s ∷ map piece ss → ps ≡ map piece ss
    tail_eq e = cc e

good_iff :
    (ss : List Text) → (lone_blank ss ≡ false) ↔ ((s : Text) → ss ≡ s ∷ [] → is_str_empty s ≡ false)
good_iff [] = (λ h s e. absurd (cc e), λ h. refl)
good_iff (s ∷ []) = (λ h t e. subst (λ x. is_str_empty x ≡ false) (only e) h, λ h. h s refl)
  where
    only : {t : Text} → s ∷ [] ≡ t ∷ [] → s ≡ t
    only e = cc e
good_iff (s ∷ t ∷ ss) = (λ h u e. absurd (cc e), λ h. refl)

All-NotBlank : (ss : List Text) → All IsGoodPiece ss ↔ All NotBlank ss
All-NotBlank [] = (λ h. tt, λ h. tt)
All-NotBlank (s ∷ ss) = (
  λ (g, gs). ((good_iff (split b',' s)).0 g, (All-NotBlank ss).0 gs),
  λ (g, gs). ((good_iff (split b',' s)).1 g, (All-NotBlank ss).1 gs),
)

-- `NewPermissioncs` returns a permission exactly when the text is not blank and no piece between the
-- colons of the trimmed text, in lower case unless case is kept, is one blank text between its commas;
-- the permission then holds for each piece, in order, the texts between its commas that are not blank,
-- trimmed.
pub new_permission_cs_iff :
    (s : Text) (cs : Bool) (r : Permission)
    → (new_permission_cs s cs ≡ ok r) ↔ (
        (is_str_empty s ≡ false)
        × All NotBlank (split b':' (folded s cs))
        × ReadsAll (split b':' (folded s cs)) r.parts)
new_permission_cs_iff s cs r =
    let old = new_permission_cs-pieces_iff s cs r in
    let ss = split b':' (folded s cs) in
    (
      λ h. let (e, g, q) = old.0 h in (e, (All-NotBlank ss).0 g, (ReadsAll-pieces ss r.parts).1 q),
      λ (e, g, q). old.1 (e, (All-NotBlank ss).1 g, (ReadsAll-pieces ss r.parts).0 q),
    )

parse_parts-ne-empty : (p : Permission) (ss : List Text) → parse_parts p ss ≢ err string_empty
unfolding parse_parts
parse_parts-ne-empty p [] h = ground arith
parse_parts-ne-empty p (s ∷ ss) h = ground (arith, parse_parts-ne-empty (push p (piece s)) ss)

-- A blank text is refused as empty, and only such a text.
pub new_permission_cs-eq-empty_iff :
    (s : Text) (cs : Bool) → (new_permission_cs s cs ≡ err string_empty) ↔ (is_str_empty s ≡ true)
unfolding new_permission_cs parse_into
new_permission_cs-eq-empty_iff s cs = elim (Bool-cases (is_str_empty s)) [
  | inl e ↦ rw (is_str_empty-trim_space s, e) (λ h. refl, λ h. refl)
  | inr e ↦
      rw (is_str_empty-trim_space s, e)
        (λ h. absurd (parse_parts-ne-empty blank (split b':' (folded s cs)) h), λ h. cc h)
]

All-map-piece : (ss : List Text) → All (Lacks b':') ss → All (All IsToken) (map piece ss)
All-map-piece [] h = tt
All-map-piece (s ∷ ss) (p, h) = (
  sub_parts-IsToken (split b',' s) (split-Lacks_other b',' b':' s p) (split-Lacks b',' s),
  All-map-piece ss h,
)

-- Every string of a permission that `NewPermissioncs` returns is a token.
pub new_permission_cs-tokens :
    (s : Text) (cs : Bool) (r : Permission)
    → new_permission_cs s cs ≡ ok r
    → All (All IsToken) r.parts
new_permission_cs-tokens s cs r e =
    let (_, _, q) = (new_permission_cs-pieces_iff s cs r).0 e in
    rw q (All-map-piece (split b':' (folded s cs)) (split-Lacks b':' (folded s cs)))
