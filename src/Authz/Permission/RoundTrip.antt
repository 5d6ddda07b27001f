-- ===== src/Authz/Permission/RoundTrip.antt =====
-- The text between the brackets of `Permission.String`, parsed by `NewPermissioncs`.
use aah.Prelude.{
  ℕ, ◌≡◌, ◌≢◌, refl, sym, ◌∙◌, Bool, true, false, List, [], ◌∷◌, ◌++◌, map, All, All-append, ◌==◌,
}
use aah.Text.{Text, codes, split, join}
use aah.Text.Trim.{
  IsTrimmed, trim_space_of_IsTrimmed, trim_left-append, trim_right-append,
  is_str_empty_of_IsTrimmed,
}
use aah.Text.Split.{Lacks, split-join, split-ne-nil}
use aah.Authz.Permission.{Parts, Permission, ok, sub_parts, lone_blank, render, new_permission_cs}
use aah.Authz.Permission.Parse.{
  IsToken, piece, IsGoodPiece, folded, new_permission_cs-pieces_iff, new_permission_cs-tokens,
}

abbrev IsSolid : Text → Type 0
IsSolid s = (s ≢ []) × IsTrimmed s

append-ne-nil : (s t : Text) → t ≢ [] → s ++ t ≢ []
append-ne-nil [] t n h = n h
append-ne-nil (c ∷ s) t n h = cc h

join-IsSolid :
    (b : ℕ) (s : Text) (ss : List Text) → All IsSolid (s ∷ ss) → IsSolid (join (b ∷ []) (s ∷ ss))
unfolding join
join-IsSolid b s [] (h, _) = h
join-IsSolid b s (t ∷ ss) ((n, (l, r)), h) =
    let rest_solid = join-IsSolid b t ss h in
    let rest : Text = b ∷ join (b ∷ []) (t ∷ ss) in
    (
      append-ne-nil s rest (λ e. cc e),
      (
        trim_left-append s rest n l,
        trim_right-append s rest (λ e. cc e)
            (trim_right-append (b ∷ []) (join (b ∷ []) (t ∷ ss)) rest_solid.0 rest_solid.1.1),
      ),
    )

join-Lacks :
    (b sep : ℕ) (ss : List Text)
    → (sep == b) ≡ false
    → All (Lacks b) ss
    → All (λ c. (c == b) ≡ false) (join (sep ∷ []) ss)
unfolding join
join-Lacks b sep [] p h = tt
join-Lacks b sep (s ∷ []) p h = h.0
join-Lacks b sep (s ∷ t ∷ ss) p (h, k) =
    All-append (λ c. (c == b) ≡ false) s _ h (p, join-Lacks b sep (t ∷ ss) p k)

-- parts that a text can show: each holds a token
abbrev pub IsFull : Parts → Type 0
IsFull part = (part ≢ []) × All IsToken part

tokens-colon : (part : Parts) → All IsToken part → All (Lacks b':') part
tokens-colon [] h = tt
tokens-colon (s ∷ part) ((_, _, c, _), h) = (c, tokens-colon part h)

tokens-comma : (part : Parts) → All IsToken part → All (Lacks b',') part
tokens-comma [] h = tt
tokens-comma (s ∷ part) ((_, _, _, c), h) = (c, tokens-comma part h)

tokens-IsSolid : (part : Parts) → All IsToken part → All IsSolid part
tokens-IsSolid [] h = tt
tokens-IsSolid (s ∷ part) ((n, t, _, _), h) = ((n, t), tokens-IsSolid part h)

sub_parts_tokens : (part : Parts) → All IsToken part → sub_parts part ≡ part
unfolding sub_parts
sub_parts_tokens [] h = refl
sub_parts_tokens (s ∷ part) ((n, t, _, _), h) =
    rw (is_str_empty_of_IsTrimmed s n t, trim_space_of_IsTrimmed s t, sub_parts_tokens part h) refl

lone_blank_tokens : (part : Parts) → All IsToken part → lone_blank part ≡ false
lone_blank_tokens [] h = refl
lone_blank_tokens (s ∷ []) ((n, t, _, _), h) = is_str_empty_of_IsTrimmed s n t
lone_blank_tokens (s ∷ t ∷ part) h = refl

split-join_part : (part : Parts) → IsFull part → split b',' (join (codes ",") part) ≡ part
split-join_part [] (n, h) = absurd (n refl)
split-join_part (s ∷ part) (n, h) = split-join b',' s part (tokens-comma (s ∷ part) h)

pieces-back :
    (ps : List Parts)
    → All IsFull ps
    → All IsGoodPiece (map (join (codes ",")) ps) × (map piece (map (join (codes ",")) ps) ≡ ps)
pieces-back [] h = (tt, refl)
pieces-back (part ∷ ps) (f, h) =
    let (g, e) = pieces-back ps h in
    (
      (rw (split-join_part part f) (lone_blank_tokens part f.1), g),
      rw (split-join_part part f, sub_parts_tokens part f.1, e) refl,
    )

part-IsSolid : (part : Parts) → IsFull part → IsSolid (join (codes ",") part)
part-IsSolid [] (n, h) = absurd (n refl)
part-IsSolid (s ∷ part) (n, h) = join-IsSolid b',' s part (tokens-IsSolid (s ∷ part) h)

parts-IsSolid : (ps : List Parts) → All IsFull ps → All IsSolid (map (join (codes ",")) ps)
parts-IsSolid [] h = tt
parts-IsSolid (part ∷ ps) (f, h) = (part-IsSolid part f, parts-IsSolid ps h)

parts-colon : (ps : List Parts) → All IsFull ps → All (Lacks b':') (map (join (codes ",")) ps)
parts-colon [] h = tt
parts-colon (part ∷ ps) (f, h) =
    (join-Lacks b':' b',' part refl (tokens-colon part f.1), parts-colon ps h)

-- Every permission with a part, whose parts each hold a token, is read back from its text.
pub new_permission_cs-render :
    (ps : List Parts)
    → ps ≢ []
    → All IsFull ps
    → new_permission_cs (render ps) true ≡ ok (record { parts = ps })
unfolding render
new_permission_cs-render [] n h = absurd (n refl)
new_permission_cs-render (part ∷ ps) n h =
    let text : Text = join (codes ":") (map (join (codes ",")) (part ∷ ps)) in
    let (solid, trimmed) =
      join-IsSolid b':' (join (codes ",") part) (map (join (codes ",")) ps)
        (parts-IsSolid (part ∷ ps) h) in
    let back =
      split-join b':' (join (codes ",") part) (map (join (codes ",")) ps)
        (parts-colon (part ∷ ps) h) in
    let (good, e) = pieces-back (part ∷ ps) h in
    (new_permission_cs-pieces_iff text true (record { parts = part ∷ ps })).1 (
      is_str_empty_of_IsTrimmed text solid trimmed,
      rw (trim_space_of_IsTrimmed text trimmed, back) good,
      rw (trim_space_of_IsTrimmed text trimmed, back) (sym e),
    )

fill : (ps : List Parts) → All (All IsToken) ps → All (λ part. part ≢ []) ps → All IsFull ps
fill [] h k = tt
fill (part ∷ ps) (h, hs) (k, ks) = ((k, h), fill ps hs ks)

map-ne-nil {ℓ κ} : {A : Type ℓ} {B : Type κ} (f : A → B) (xs : List A) → xs ≢ [] → map f xs ≢ []
map-ne-nil f [] n h = n refl
map-ne-nil f (x ∷ xs) n h = cc h

parsed-ne-nil :
    (s : Text) (cs : Bool) (r : Permission) → new_permission_cs s cs ≡ ok r → r.parts ≢ []
parsed-ne-nil s cs r e h =
    let (_, _, q) = (new_permission_cs-pieces_iff s cs r).0 e in
    map-ne-nil piece (split b':' (folded s cs)) (split-ne-nil b':' (folded s cs)) (sym q ∙ h)

-- A permission that was read from a text, none of whose parts is empty, is read back, case kept, from
-- the text that `String` shows between its brackets.
pub new_permission_cs-render-new_permission_cs :
    (s : Text) (cs : Bool) (r : Permission)
    → new_permission_cs s cs ≡ ok r
    → All (λ part. part ≢ []) r.parts
    → new_permission_cs (render r.parts) true ≡ ok r
new_permission_cs-render-new_permission_cs s cs r e f =
    new_permission_cs-render r.parts (parsed-ne-nil s cs r e)
      (fill r.parts (new_permission_cs-tokens s cs r e) f)
