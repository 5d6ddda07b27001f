-- ===== src/Router/Tree/Lookup/Pattern.antt =====
-- The patterns under which a tree stores its routes, what a path matches, and how the parts of a
-- round of `lookup` meet them.
use mathlib.Core.Path.{ap₂}
use aah.Prelude.{
  ℕ, zero, suc, ◌≡◌, ◌≤◌, ◌<◌, ◌-◌, refl, ap, ◌∙◌, ◌⊎◌, inl, inr, Bool, true, false, ◌&&◌, List, [],
  ◌∷◌, ◌++◌, map, append-nil, Option, none, some, some_inj, arith, Bool-cases, length, ◌==◌, All,
  ==_iff,
}
use aah.Text.{drop, take, Text, lower_byte, to_lower}
use aah.Router.Escape.{path_unescape}
use aah.Router.Tree.{
  NodeType, static_node, param_node, wildcard_node, is_static, slash_byte, Info, Node, Edges, nil,
  cons, info, edges, wnode, find_static, common,
}
use aah.Router.Tree.Lookup.{Params, ok, segment, finish, or_else, next_node, shorter}

-- a byte of the lower-cased path, a named segment, or a named rest
pub data Piece : Type 0 where
  lit : ℕ → Piece
  param rest : Text → Piece

abbrev pub Pattern : Type 0
Pattern = List Piece

abbrev pub pieces_of : NodeType → Text → Text → Pattern
pieces_of static_node label arg = map lit label
pieces_of param_node label arg = param arg ∷ []
pieces_of wildcard_node label arg = rest arg ∷ []

-- A path matches a pattern with the values of its parameters, in order.
pub data Matches : Pattern → Text → Params → Type 0 where
  end : Matches [] [] []
  byte :
      {c : ℕ} {d : ℕ} {q : Pattern} {p : Text} {ps : Params}
      → lower_byte d ≡ c
      → Matches q p ps
      → Matches (lit c ∷ q) (d ∷ p) ps
  segment_of :
      {a : Text} {q : Pattern} {ps : Params} {p : Text} (v w : Text)
      → p ≡ v ++ w
      → All (λ c. (c == slash_byte) ≡ false) v
      → Matches q w ps
      → Matches (param a ∷ q) p ((a, path_unescape v) ∷ ps)
  rest_of : {a : Text} {p : Text} → Matches (rest a ∷ []) p ((a, path_unescape p) ∷ [])

module _ {R : Type 0} where
  abbrev pub InEdges : Node R → Edges R → Type 0
  InEdges n nil = ⊥
  InEdges n (cons m es) = (m ≡ n) ⊎ InEdges n es

  abbrev pub pieces : Info R → Pattern
  pieces i = pieces_of i.typ i.label i.arg

  -- The tree below a node stores a route under a pattern.
  pub data Stores : Node R → Pattern → R → Type 0 where
    here : {n : Node R} {r : R} → (info n).value ≡ some r → Stores n (pieces (info n)) r
    below :
        {n m : Node R} {q : Pattern} {r : R}
        → InEdges m (edges n)
        → Stores m q r
        → Stores n (pieces (info n) ++ q) r

  pub wnode-InEdges : (es : Edges R) (w : Node R) → wnode es ≡ some w → InEdges w es
  unfolding wnode
  wnode-InEdges nil w h = cc
  wnode-InEdges (cons n es) w h = elim (Bool-cases (is_static (info n).typ)) [
    | inl e ↦ inr (wnode-InEdges es w (rw e at h))
    | inr e ↦ inl (some_inj (rw e at h))
  ]

  find_static-InEdges :
      (c : ℕ) (es : Edges R) (e : Node R) → find_static c es ≡ some e → InEdges e es
  unfolding find_static
  find_static-InEdges c nil w h = cc
  find_static-InEdges c (cons n es) w h =
      elim (Bool-cases (((info n).idx == c) && is_static (info n).typ)) [
        | inl e ↦ inl (some_inj (rw e at h))
        | inr e ↦ inr (find_static-InEdges c es w (rw e at h))
      ]

  pub next_node-InEdges :
      (sn m : Node R) (s : Text) → next_node sn s ≡ some m → InEdges m (edges sn)
  next_node-InEdges sn m [] h = cc
  next_node-InEdges sn m (c ∷ s) h = or_else-InEdges (find_static c (edges sn)) refl h
    where
      or_else-InEdges :
          (o : Option (Node R))
          → find_static c (edges sn) ≡ o
          → or_else o (wnode (edges sn)) ≡ some m
          → InEdges m (edges sn)
      or_else-InEdges none e k = wnode-InEdges (edges sn) m k
      or_else-InEdges (some n) e k = find_static-InEdges c (edges sn) m (e ∙ k)

  pub finish_route :
      (pn sn : Node R) (i : ℕ) (params out : Option Params) (r : R) (b : Bool)
      → finish true pn sn i params ≡ ok (record { route = some r; params = out; rts = b })
      → (length (info sn).label ≤ i) × ((info sn).value ≡ some r) × (out ≡ params)
  unfolding finish
  finish_route pn sn i params out r b h = ground arith

pub common_whole : (s l : Text) → common s l ≡ length l → s ≡ l ++ drop (length l) s
unfolding common
common_whole s [] h = refl
common_whole [] (d ∷ l) h = absurd (omega arith)
common_whole (c ∷ s) (d ∷ l) h = elim (Bool-cases (c == d)) [
  | inl e ↦ ap₂ ◌∷◌ ((==_iff c d).0 e) (common_whole s l (ground arith))
  | inr e ↦ absurd (ground arith)
]

lower_slash : (c : ℕ) → (lower_byte c == slash_byte) ≡ (c == slash_byte)
unfolding lower_byte
lower_slash c = ground arith

pub segment-to_lower : (p : Text) → segment (to_lower p) ≡ segment p
unfolding segment
segment-to_lower [] = refl
segment-to_lower (c ∷ p) = rw (lower_slash c, segment-to_lower p) refl

pub drop-to_lower : (n : ℕ) (p : Text) → drop n (to_lower p) ≡ to_lower (drop n p)
drop-to_lower zero p = refl
drop-to_lower (suc n) [] = refl
drop-to_lower (suc n) (c ∷ p) = drop-to_lower n p

pub length-to_lower : (p : Text) → length (to_lower p) ≡ length p
length-to_lower [] = refl
length-to_lower (c ∷ p) = ap suc (length-to_lower p)

pub segment-no_slash : (p : Text) → All (λ c. (c == slash_byte) ≡ false) (take (segment p) p)
unfolding segment
segment-no_slash [] = tt
segment-no_slash (c ∷ p) = elim (Bool-cases (c == slash_byte)) [
  | inl e ↦ rw e tt
  | inr e ↦ rw e (e, segment-no_slash p)
]

pub take-append-drop : (n : ℕ) (p : Text) → p ≡ take n p ++ drop n p
take-append-drop zero p = refl
take-append-drop (suc n) [] = refl
take-append-drop (suc n) (c ∷ p) = ap (◌∷◌ c) (take-append-drop n p)

-- a path that begins with the label of a static node
pub Matches-lits :
    (l p u : Text) {q : Pattern} {ps : Params}
    → to_lower p ≡ l ++ u
    → Matches q (drop (length l) p) ps
    → Matches (map lit l ++ q) p ps
Matches-lits [] p u h m = m
Matches-lits (c ∷ l) [] u h m = absurd (cc h)
Matches-lits (c ∷ l) (d ∷ p) u h m = byte (cc h) (Matches-lits l p u (cc h) m)

-- all of the path is the label
pub Matches-label : (l p : Text) → to_lower p ≡ l → Matches (map lit l) p []
Matches-label [] [] h = end
Matches-label [] (d ∷ p) h = absurd (cc h)
Matches-label (c ∷ l) [] h = absurd (cc h)
Matches-label (c ∷ l) (d ∷ p) h = byte (cc h) (Matches-label l p (cc h))

common-le : (s l : Text) → common s l ≤ length l
unfolding common
common-le [] l = omega arith
common-le (c ∷ s) [] = omega arith
common-le (c ∷ s) (d ∷ l) = ground (arith, common-le s l)

length-drop : (n : ℕ) (s : Text) → length (drop n s) ≡ length s - n
length-drop zero s = omega arith
length-drop (suc n) [] = omega arith
length-drop (suc n) (c ∷ s) = omega (arith, length-drop n s)

drop-length : (n : ℕ) (s : Text) → length s ≤ n → drop n s ≡ []
drop-length zero [] h = refl
drop-length zero (c ∷ s) h = absurd (omega arith)
drop-length (suc n) [] h = refl
drop-length (suc n) (c ∷ s) h = drop-length n s (omega arith)

-- the path ends with the label
pub common_end : (s l : Text) → length (drop (common s l) s) ≡ 0 → length l ≤ common s l → s ≡ l
common_end s l z far =
    let whole : common s l ≡ length l = omega (arith, common-le s l) in
    common_whole s l whole
    ∙ ap (◌++◌ l) (drop-length (length l) s (omega (arith, length-drop (common s l) s, whole)))
    ∙ append-nil l

-- the path goes on behind the label
pub common_next :
    (s l : Text)
    → common s l ≡ shorter s l
    → 0 < length (drop (common s l) s)
    → common s l ≡ length l
common_next s l c more = ground (arith, length-drop (common s l) s)
