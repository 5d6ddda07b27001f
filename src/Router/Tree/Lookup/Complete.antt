-- ===== src/Router/Tree/Lookup/Complete.antt =====
-- `lookup` of router/tree.go on paths without parameters, which static nodes spell out.
use mathlib.Core.Path.{subst}
use aah.Prelude.{
  ℕ, zero, suc, ◌≡◌, ◌≤◌, refl, sym, ap, ◌∙◌, inl, inr, Bool, false, List, [], ◌∷◌, ◌++◌,
  append-nil, Option, none, some, arith, length, length-append, ==_refl, ==_iff, ne-test, In,
}
use aah.Text.{drop, Text, to_lower}
use aah.Text.Split.{Lacks}
use aah.Text.Index.{drop-append}
use aah.Router.Tree.{
  NodeType, static_node, param_node, wildcard_node, param_byte, wild_byte, Info, Node, node, Edges,
  nil, cons, info, find_static, wnode, common,
}
use aah.Router.Tree.Insert.{Tree, first}
use aah.Router.Tree.Insert.Binds.{
  Binds, BindsIn, Binds-prefix, IsEdge-first, NoneAt, BindsIn-nil, Keyed, KeyedEdges,
  NoneAt-BindsIn,
}
use aah.Router.Tree.Insert.Typed.{EndsMarked, Marked, Typed, TypedEdges}
use aah.Router.Tree.Insert.TypedBuilt.{Built-Typed}
use aah.Router.Tree.Insert.Built.{Built, Built-Binds}
use aah.Router.Tree.Lookup.{
  Params, done, next, finish, next_node, or_else, advance, shorter, visit, round, resume, walk,
  lookup,
}
use aah.Router.Tree.Lookup.Pattern.{InEdges}
use aah.Router.Tree.Lookup.Fuel.{height, height_edges, height-InEdges, height_eq}
use aah.Router.Tree.Lookup.Reached.{Walk, hit}

-- a path that names no parameter
abbrev pub IsPlain : Text → Type 0
IsPlain s = Lacks param_byte s × Lacks wild_byte s

IsPlain-drop : (s t : Text) → IsPlain (s ++ t) → IsPlain t
IsPlain-drop [] t h = h
IsPlain-drop (c ∷ s) t ((_, a), (_, b)) = IsPlain-drop s t (a, b)

not_marked : (s t : Text) → EndsMarked s → IsPlain (s ++ t) → ⊥
not_marked [] t m h = m
not_marked (c ∷ []) t (inl e) ((a, _), _) = cc (a, (==_iff c param_byte).1 e)
not_marked (c ∷ []) t (inr e) (_, (b, _)) = cc (b, (==_iff c wild_byte).1 e)
not_marked (c ∷ d ∷ s) t m ((_, a), (_, b)) = not_marked (d ∷ s) t m (a, b)

plain_static : (typ : NodeType) (s t : Text) → Marked typ s → IsPlain (s ++ t) → typ ≡ static_node
plain_static static_node s t m h = refl
plain_static param_node s t m h = absurd (not_marked s t m h)
plain_static wildcard_node s t m h = absurd (not_marked s t m h)

common-label : (l k : Text) → common (l ++ k) l ≡ length l
unfolding common
common-label [] [] = refl
common-label [] (c ∷ k) = refl
common-label (c ∷ l) k = rw (==_refl c, common-label l k) refl

shorter-label : (l k : Text) → shorter (l ++ k) l ≡ length l
shorter-label l k = ground (arith, length-append l k)

module _ {R : Type 0} where
  -- the round at a static node whose label the path starts with
  read_label :
      (ts : Bool) (max_params : ℕ) (pn n : Node R) (s k p : Text) (params : Option Params)
      → (info n).typ ≡ static_node
      → s ≡ (info n).label ++ k
      → round ts max_params pn (some n) s p params
        ≡ advance ts pn n (length (info n).label) ((info n).label ++ k) p params
  unfolding round visit
  read_label ts max_params pn n s k p params t e =
      rw
        (
          t,
          e,
          common-label (info n).label k,
          shorter-label (info n).label k,
          ==_refl (length (info n).label),
        )
        refl

  arrived :
      (ts : Bool) (pn n : Node R) (v : R) (p : Text) (params : Option Params)
      → (info n).value ≡ some v
      → advance ts pn n (length (info n).label) ((info n).label ++ []) p params
        ≡ done (hit v params false)
  unfolding advance finish
  arrived ts pn n v p params h = rw (drop-append (info n).label [], h) (ground arith)

  goes_on :
      (ts : Bool) (pn : Node R) (inf : Info R) (m : Node R) (es : Edges R) (c : ℕ) (k p : Text)
      (params : Option Params)
      → advance ts pn (node inf (cons m es)) (length inf.label) (inf.label ++ c ∷ k) p params
        ≡ next
            (node inf (cons m es))
            (next_node (node inf (cons m es)) (c ∷ k))
            (c ∷ k)
            (drop (length inf.label) p)
            params
  unfolding advance
  goes_on ts pn inf m es c k p params = rw (drop-append inf.label (c ∷ k)) (ground arith)

  binding_static :
      (s : Text) (v : R) (n : Node R)
      → Typed n
      → IsPlain s
      → Binds s v n
      → (info n).typ ≡ static_node
  binding_static s v (node inf es) (m, _) h b =
      let (k, e) = Binds-prefix s v (node inf es) b in
      plain_static inf.typ inf.label k m (subst IsPlain e h)

  -- the child that binds a path without parameters is the one that the loop finds
  abbrev Child : ℕ → Text → R → Edges R → Type 0
  Child c k v es =
      (m : Node R) × (find_static c es ≡ some m)
      × InEdges m es
      × Keyed m
      × Typed m
      × Binds (c ∷ k) v m

  find_static-Child :
      (c : ℕ) (k : Text) (v : R) (es : Edges R)
      → KeyedEdges es
      → TypedEdges es
      → IsPlain (c ∷ k)
      → BindsIn (c ∷ k) v es
      → Child c k v es
  unfolding find_static
  find_static-Child c k v nil ks ts h b = elim b [ ]
  find_static-Child c k v (cons n es) (g, kn, _, _) (tn, _) h (inl b) =
      let (k', e) = IsEdge-first (c ∷ k) v n g b in
      rw ((==_iff (info n).idx c).1 (sym (ap first e)), binding_static (c ∷ k) v n tn h b)
        (n, refl, inl refl, kn, tn, b)
  find_static-Child c k v (cons n es) (_, _, apart, ks) (_, ts) h (inr b) =
      let (m, e, i, km, tm, bm) = find_static-Child c k v es ks ts h b in
      rw
        (ne-test (info n).idx c
          λ f. NoneAt-BindsIn c k v es ks (subst (λ (x : ℕ). NoneAt x es) f apart) b)
        (m, e, inr i, km, tm, bm)

  -- the loop at a node that binds the path
  abbrev Finds : Walk R → ℕ → Type 0
  Finds go fuel =
      (pn n : Node R) (s p : Text) (params : Option Params) (v : R)
      → Keyed n
      → Typed n
      → IsPlain s
      → Binds s v n
      → height n ≤ fuel
      → go pn (some n) s p params ≡ hit v params false

  -- the rest of the path goes to a child
  below :
      (ts : Bool) (go : Walk R) (fuel : ℕ)
      → Finds go fuel
      → (pn : Node R) (inf : Info R) (es : Edges R) (k p : Text) (params : Option Params) (v : R)
      → KeyedEdges es
      → TypedEdges es
      → IsPlain k
      → BindsIn k v es
      → height_edges es ≤ fuel
      → resume go (advance ts pn (node inf es) (length inf.label) (inf.label ++ k) p params)
        ≡ hit v params false
  below ts go fuel ih pn inf es [] p params v ks te h b f = elim (BindsIn-nil v es ks b) [ ]
  below ts go fuel ih pn inf nil (c ∷ k) p params v ks te h b f = elim b [ ]
  below ts go fuel ih pn inf (cons m es) (c ∷ k) p params v ks te h b f =
      let (n, e, i, kn, tn, bn) = find_static-Child c k v (cons m es) ks te h b in
      ap (resume go) (goes_on ts pn inf m es c k p params)
      ∙ ap
          (λ (o : Option (Node R)).
            go (node inf (cons m es)) (or_else o (wnode (cons m es))) (c ∷ k)
              (drop (length inf.label) p) params)
          e
      ∙ ih (node inf (cons m es)) n (c ∷ k) (drop (length inf.label) p) params v kn tn h bn
          (omega (arith, height-InEdges n (cons m es) i))

  walk-Finds : (ts : Bool) (max_params fuel : ℕ) → Finds (walk ts max_params fuel) fuel
  unfolding walk
  walk-Finds ts max_params zero pn n s p params v kn tn h b f = absurd (omega (arith, height_eq n))
  walk-Finds ts max_params (suc fuel) pn (node inf es) s p params v kn tn h (inl (e, w)) f =
      let t = binding_static s v (node inf es) tn h (inl (e, w)) in
      ap (resume (walk ts max_params fuel)) (
        read_label ts max_params pn (node inf es) s [] p params t (e ∙ sym (append-nil inf.label))
        ∙ arrived ts pn (node inf es) v p params w)
  walk-Finds ts max_params (suc fuel) pn (node inf es) s p params v kn tn h (inr (k, e, b)) f =
      ap (resume (walk ts max_params fuel)) (
        read_label ts max_params pn (node inf es) s k p params
          (binding_static s v (node inf es) tn h (inr (k, e, b))) e)
      ∙ below ts (walk ts max_params fuel) fuel (walk-Finds ts max_params fuel) pn inf es k p params
          v kn (tn.1) (IsPlain-drop inf.label k (subst IsPlain e h)) b
          (omega (arith, height_eq (node inf es)))

  pub lookup_bound :
      (ts : Bool) (max_params fuel : ℕ) (root : Node R) (p : Text) (v : R)
      → Keyed root
      → Typed root
      → IsPlain (to_lower p)
      → Binds (to_lower p) v root
      → height root ≤ fuel
      → lookup ts max_params fuel root p ≡ hit v none false
  unfolding lookup
  lookup_bound ts max_params fuel root p v keyed typed plain bound enough =
      walk-Finds ts max_params fuel root root (to_lower p) p none v keyed typed plain bound enough

  -- A path without the bytes `:` and `*` whose text in lower case was added with a route to a new tree,
  -- by a call of `add` without an error among any such calls for paths that start with a slash, is found
  -- with that route and no parameters, whatever parameters and wildcards the other paths have. Fuel for
  -- the height of the tree is enough.
  pub lookup_complete :
      (t : Tree R) (kvs : List (Text × R)) (ts : Bool) (max_params fuel : ℕ) (p : Text) (v : R)
      → Built t kvs
      → IsPlain (to_lower p)
      → In (to_lower p, v) kvs
      → height t.root ≤ fuel
      → lookup ts max_params fuel t.root p ≡ hit v none false
  lookup_complete t kvs ts max_params fuel p v built plain added enough =
      let ((keyed, _), binds, _) = Built-Binds t kvs built in
      lookup_bound ts max_params fuel t.root p v keyed (Built-Typed t kvs built) plain
        ((binds (to_lower p) v).1 added) enough
