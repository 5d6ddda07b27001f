-- ===== src/Router/Tree/Lookup/Fuel.antt =====
-- How many rounds the loop of `lookup` of router/tree.go takes.
use mathlib.Core.Path.{subst}
use aah.Prelude.{
  ℕ, zero, suc, ◌+◌, ◌*◌, ◌≡◌, ◌≢◌, ◌≤◌, refl, sym, ◌⊎◌, inl, inr, Bool, true, false, not, ◌&&◌,
  Option, none, some, some_inj, arith, if◌then◌else◌, Bool-cases, leb, length, ◌==◌, if_cases,
}
use aah.Text.{drop, take, Text, codes, text_eq, to_lower}
use aah.Router.Escape.{path_unescape}
use aah.Router.Tree.{
  NodeType, static_node, param_node, wildcard_node, is_static, Node, node, Edges, nil, cons, info,
  edges, wnode, no_edges, common,
}
use aah.Router.Tree.Lookup.{
  Params, Result, ok, panics, out_of_fuel, Round, done, next, segment, finish, next_node,
  push_param, advance, shorter, with_params, fall_back, visit, round, resume, walk, lookup,
}
use aah.Router.Tree.Lookup.Pattern.{InEdges, wnode-InEdges, next_node-InEdges}

abbrev larger : ℕ → ℕ → ℕ
larger a b = if leb a b then b else a

unfoldable mutual
  pub height : {R : Type 0} → Node R → ℕ
  height (node i es) = suc (height_edges es)

  pub height_edges : {R : Type 0} → Edges R → ℕ
  height_edges nil = 0
  height_edges (cons n es) = larger (height n) (height_edges es)

module _ {R : Type 0} where
  pub height-InEdges : (m : Node R) (es : Edges R) → InEdges m es → height m ≤ height_edges es
  unfolding height_edges
  height-InEdges m nil h = elim h [ ]
  height-InEdges m (cons n es) (inl e) = rw (← e) (ground arith)
  height-InEdges m (cons n es) (inr h) = ground (arith, height-InEdges m es h)

  pub height_eq : (n : Node R) → height n ≡ suc (height_edges (edges n))
  unfolding height
  height_eq (node i es) = refl

  wnode_not_static :
      (es : Edges R) (w : Node R) → wnode es ≡ some w → is_static (info w).typ ≡ false
  unfolding wnode
  wnode_not_static nil w h = absurd (cc h)
  wnode_not_static (cons n es) w h = elim (Bool-cases (is_static (info n).typ)) [
    | inl e ↦ wnode_not_static es w (rw e at h)
    | inr e ↦ subst (λ (x : Node R). is_static (info x).typ ≡ false) (some_inj (rw e at h)) e
  ]

  -- the round did not run out of fuel, and goes on at a parameter child beside a static node or at
  -- a child of the node
  abbrev Continues : Node R → Node R → Round R → Type 0
  Continues pn sn (done (ok f)) = Unit
  Continues pn sn (done panics) = Unit
  Continues pn sn (done out_of_fuel) = ⊥
  Continues pn sn (next pn' sn' s p params) =
      ((is_static (info sn).typ ≡ true) × (pn' ≡ pn) × (sn' ≡ wnode (edges pn)))
      ⊎ ((pn' ≡ sn) × ((c : Text) × (sn' ≡ next_node sn c)))

  finish-Continues :
      (ts : Bool) (pn sn : Node R) (i : ℕ) (params : Option Params)
      → Continues pn sn (done (finish ts pn sn i params))
  unfolding finish
  finish-Continues ts pn sn i params = ground arith

  advance-Continues :
      (ts : Bool) (pn sn : Node R) (i : ℕ) (s p : Text) (params : Option Params)
      → Continues pn sn (advance ts pn sn i s p params)
  unfolding advance
  advance-Continues ts pn sn i s p params =
      if_cases (Continues pn sn) (length (drop i s) == 0) _ _ (finish-Continues ts pn sn i params) (
        if_cases (Continues pn sn)
          ((length (drop i s) == 1) && text_eq (drop i s) (codes "/") && no_edges (edges sn)) _ _ tt
          (inr (refl, (drop i s, refl))))

  with_params-Continues :
      (pn sn : Node R) (o : Option Params) (f : Option Params → Round R)
      → ((ps : Option Params) → Continues pn sn (f ps))
      → Continues pn sn (with_params o f)
  with_params-Continues pn sn none f h = tt
  with_params-Continues pn sn (some ps) f h = h (some ps)

  visit-Continues :
      (typ : NodeType) (ts : Bool) (max_params : ℕ) (pn sn : Node R) (s p : Text)
      (params : Option Params)
      → (info sn).typ ≡ typ
      → Continues pn sn (visit typ ts max_params pn sn s p params)
  unfolding visit
  visit-Continues static_node ts max_params pn sn s p params t =
      if_cases (Continues pn sn) (not (common s (info sn).label == shorter s (info sn).label)) _ _
        (fall_back-Continues (wnode (edges pn)) refl)
        (advance-Continues ts pn sn (common s (info sn).label) s p params)
    where
      fall_back-Continues :
          (o : Option (Node R)) → wnode (edges pn) ≡ o → Continues pn sn (fall_back o pn s p params)
      fall_back-Continues none e = tt
      fall_back-Continues (some w) e = inl (rw t refl, refl, sym e)
  visit-Continues param_node ts max_params pn sn s p params t =
      with_params-Continues pn sn
        (push_param max_params params (info sn).arg (path_unescape (take (segment s) p)))
        (advance ts pn sn (segment s) s p) (advance-Continues ts pn sn (segment s) s p)
  visit-Continues wildcard_node ts max_params pn sn s p params t =
      with_params-Continues pn sn (push_param max_params params (info sn).arg (path_unescape p)) _
        (λ ps. tt)

  -- enough fuel for the rounds that are left
  abbrev Enough : Node R → Option (Node R) → ℕ → Type 0
  Enough pn none fuel = 1 ≤ fuel
  Enough pn (some sn) fuel =
      InEdges sn (edges pn)
      × (2 * height_edges (edges pn) + (if is_static (info sn).typ then 1 else 0) ≤ fuel)

  Enough-beside :
      (pn : Node R) (fuel : ℕ)
      → 1 ≤ fuel
      → 2 * height_edges (edges pn) ≤ fuel
      → Enough pn (wnode (edges pn)) fuel
  Enough-beside pn fuel pos h = beside (wnode (edges pn)) refl
    where
      beside : (o : Option (Node R)) → wnode (edges pn) ≡ o → Enough pn o fuel
      beside none e = pos
      beside (some w) e =
          (wnode-InEdges (edges pn) w e, rw (wnode_not_static (edges pn) w e) (omega arith))

  Enough-child :
      (sn : Node R) (fuel : ℕ)
      → 2 * height_edges (edges sn) + 1 ≤ fuel
      → (c : Text) → Enough sn (next_node sn c) fuel
  Enough-child sn fuel h c = child (next_node sn c) refl
    where
      child : (o : Option (Node R)) → next_node sn c ≡ o → Enough sn o fuel
      child none e = omega arith
      child (some m) e = (next_node-InEdges sn m c e, ground arith)

  resume-Enough :
      (k : Node R → Option (Node R) → Text → Text → Option Params → Result R) (fuel : ℕ)
      → ((pn : Node R) (sn : Option (Node R)) (s p : Text) (params : Option Params)
          → Enough pn sn fuel
          → k pn sn s p params ≢ out_of_fuel)
      → (pn sn : Node R) → (is_static (info sn).typ ≡ true → Enough pn (wnode (edges pn)) fuel)
      → ((c : Text) → Enough sn (next_node sn c) fuel)
      → (rd : Round R) → Continues pn sn rd
      → resume k rd ≢ out_of_fuel
  resume-Enough k fuel ih pn sn beside child (done (ok f)) c h = cc h
  resume-Enough k fuel ih pn sn beside child (done panics) c h = cc h
  resume-Enough k fuel ih pn sn beside child (done out_of_fuel) c h = c
  resume-Enough k fuel ih pn sn beside child (next pn' sn' s p params) (inl (st, e, f)) h =
      ih pn' sn' s p params (rw (e, f) (beside st)) h
  resume-Enough k fuel ih pn sn beside child (next pn' sn' s p params) (inr (e, (c, f))) h =
      ih pn' sn' s p params (rw (e, f) (child c)) h

  walk-Enough :
      (ts : Bool) (max_params fuel : ℕ) (pn : Node R) (sn : Option (Node R)) (s p : Text)
      (params : Option Params)
      → Enough pn sn fuel
      → walk ts max_params fuel pn sn s p params ≢ out_of_fuel
  unfolding walk round
  walk-Enough ts max_params zero pn none s p params e h = omega arith
  walk-Enough ts max_params zero pn (some sn) s p params (inside, bound) h =
      omega (arith, height-InEdges sn (edges pn) inside, height_eq sn)
  walk-Enough ts max_params (suc fuel) pn none s p params e h = cc h
  walk-Enough ts max_params (suc fuel) pn (some sn) s p params (inside, bound) h =
      let low = height-InEdges sn (edges pn) inside in
      let top = height_eq sn in
      resume-Enough (walk ts max_params fuel) fuel (walk-Enough ts max_params fuel) pn sn
        (λ st. Enough-beside pn fuel (omega arith) (ground arith))
        (Enough-child sn fuel (omega arith)) (visit (info sn).typ ts max_params pn sn s p params)
        (visit-Continues (info sn).typ ts max_params pn sn s p params refl) h

  -- With fuel for twice the height of the tree `lookup` ends in a result or a panic.
  pub lookup_total :
      (ts : Bool) (max_params fuel : ℕ) (root : Node R) (p : Text)
      → 2 * height root ≤ fuel
      → lookup ts max_params fuel root p ≢ out_of_fuel
  unfolding lookup walk round
  lookup_total ts max_params zero root p h e = omega (arith, height_eq root)
  lookup_total ts max_params (suc fuel) root p h e =
      let top = height_eq root in
      resume-Enough (walk ts max_params fuel) fuel (walk-Enough ts max_params fuel) root root
        (λ st. Enough-beside root fuel (omega arith) (omega arith))
        (Enough-child root fuel (omega arith))
        (visit (info root).typ ts max_params root root (to_lower p) p none)
        (visit-Continues (info root).typ ts max_params root root (to_lower p) p none refl) e
