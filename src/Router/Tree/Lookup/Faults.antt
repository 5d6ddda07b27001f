-- ===== src/Router/Tree/Lookup/Faults.antt =====
-- `lookup` of router/tree.go on paths that the stored pattern does not match.
use aah.Prelude.{
  ℕ, suc, ◌≡◌, ◌≢◌, ◌<◌, refl, Bool, false, [], ◌∷◌, ◌++◌, none, some, arith, length, length-append,
  ==_refl, ne-test,
}
use aah.Text.{drop, Text, to_lower}
use aah.Router.Escape.{path_unescape}
use aah.Router.Tree.{static_node, wildcard_node, Node, info, edges, wnode, common}
use aah.Router.Tree.Lookup.{finish, advance, shorter, visit, round, walk, lookup}
use aah.Router.Tree.Lookup.Reached.{hit}

common-prefix : (s t : Text) → common s (s ++ t) ≡ length s
unfolding common
common-prefix [] t = refl
common-prefix (c ∷ s) t = rw (==_refl c, common-prefix s t) refl

drop-all : (s : Text) → drop (length s) s ≡ []
drop-all [] = refl
drop-all (c ∷ s) = drop-all s

module _ {R : Type 0} where
  -- Where trailing slashes are not redirected, a path that ends within the label of the root gets
  -- the root's route: a proper prefix of a route's path is served by that route.
  pub lookup_prefix :
      (max_params fuel : ℕ) (root : Node R) (p : Text) (c : ℕ) (more : Text) (r : R)
      → (info root).typ ≡ static_node
      → (info root).label ≡ to_lower p ++ (c ∷ more)
      → (info root).value ≡ some r
      → lookup false max_params (suc fuel) root p ≡ hit r none false
  unfolding lookup walk round visit advance finish
  lookup_prefix max_params fuel root p c more r t l v =
      rw (t, l, common-prefix (to_lower p) (c ∷ more), drop-all (to_lower p), v)
        (ground (arith, length-append (to_lower p) (c ∷ more)))

  -- A path that parts from the label of the root is handed, whole, to the wildcard child of the
  -- root, whose route it gets although it does not start with the root's label.
  pub lookup_root_fallback :
      (ts : Bool) (max_params fuel : ℕ) (root w : Node R) (p : Text) (r : R)
      → (info root).typ ≡ static_node
      → common (to_lower p) (info root).label ≢ shorter (to_lower p) (info root).label
      → wnode (edges root) ≡ some w
      → (info w).typ ≡ wildcard_node
      → (info w).value ≡ some r
      → 0 < max_params
      → lookup ts max_params (suc (suc fuel)) root p
        ≡ hit r (some (((info w).arg, path_unescape p) ∷ [])) false
  unfolding lookup walk round visit
  lookup_root_fallback ts max_params fuel root w p r t apart e tw v cap =
      rw (t, ne-test _ _ apart, e, tw) (ground arith)
