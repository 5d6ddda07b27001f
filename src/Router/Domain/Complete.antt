-- ===== src/Router/Domain/Complete.antt =====
-- `Domain.Lookup` of router/domain.go on paths without parameters, and the types of the nodes in the
-- trees of a domain.
use mathlib.Core.Path.{subst}
use aah.Prelude.{
  ◌*◌, ◌≡◌, refl, ap, ◌∙◌, inl, inr, false, [], ◌∷◌, Option, none, some, some_inj, arith, if_cases,
  Bool-cases, Option-cases,
}
use aah.Prelude.Outcome.{Outcome, returns, Ensures, >>=-Ensures}
use aah.Text.{Text, text_eq, to_lower, is_str_empty}
use aah.Router.Tree.Insert.{Tree, AddError}
use aah.Router.Tree.Insert.Adds.{key}
use aah.Router.Tree.Insert.Typed.{Typed}
use aah.Router.Tree.Insert.TypedBuilt.{add-Typed}
use aah.Router.Tree.Lookup.Fuel.{height}
use aah.Router.Tree.Lookup.Reached.{hit}
use aah.Router.Tree.Lookup.Complete.{IsPlain, lookup_bound}
use aah.Router.Domain.{
  Route, Domain, Request, AddRouteError, tree_error, find_entry, put_entry, override, find_tree,
  or_catch_all, domain_lookup, tree_or_new, add_route,
}
use aah.Router.Domain.Bound.{IsMapped, Bound, find_entry-put_entry}

abbrev pub IsTyped : Domain → Type 0
IsTyped d = (m : Text) (t : Tree Route) → find_entry d.trees m ≡ some t → Typed t.root

-- the text of a path without parameters is the path in lower case
pub key-plain : (p : Text) → IsPlain (to_lower p) → key p ≡ to_lower p
unfolding key
key-plain [] h = refl
key-plain (c ∷ p) ((a, ha), (b, hb)) = rw (a, b, key-plain p (ha, hb)) refl

tree_or_new-Typed :
    (d : Domain) (m : Text) → IsTyped d → Typed (tree_or_new d (find_entry d.trees m)).root
tree_or_new-Typed d m typed = elim (Option-cases (find_entry d.trees m)) [
  | inl e ↦ rw e (tt, tt)
  | inr (t, e) ↦ rw e (typed m t e)
]

-- the two returns after `add`
either :
    (d e : Domain)
    → IsTyped d
    → IsTyped e
    → (o : Option AddError)
    → Ensures
        (λ (x : Domain × Option AddRouteError). IsTyped (x.0))
        (elim o as (λ _. Outcome (Domain × Option AddRouteError)) [
          | none ↦ returns (d, none)
          | some error ↦ returns (e, some (tree_error error))
        ])
either d e hd he none = hd
either d e hd he (some error) = he

pub add_route-IsTyped :
    (d : Domain) (r : Route)
    → IsTyped d
    → Ensures (λ (x : Domain × Option AddRouteError). IsTyped (x.0)) (add_route d r)
unfolding add_route
add_route-IsTyped d r typed =
    if_cases (Ensures (λ (x : Domain × Option AddRouteError). IsTyped (x.0)))
      (is_str_empty r.method) _ _ typed
      (>>=-Ensures (λ (x : Tree Route × Option AddError). Typed ((x.0).root))
        (λ (x : Domain × Option AddRouteError). IsTyped (x.0)) _ _
        (add-Typed (tree_or_new d (find_entry d.trees r.method)) r.path (some r)
          (tree_or_new-Typed d r.method typed))
        λ (t, o) h. either _ _ (put t h) (put t h) o)
  where
    put :
        (t : Tree Route)
        → Typed t.root
        → (m : Text) (s : Tree Route) → find_entry (put_entry d.trees r.method t) m ≡ some s
        → Typed s.root
    put t typed_tree m s h = elim (Bool-cases (text_eq r.method m)) [
      | inl e ↦
          subst (λ (x : Tree Route). Typed x.root)
            (some_inj (rw (find_entry-put_entry d.trees r.method m t, e) at h)) typed_tree
      | inr e ↦ typed m s (rw (find_entry-put_entry d.trees r.method m t, e) at h)
    ]

-- a path of a request that a route is bound to, in lower case, for the request's method
pub domain_lookup-Bound :
    (d : Domain) (req : Request) (v : Route)
    → IsMapped d
    → IsTyped d
    → IsPlain (to_lower req.escaped_path)
    → Bound d (override req) (to_lower req.escaped_path) v
    → domain_lookup d req ≡ hit v none false
unfolding domain_lookup find_tree or_catch_all
domain_lookup-Bound d req v mapped typed plain (t, e, b) =
    let found =
      lookup_bound t.traling_slash t.max_params (2 * height t.root) t.root req.escaped_path v
        (mapped (override req) t e).0 (typed (override req) t e) plain b (omega arith) in
    rw (domain_lookup, find_tree, e)
      (ap (or_catch_all d.catch_all_route) found ∙ kept d.catch_all_route)
  where
    kept : (o : Option Route) → or_catch_all o (hit v none false) ≡ hit v none false
    kept none = refl
    kept (some r) = refl
