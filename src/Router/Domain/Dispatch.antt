-- ===== src/Router/Domain/Dispatch.antt =====
-- Where `Domain.Lookup` of router/domain.go takes the route of a request from.
use mathlib.Core.Path.{subst}
use aah.Prelude.{
  ◌*◌, ◌≡◌, refl, sym, ap, ◌∙◌, ◌⊎◌, inl, inr, Bool, true, not, ◌&&◌, List, [], ◌∷◌, Option, none,
  some, some_inj, Bool-cases, All, Option-cases, and_true,
}
use aah.Prelude.Outcome.{Outcome, returns, panics, >>=-returns}
use aah.Text.{Text, codes, text_eq, is_str_empty}
use aah.Text.Equality.{text_eq_iff, text_eq_refl}
use aah.Router.Tree.{Node, edges, wnode}
use aah.Router.Tree.Insert.{Tree, AddError, add}
use aah.Router.Tree.Lookup.{
  Found, Result, ok, panics, out_of_fuel, Params, params_so_far, is_set, lookup,
}
use aah.Router.Tree.Lookup.Fuel.{height}
use aah.Router.Tree.Lookup.Pattern.{Pattern, Matches, Stores}
use aah.Router.Tree.Lookup.Reached.{hit}
use aah.Router.Tree.Lookup.Sound.{lookup_sound}
use aah.Router.Domain.{
  Route, Domain, Request, find_entry, put_entry, lookup_tree, override, find_tree, or_catch_all,
  domain_lookup, tree_or_new, add_route, lookup_by_name, AddRouteError, method_empty, tree_error,
}

-- the tree that serves a request
abbrev pub Serves : Domain → Request → Tree Route → Type 0
Serves d req t =
    (find_entry d.trees (override req) ≡ some t)
    ⊎ ((override req ≡ codes "OPTIONS")
        × (d.cors_enabled ≡ true)
        × (h : Text) × (rest : List Text) × (req.cors_method ≡ h ∷ rest)
        × (find_entry d.trees h ≡ some t))

preflight :
    (trees : List (Text × Tree Route)) (hs : List Text) (t : Tree Route)
    → elim hs as (λ _. Option (Tree Route)) [ [] ↦ none | h ∷ _ ↦ find_entry trees h ] ≡ some t
    → (h : Text) × (rest : List Text) × (hs ≡ h ∷ rest) × (find_entry trees h ≡ some t)
preflight trees [] t e = cc
preflight trees (h ∷ rest) t e = (h, rest, refl, e)

find_tree-Serves :
    (d : Domain) (req : Request) (t : Tree Route) → find_tree d req ≡ some t → Serves d req t
unfolding find_tree
find_tree-Serves d req t e = elim (Option-cases (find_entry d.trees (override req))) [
  | inr (t', f) ↦ inl (f ∙ (rw (find_tree, f) at e))
  | inl f ↦ elim (Bool-cases (text_eq (override req) (codes "OPTIONS") && d.cors_enabled)) [
    | inl g ↦
        let (o, c) = and_true (text_eq (override req) (codes "OPTIONS")) d.cors_enabled g in
        let (h, rest, m, n) = preflight d.trees req.cors_method t (rw (find_tree, f, g) at e) in
        inr ((text_eq_iff (override req) (codes "OPTIONS")).0 o, c, h, rest, m, n)
    | inr g ↦ cc (rw (find_tree, f, g) at e)
  ]
]

ok_inj : {f g : Found Route} → ok f ≡ ok g → f ≡ g
ok_inj e = cc

-- a hit after the catch-all route is considered
or_catch_all-hit :
    (o : Option Route) (result : Result Route) (r : Route) (out : Option Params) (b : Bool)
    → or_catch_all o result ≡ hit r out b
    → (o ≡ some r) ⊎ (result ≡ hit r out b)
unfolding or_catch_all
or_catch_all-hit (some x) (ok f) r out b e = elim (Bool-cases (not (is_set f.route) && not f.rts)) [
  | inl h ↦ inl (ap (λ g. g.route) (ok_inj (rw h at e)))
  | inr h ↦ inr (rw h at e)
]
or_catch_all-hit (some x) panics r out b e = inr e
or_catch_all-hit (some x) out_of_fuel r out b e = inr e
or_catch_all-hit none result r out b e = inr e

abbrev pub Redirects : List (Text × Tree Route) → Type 0
Redirects = All (λ e. Tree.traling_slash (e.1) ≡ true)

find_entry-Redirects :
    (trees : List (Text × Tree Route)) (k : Text) (t : Tree Route)
    → Redirects trees
    → find_entry trees k ≡ some t
    → t.traling_slash ≡ true
unfolding find_entry
find_entry-Redirects [] k t h e = cc
find_entry-Redirects ((n, u) ∷ trees) k t (h, hs) e = elim (Bool-cases (text_eq n k)) [
  | inl f ↦ subst (λ x. Tree.traling_slash x ≡ true) (some_inj (rw f at e)) h
  | inr f ↦ find_entry-Redirects trees k t hs (rw f at e)
]

Serves-Redirects :
    (d : Domain) (req : Request) (t : Tree Route)
    → Redirects d.trees
    → Serves d req t
    → t.traling_slash ≡ true
Serves-Redirects d req t h (inl e) = find_entry-Redirects d.trees (override req) t h e
Serves-Redirects d req t h (inr (_, _, k, _, _, e)) = find_entry-Redirects d.trees k t h e

-- A route that `Domain.Lookup` returns is the domain's catch-all route, or is stored under a pattern
-- that the path matches with the parameters returned, in the tree of the request's method after
-- X-HTTP-Method-Override or, for a preflight with CORS enabled, of the method it asks about. The domain's
-- trees redirect trailing slashes.
pub domain_lookup_sound :
    (d : Domain) (req : Request) (r : Route) (out : Option Params) (b : Bool)
    → Redirects d.trees
    → domain_lookup d req ≡ hit r out b
    → (d.catch_all_route ≡ some r)
      ⊎ ((t : Tree Route) × Serves d req t
          × (m : Node Route) × ((m ≡ t.root) ⊎ (wnode (edges t.root) ≡ some m))
          × (q : Pattern) × Stores m q r
          × Matches q req.escaped_path (params_so_far out))
unfolding domain_lookup
domain_lookup_sound d req r out b slash e = elim (Option-cases (find_tree d req)) [
  | inl h ↦ cc (ap (λ g. g.route) (ok_inj (rw (domain_lookup, h) at e)))
  | inr (t, h) ↦
      elim (or_catch_all-hit d.catch_all_route (lookup_tree t req.escaped_path) r out b
        (rw (domain_lookup, h) at e)) [
          | inl c ↦ inl c
          | inr f ↦
              let serves = find_tree-Serves d req t h in
              let f' =
                subst
                  (λ s.
                    lookup s t.max_params (2 * height t.root) t.root req.escaped_path ≡ hit r out b)
                  (Serves-Redirects d req t slash serves) f in
              let (m, at_root, q, stored, matches) =
                lookup_sound t.max_params (2 * height t.root) t.root req.escaped_path r out b f' in
              inr (t, serves, m, at_root, q, stored, matches)
        ]
]

find_entry-put_entry :
    {A : Type 0} (es : List (Text × A)) (k : Text) (a : A)
    → find_entry (put_entry es k a) k ≡ some a
unfolding find_entry put_entry
find_entry-put_entry [] k a = rw (text_eq_refl k) refl
find_entry-put_entry ((n, old) ∷ es) k a = elim (Bool-cases (text_eq n k)) [
  | inl e ↦ rw (e, e) refl
  | inr e ↦ rw (e, e) (find_entry-put_entry es k a)
]

returns_inj : {A : Type 0} {x y : A} → returns x ≡ returns y → x ≡ y
returns_inj h = cc

added :
    (d : Domain) (route : Route) (d' : Domain)
    → add_route d route ≡ returns (d', none)
    → (find_entry d'.routes route.name ≡ some route)
      × (t : Tree Route) × (find_entry d'.trees route.method ≡ some t)
      × (add (tree_or_new d (find_entry d.trees route.method)) route.path (some route)
          ≡ returns (t, none))
unfolding add_route
added d route d' h = elim (Bool-cases (is_str_empty route.method)) [
  | inl e ↦ cc (ap (λ x. x.1) (returns_inj (rw e at h)))
  | inr e ↦
      let ((t, o), f, g) =
        >>=-returns (add (tree_or_new d (find_entry d.trees route.method)) route.path (some route))
          _ (rw e at h) in
      stored t o f g
]
  where
    stored :
        (t : Tree Route) (o : Option AddError)
        → add (tree_or_new d (find_entry d.trees route.method)) route.path (some route)
          ≡ returns (t, o)
        → elim o as (λ _. Outcome (Domain × Option AddRouteError)) [
          | some e ↦
              returns (record d { trees = put_entry d.trees route.method t }, some (tree_error e))
          | none ↦ returns (
            record d {
              trees = put_entry d.trees route.method t;
              routes = put_entry d.routes route.name route;
            },
            none,
          )
        ]
          ≡ returns (d', none)
        → (find_entry d'.routes route.name ≡ some route)
          × (t : Tree Route) × (find_entry d'.trees route.method ≡ some t)
          × (add (tree_or_new d (find_entry d.trees route.method)) route.path (some route)
              ≡ returns (t, none))
    stored t none f g = (
      ap (λ x. find_entry (x.0.routes) route.name) (sym (returns_inj g))
          ∙ find_entry-put_entry d.routes route.name route,
      t,
      ap (λ x. find_entry (x.0.trees) route.method) (sym (returns_inj g))
          ∙ find_entry-put_entry d.trees route.method t,
      f,
    )
    stored t (some e) f g = cc (ap (λ x. x.1) (returns_inj g))

-- A route that `AddRoute` adds is found by its name, and its tree is the one of its method with the
-- route added; a blank method is refused and changes nothing.
pub lookup_by_name-add_route :
    (d : Domain) (route : Route)
    → (is_str_empty route.method ≡ true → add_route d route ≡ returns (d, some method_empty))
      × ((d' : Domain)
          → add_route d route ≡ returns (d', none)
          → (lookup_by_name d' route.name ≡ some route)
            × (t : Tree Route) × (find_entry d'.trees route.method ≡ some t)
            × (add (tree_or_new d (find_entry d.trees route.method)) route.path (some route)
                ≡ returns (t, none)))
unfolding add_route lookup_by_name
lookup_by_name-add_route d route = (λ e. rw e refl, λ d' h. added d route d' h)
