-- ===== src/Router/Domain/Bound.antt =====
-- A domain as a map from a method and the text of a path to a route: what `AddRoute` does to it.
use mathlib.Core.Path.{subst}
use aah.Prelude.{
  ◌≡◌, refl, sym, ◌↔◌, ◌⊎◌, inl, inr, true, false, List, [], ◌∷◌, Option, none, some, some_inj,
  if◌then◌else◌, arith, Bool-cases, Option-cases,
}
use aah.Prelude.Outcome.{returns}
use aah.Text.{Text, text_eq, is_str_empty}
use aah.Text.Equality.{text_eq_iff, same_key, other_key}
use aah.Router.Tree.{slash_byte}
use aah.Router.Tree.Insert.{Tree, AddError, add}
use aah.Router.Tree.Insert.Binds.{Binds}
use aah.Router.Tree.Insert.Adds.{key}
use aah.Router.Tree.Insert.Built.{start, IsMap, add_refines, Built-Binds}
use aah.Router.Domain.{
  Route, Domain, find_entry, put_entry, tree_or_new, AddRouteError, method_empty, tree_error,
  add_route,
}

-- the entries of the trees, with their invariant
abbrev pub IsMapped : Domain → Type 0
IsMapped d = (m : Text) (t : Tree Route) → find_entry d.trees m ≡ some t → IsMap t

abbrev pub Bound : Domain → Text → Text → Route → Type 0
Bound d m k v = (t : Tree Route) × (find_entry d.trees m ≡ some t) × Binds k v t.root

-- the method, path and route of a call of `AddRoute` without an error
abbrev pub Adds : Route → Option AddRouteError → Text → Text → Text → Route → Type 0
Adds r e p m k v = (e ≡ none) × (r.method ≡ m) × (k ≡ slash_byte ∷ key p) × (r ≡ v)

pub find_entry-put_entry :
    {A : Type 0} (es : List (Text × A)) (k m : Text) (a : A)
    → find_entry (put_entry es k a) m ≡ (if text_eq k m then some a else find_entry es m)
unfolding find_entry put_entry
find_entry-put_entry [] k m a = refl
find_entry-put_entry ((n, old) ∷ es) k m a = elim (Bool-cases (text_eq n k)) [
  | inl e ↦ rw (e, same_key n k m e) (ground arith)
  | inr e ↦ elim (Bool-cases (text_eq n m)) [
    | inl f ↦ rw (e, f, other_key n k m e f) refl
    | inr f ↦ rw (e, f, find_entry-put_entry es k m a) refl
  ]
]

-- the tree that a route is added to
pub tree_or_new-IsMap :
    (d : Domain) (m : Text) → IsMapped d → IsMap (tree_or_new d (find_entry d.trees m))
tree_or_new-IsMap d m mapped = elim (Option-cases (find_entry d.trees m)) [
  | inl e ↦ rw e (Built-Binds _ [] (start d.redirect_trailing_slash)).0
  | inr (t, e) ↦ rw e (mapped m t e)
]

tree_or_new-Binds :
    (d : Domain) (m k : Text) (v : Route)
    → Binds k v (tree_or_new d (find_entry d.trees m)).root ↔ Bound d m k v
tree_or_new-Binds d m k v = elim (Option-cases (find_entry d.trees m)) [
  | inl e ↦ rw e (
    λ b. absurd (((Built-Binds _ [] (start d.redirect_trailing_slash)).1 k v).0 b),
    λ (t, f, b). absurd (cc f),
  )
  | inr (t, e) ↦ rw e (
    λ b. (t, refl, b),
    λ (s, f, b). subst (λ (x : Tree Route). Binds k v x.root) (sym (some_inj f)) b,
  )
]

-- a domain whose tree of the method is another one
put_tree-IsMapped :
    (d : Domain) (trees : List (Text × Tree Route)) (m : Text) (t : Tree Route)
    → IsMapped d
    → IsMap t
    → trees ≡ put_entry d.trees m t
    → (n : Text) (s : Tree Route) → find_entry trees n ≡ some s
    → IsMap s
put_tree-IsMapped d trees m t mapped is_map e n s h = elim (Bool-cases (text_eq m n)) [
  | inl f ↦ subst IsMap (some_inj (rw (e, find_entry-put_entry d.trees m n t, f) at h)) is_map
  | inr f ↦ mapped n s (rw (e, find_entry-put_entry d.trees m n t, f) at h)
]

-- what the tree of a method binds after another tree was put
put_tree-Bound :
    (d : Domain) (trees : List (Text × Tree Route)) (m : Text) (t : Tree Route) (n k : Text)
    (v : Route)
    → trees ≡ put_entry d.trees m t
    → ((s : Tree Route) × (find_entry trees n ≡ some s) × Binds k v s.root)
      ↔ (((text_eq m n ≡ true) × Binds k v t.root) ⊎ ((text_eq m n ≡ false) × Bound d n k v))
put_tree-Bound d trees m t n k v e = elim (Bool-cases (text_eq m n)) [
  | inl f ↦
      rw (e, find_entry-put_entry d.trees m n t, f)
        (
          λ (s, g, b).
              inl (refl, subst (λ (x : Tree Route). Binds k v x.root) (sym (some_inj g)) b),
          λ x. elim x [ inl (_, b) ↦ (t, refl, b) | inr (g, _) ↦ absurd (cc g) ],
        )
  | inr f ↦
      rw (e, find_entry-put_entry d.trees m n t, f)
        (λ b. inr (refl, b), λ x. elim x [ inl (g, _) ↦ absurd (cc g) | inr (_, b) ↦ b ])
]

-- the bindings after a tree with the route was put
put_tree-Adds :
    (d : Domain) (r : Route) (p : Text) (t : Tree Route) (o : Option AddError)
    (e : Option AddRouteError) (trees : List (Text × Tree Route))
    → trees ≡ put_entry d.trees r.method t
    → ((k : Text) (v : Route)
        → Binds k v t.root ↔ (
            Binds k v (tree_or_new d (find_entry d.trees r.method)).root
            ⊎ ((o ≡ none) × (k ≡ slash_byte ∷ key p) × (r ≡ v))))
    → (o ≡ none) ↔ (e ≡ none)
    → (m k : Text) (v : Route)
    → ((s : Tree Route) × (find_entry trees m ≡ some s) × Binds k v s.root)
      ↔ (Bound d m k v ⊎ Adds r e p m k v)
put_tree-Adds d r p t o e trees put binds same m k v =
    let (there, back) = put_tree-Bound d trees r.method t m k v put in
    (
      λ b. elim (there b) [
        | inr (_, old) ↦ inl old
        | inl (f, new) ↦ elim ((binds k v).0 new) [
          | inl old ↦ inl (
              subst (λ (x : Text). Bound d x k v) ((text_eq_iff r.method m).0 f)
                ((tree_or_new-Binds d r.method k v).0 old))
          | inr (x, y, z) ↦ inr (same.0 x, (text_eq_iff r.method m).0 f, y, z)
        ]
      ],
      λ x. back (elim x [
        | inl old ↦ elim (Bool-cases (text_eq r.method m)) [
          | inr f ↦ inr (f, old)
          | inl f ↦ inl (
            f,
            (binds k v).1 (
                inl (
                  (tree_or_new-Binds d r.method k v).1 (
                    subst (λ (y : Text). Bound d y k v) (sym ((text_eq_iff r.method m).0 f)) old))),
          )
        ]
        | inr (a, b, y, z) ↦
            inl ((text_eq_iff r.method m).1 b, (binds k v).1 (inr (same.1 a, y, z)))
      ]),
    )

-- For a domain whose trees keep their invariant and a route whose path starts with a slash, `AddRoute`
-- returns, and the trees keep their invariant. Without an error the route's method and path have the
-- route; with an error nothing is bound. All else that was bound is, and nothing more.
pub add_route_refines :
    (d : Domain) (r : Route) (p : Text)
    → IsMapped d
    → r.path ≡ slash_byte ∷ p
    → (d' : Domain) × (e : Option AddRouteError) × (add_route d r ≡ returns (d', e))
      × IsMapped d'
      × ((m k : Text) (v : Route) → Bound d' m k v ↔ (Bound d m k v ⊎ Adds r e p m k v))
unfolding add_route
add_route_refines d r p mapped rooted = elim (Bool-cases (is_str_empty r.method)) [
  | inl blank ↦ (
    d,
    some method_empty,
    rw (add_route, blank) refl,
    mapped,
    λ m k v. (λ b. inl b, λ x. elim x [ inl b ↦ b | inr (e, _, _, _) ↦ absurd (cc e) ]),
  )
  | inr given ↦
      let old = tree_or_new d (find_entry d.trees r.method) in
      let (t, o, added, is_map, binds, _) =
        add_refines old p r (tree_or_new-IsMap d r.method mapped) in
      let at_path : add old r.path (some r) ≡ returns (t, o) =
        subst (λ (x : Text). add old x (some r) ≡ returns (t, o)) (sym rooted) added in
      stored t o at_path is_map binds given
]
  where
    stored :
        (t : Tree Route) (o : Option AddError)
        → add (tree_or_new d (find_entry d.trees r.method)) r.path (some r) ≡ returns (t, o)
        → IsMap t
        → ((k : Text) (v : Route)
            → Binds k v t.root ↔ (
                Binds k v (tree_or_new d (find_entry d.trees r.method)).root
                ⊎ ((o ≡ none) × (k ≡ slash_byte ∷ key p) × (r ≡ v))))
        → is_str_empty r.method ≡ false
        → (d' : Domain) × (e : Option AddRouteError) × (add_route d r ≡ returns (d', e))
          × IsMapped d'
          × ((m k : Text) (v : Route) → Bound d' m k v ↔ (Bound d m k v ⊎ Adds r e p m k v))
    stored t none f is_map binds given = (
      record d { trees = put_entry d.trees r.method t; routes = put_entry d.routes r.name r },
      none,
      rw (add_route, given, f) refl,
      put_tree-IsMapped d _ r.method t mapped is_map refl,
      put_tree-Adds d r p t none none _ refl binds (λ x. refl, λ x. refl),
    )
    stored t (some error) f is_map binds given = (
      record d { trees = put_entry d.trees r.method t },
      some (tree_error error),
      rw (add_route, given, f) refl,
      put_tree-IsMapped d _ r.method t mapped is_map refl,
      put_tree-Adds d r p t (some error) (some (tree_error error)) _ refl binds
          (λ x. absurd (cc x), λ x. absurd (cc x)),
    )
