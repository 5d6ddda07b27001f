-- ===== src/Router/Load/Stored.antt =====
-- What a domain binds after the routes of a list were added to it.
use aah.Prelude.{
  ◌≡◌, refl, sym, ap, ◌∙◌, ◌↔◌, ◌⊎◌, inl, inr, List, [], ◌∷◌, Option, none, some, All, In,
}
use aah.Prelude.Outcome.{returns}
use aah.Text.{Text}
use aah.Router.Tree.{slash_byte}
use aah.Router.Tree.Insert.Adds.{key}
use aah.Router.Domain.{Route, Domain, AddRouteError, add_route}
use aah.Router.Domain.Bound.{IsMapped, Bound, Adds, add_route_refines}
use aah.Router.Load.Within.{Within, holds, fails, Within-map, lift-returns}
use aah.Router.Load.Domains.{add_routes}

abbrev pub IsRooted : Route → Type 0
IsRooted r = (p : Text) × (r.path ≡ slash_byte ∷ p)

-- a route of the list for this method and the text of its path
abbrev pub Listed : List Route → Text → Text → Route → Type 0
Listed rs m k v =
    In v rs × (v.method ≡ m) × (p : Text) × (v.path ≡ slash_byte ∷ p) × (k ≡ slash_byte ∷ key p)

-- the domain keeps the invariant of its trees and binds what it did and the routes of the list
abbrev pub Stores : Domain → List Route → Domain → Type 0
Stores d rs d' =
    IsMapped d' × ((m k : Text) (v : Route) → Bound d' m k v ↔ (Bound d m k v ⊎ Listed rs m k v))

same_rest :
    (v r : Route) (p q : Text) → r ≡ v → r.path ≡ slash_byte ∷ p → v.path ≡ slash_byte ∷ q → q ≡ p
same_rest v r p q e f g = tail-eq (sym g ∙ ap Route.path (sym e) ∙ f)
  where
    tail-eq : slash_byte ∷ q ≡ slash_byte ∷ p → q ≡ p
    tail-eq h = cc h

-- what one more route in front of the list comes to
Stores-cons :
    (d d' d'' : Domain) (r : Route) (rs : List Route) (p : Text)
    → r.path ≡ slash_byte ∷ p
    → ((m k : Text) (v : Route) → Bound d' m k v ↔ (Bound d m k v ⊎ Adds r none p m k v))
    → Stores d' rs d''
    → Stores d (r ∷ rs) d''
Stores-cons d d' d'' r rs p rooted step (mapped, more) = (
  mapped,
  λ m k v. (
    λ b. elim ((more m k v).0 b) [
      | inr (i, a, q, f, g) ↦ inr (inr i, a, q, f, g)
      | inl b' ↦ elim ((step m k v).0 b') [
        | inl old ↦ inl old
        | inr (_, a, f, e) ↦
            inr (inl e, ap Route.method (sym e) ∙ a, p, ap Route.path (sym e) ∙ rooted, f)
      ]
    ],
    λ x. (more m k v).1 (elim x [
      | inl old ↦ inl ((step m k v).1 (inl old))
      | inr (inr i, a, q, f, g) ↦ inr (i, a, q, f, g)
      | inr (inl e, a, q, f, g) ↦ inl (
          (step m k v).1 (
            inr (
              refl,
              ap Route.method e ∙ a,
              g ∙ ap (λ (x : Text). slash_byte ∷ key x) (same_rest v r p q e rooted f),
              e,
            )))
    ]),
  ),
)

-- Routes whose paths start with a slash are added to a domain whose trees keep their invariant: where
-- none is refused, the domain binds just what it bound before and the routes of the list, each for its
-- method and path, and its trees keep their invariant. The loop takes no fuel.
pub add_routes_refines :
    (rs : List Route) (d : Domain)
    → IsMapped d
    → All IsRooted rs
    → Within (Stores d rs) (add_routes d rs)
unfolding add_routes
add_routes_refines [] d mapped _ =
    holds {a = d}
      (mapped, λ m k v. (λ b. inl b, λ x. elim x [ inl b ↦ b | inr (i, _, _, _, _) ↦ elim i [ ] ]))
add_routes_refines (r ∷ rs) d mapped ((p, rooted), rest) =
    let (d', e, f, mapped', step) = add_route_refines d r p mapped rooted in
    added d' e f step (add_routes_refines rs d' mapped' rest)
  where
    added :
        (d' : Domain) (e : Option AddRouteError)
        → add_route d r ≡ returns (d', e)
        → ((m k : Text) (v : Route) → Bound d' m k v ↔ (Bound d m k v ⊎ Adds r e p m k v))
        → Within (Stores d' rs) (add_routes d' rs)
        → Within (Stores d (r ∷ rs)) (add_routes d (r ∷ rs))
    added d' none f step more =
        lift-returns _ (d', none) f
          (Within-map (λ d''. Stores-cons d d' d'' r rs p rooted step) more)
    added d' (some error) f step more = lift-returns _ (d', some error) f fails
