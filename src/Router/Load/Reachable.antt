-- ===== src/Router/Load/Reachable.antt =====
-- Routes that loading adds to a domain, seen by the requests for them.
use mathlib.Core.Path.{subst}
use aah.Prelude.{
  ◌≡◌, refl, sym, ap, ◌∙◌, inr, false, List, [], ◌∷◌, Option, none, some, All, In, All-at,
}
use aah.Text.{Text, to_lower, lower_byte}
use aah.Router.Tree.{slash_byte}
use aah.Router.Tree.Insert.Adds.{key}
use aah.Router.Tree.Lookup.Reached.{hit}
use aah.Router.Tree.Lookup.Complete.{IsPlain}
use aah.Router.Domain.{Route, Domain, Request, AddRouteError, override, domain_lookup, add_route}
use aah.Router.Domain.Bound.{IsMapped, Bound}
use aah.Router.Domain.Complete.{IsTyped, key-plain, add_route-IsTyped, domain_lookup-Bound}
use aah.Router.Load.{Load, loaded, failed, route_refused}
use aah.Router.Load.Domains.{add_routes}
use aah.Router.Load.Within.{Within, holds, fails, Within-loaded, lift-Ensures}
use aah.Router.Load.Stored.{IsRooted, add_routes_refines}

-- the rest of the loop, after the result of a call of `AddRoute`
go_on :
    (rs : List Route) (d : Domain) (o : Option AddRouteError)
    → Within IsTyped (add_routes d rs)
    → Within IsTyped (elim o as (λ _. Load Domain) [
      | some error ↦ failed (route_refused error)
      | none ↦ add_routes d rs
    ])
go_on rs d none h = h
go_on rs d (some error) h = fails

pub add_routes-IsTyped :
    (rs : List Route) (d : Domain) → IsTyped d → Within IsTyped (add_routes d rs)
unfolding add_routes
add_routes-IsTyped [] d typed = holds typed
add_routes-IsTyped (r ∷ rs) d typed =
    lift-Ensures (add_route d r) _ (add_route-IsTyped d r typed)
      λ (d', o) h. go_on rs d' o (add_routes-IsTyped rs d' h)

-- a route of the list whose path has no parameter is bound to its path in lower case
pub add_routes-Bound :
    (rs : List Route) (d d' : Domain) (v : Route)
    → IsMapped d
    → All IsRooted rs
    → add_routes d rs ≡ loaded d'
    → In v rs
    → IsPlain (to_lower v.path)
    → Bound d' v.method (to_lower v.path) v
unfolding lower_byte
add_routes-Bound rs d d' v mapped rooted e listed plain =
    let (_, binds) = Within-loaded (add_routes_refines rs d mapped rooted) e in
    let (p, at_root) = All-at IsRooted v rs rooted listed in
    let as_key : to_lower v.path ≡ slash_byte ∷ key p =
      ap to_lower at_root ∙ ap (◌∷◌ slash_byte) (sym (key-plain p (rooted_plain p at_root))) in
    (binds v.method (to_lower v.path) v).1 (inr (listed, refl, p, at_root, as_key))
  where
    rooted_plain : (p : Text) → v.path ≡ slash_byte ∷ p → IsPlain (to_lower p)
    rooted_plain p f =
        let ((_, a), (_, b)) = subst (λ (x : Text). IsPlain (to_lower x)) f plain in (a, b)

-- a request for a bound route
pub Bound-domain_lookup :
    (d : Domain) (v : Route) (req : Request)
    → IsMapped d
    → IsTyped d
    → Bound d v.method (to_lower v.path) v
    → IsPlain (to_lower v.path)
    → override req ≡ v.method
    → to_lower req.escaped_path ≡ to_lower v.path
    → domain_lookup d req ≡ hit v none false
Bound-domain_lookup d v req mapped typed bound plain m same =
    domain_lookup-Bound d req v mapped typed (subst IsPlain (sym same) plain) (
      subst (λ (x : Text). Bound d x (to_lower req.escaped_path) v) (sym m)
        (subst (λ (x : Text). Bound d v.method x v) (sym same) bound))

-- Routes whose paths start with a slash were added, without an error, to a domain whose trees keep their
-- invariants. Then each of these routes whose path has no byte `:` or `*` is the one that `Domain.Lookup`
-- finds, without parameters, for every request with its method, after X-HTTP-Method-Override, and its
-- path in any case, whatever the other routes are and whether or not there is a catch-all route.
pub add_routes-domain_lookup :
    (rs : List Route) (d d' : Domain) (v : Route) (req : Request)
    → IsMapped d
    → IsTyped d
    → All IsRooted rs
    → add_routes d rs ≡ loaded d'
    → In v rs
    → IsPlain (to_lower v.path)
    → override req ≡ v.method
    → to_lower req.escaped_path ≡ to_lower v.path
    → domain_lookup d' req ≡ hit v none false
add_routes-domain_lookup rs d d' v req mapped typed rooted e listed plain m same =
    Bound-domain_lookup d' v req (Within-loaded (add_routes_refines rs d mapped rooted) e).0
      (Within-loaded (add_routes-IsTyped rs d typed) e)
      (add_routes-Bound rs d d' v mapped rooted e listed plain) plain m same
