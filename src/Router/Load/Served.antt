-- ===== src/Router/Load/Served.antt =====
-- processRoutes of router/router.go, from the section of routes to the requests for them.
use aah.Prelude.{
  ℕ, ◌<◌, ◌≡◌, refl, Bool, true, false, List, [], ◌∷◌, Option, none, some, All, In, inl, if_cases,
}
use aah.Prelude.Outcome.{Ensures-returns}
use aah.Text.{Text, codes, to_lower}
use aah.Text.Size.{str_to_bytes}
use aah.Config.{Config, Forge, get_sub_config}
use aah.Router.Tree.Lookup.Complete.{IsPlain}
use aah.Router.Tree.Lookup.Reached.{hit}
use aah.Router.Paths.Rooted.{Rooted}
use aah.Router.Domain.{
  Route, Domain, Request, AddRouteError, override, domain_lookup, lookup_by_name,
  is_auth_configured,
}
use aah.Router.Domain.Bound.{IsMapped, Bound, add_route_refines}
use aah.Router.Domain.Complete.{IsTyped, add_route-IsTyped}
use aah.Router.Load.{Load, LoadError, loaded, failed}
use aah.Router.Load.Within.{
  Within, holds, fails, Within-loaded, Within-map, >>=-Within, >>=-known, lift-Within, lift-returns,
}
use aah.Router.Load.Domains.{
  SchemeRoutes, form_auth, oauth2, no_routes, Schemes, has_scheme, add_ignored, add_scheme,
  add_schemes, check_auth, info_of, process_schemes, process_routes,
}
use aah.Router.Load.Section.{is_none, or_zero, parse_section_routes}
use aah.Router.Load.Stored.{add_routes_refines}
use aah.Router.Load.Ready.{Nested}
use aah.Router.Load.Reachable.{add_routes-IsTyped, add_routes-Bound, Bound-domain_lookup}
use aah.Router.Load.Rooted.{HasLoneCaret, parse_section_routes-Rooted}

-- the trees keep their invariants, and what was bound still is
pub record Keeps (d d' : Domain) : Type 0 where
  pub mapped : IsMapped d'
  pub typed : IsTyped d'
  pub bound : (m k : Text) (v : Route) → Bound d m k v → Bound d' m k v

Keeps-trans : (a b c : Domain) → Keeps a b → Keeps b c → Keeps a c
Keeps-trans a b c x y = record {
  mapped = y.mapped;
  typed = y.typed;
  bound = λ m k v h. y.bound m k v (x.bound m k v h);
}

Keeps-refl : (d : Domain) → IsMapped d → IsTyped d → Keeps d d
Keeps-refl d m t = record { mapped = m; typed = t; bound = λ _ _ _ h. h }

add_ignored-Keeps :
    (d : Domain) (r : Route)
    → IsMapped d
    → IsTyped d
    → Rooted r.path
    → Within (Keeps d) (add_ignored d r)
unfolding add_ignored
add_ignored-Keeps d r mapped typed (p, rooted) =
    let (d', e, f, mapped', binds) = add_route_refines d r p mapped rooted in
    lift-returns _ (d', e) f
      (holds (record {
        mapped = mapped';
        typed =
            Ensures-returns (λ (x : Domain × Option AddRouteError). IsTyped (x.0)) _ _
              (add_route-IsTyped d r typed) f;
        bound = λ m k v b. (binds m k v).1 (inl b);
      }))

-- the URLs of the schemes start with a slash
abbrev pub HasRootedUrls : SchemeRoutes → Type 0
HasRootedUrls (form_auth submit_url) = Rooted submit_url
HasRootedUrls (oauth2 login_url redirect_url) = Rooted login_url × Rooted redirect_url
HasRootedUrls no_routes = Unit

add_scheme-Keeps :
    (size : ℕ) (d : Domain) (key : Text) (s : SchemeRoutes)
    → IsMapped d
    → IsTyped d
    → HasRootedUrls s
    → Within (Keeps d) (add_scheme size d key s)
unfolding add_scheme
add_scheme-Keeps size d key (form_auth submit_url) m t r =
    if_cases (Within (Keeps d)) (is_none (lookup_by_name d _)) _ _ (add_ignored-Keeps d _ m t r)
      (holds (Keeps-refl d m t))
add_scheme-Keeps size d key (oauth2 login_url redirect_url) m t (r, r') =
    >>=-Within (add_ignored-Keeps d _ m t r) λ d' k.
      Within-map (λ d'' k'. Keeps-trans d d' d'' k k') (add_ignored-Keeps d' _ k.mapped k.typed r')
add_scheme-Keeps size d key no_routes m t r = holds (Keeps-refl d m t)

add_schemes-Keeps :
    (size : ℕ) (d : Domain) (ss : Schemes)
    → IsMapped d
    → IsTyped d
    → All (λ (s : Text × SchemeRoutes). HasRootedUrls (s.1)) ss
    → Within (Keeps d) (add_schemes size d ss)
unfolding add_schemes
add_schemes-Keeps size d [] m t h = holds (Keeps-refl d m t)
add_schemes-Keeps size d ((key, s) ∷ ss) m t (r, h) =
    >>=-Within (add_scheme-Keeps size d key s m t r) λ d' k.
      Within-map (λ d'' k'. Keeps-trans d d' d'' k k')
        (add_schemes-Keeps size d' ss k.mapped k.typed h)

by_test :
    (configured : Bool) (e : LoadError) (d : Domain)
    → Within
        (λ d'. d' ≡ d)
        (elim configured as (λ _. Load Domain) [ true ↦ loaded d | false ↦ failed e ])
by_test true e d = holds refl
by_test false e d = fails

check_auth_same : (ss : Schemes) (d : Domain) → Within (λ d'. d' ≡ d) (check_auth ss d)
unfolding check_auth
check_auth_same [] d = holds refl
check_auth_same (s ∷ ss) d = by_test ((is_auth_configured (has_scheme (s ∷ ss)) d).1) _ d

abbrev pub HaveRootedUrls : Option Schemes → Type 0
HaveRootedUrls none = Unit
HaveRootedUrls (some ss) = All (λ (s : Text × SchemeRoutes). HasRootedUrls (s.1)) ss

-- a domain that answers requests for these routes, where their paths have no parameters
abbrev pub Serves : List Route → Domain → Type 0
Serves rs d =
    (v : Route) (req : Request)
    → In v rs
    → IsPlain (to_lower v.path)
    → override req ≡ v.method
    → to_lower req.escaped_path ≡ to_lower v.path
    → domain_lookup d req ≡ hit v none false

module _ (seconds : Text → Option Text) {S : Type 0} (forge : Forge S) (schemes : Option Schemes)
    (app_config : Config S) where
  process_schemes-Keeps :
      (size : Text) (d : Domain)
      → IsMapped d
      → IsTyped d
      → HaveRootedUrls schemes
      → Within (Keeps d) (process_schemes seconds forge schemes app_config size d)
  unfolding process_schemes
  process_schemes-Keeps size d m t h = of_schemes schemes h
    where
      of_schemes :
          (o : Option Schemes)
          → HaveRootedUrls o
          → Within (Keeps d) (process_schemes seconds forge o app_config size d)
      of_schemes none h' = holds (Keeps-refl d m t)
      of_schemes (some ss) h' =
          >>=-Within (check_auth_same ss d)
            λ d' e. rw e (add_schemes-Keeps (or_zero (str_to_bytes size)) d ss m t h')

  -- The routes of a domain's configuration are nested less deep than the fuel, no path among them is a
  -- lone `^`, the URLs of the auth schemes start with a slash, and the trees of the domain keep their
  -- invariants. Then loading the routes stays within its fuel, and where it returns a domain, each route
  -- that was read and whose path has no byte `:` or `*` is the one that `Domain.Lookup` finds, without
  -- parameters, for every request with its method, after X-HTTP-Method-Override, and its path in any case.
  pub process_routes-Serves :
      (depth : S → ℕ)
      → Nested seconds forge depth
      → (fuel : ℕ) (d : Domain) (cfg sub : Config S)
      → get_sub_config forge cfg (codes "routes") ≡ some sub
      → depth sub.cfg < fuel
      → (HasLoneCaret seconds forge sub → ⊥)
      → HaveRootedUrls schemes
      → IsMapped d
      → IsTyped d
      → Within
          (λ d'.
            (size : Text) × (rs : List Route) × (parse_section_routes seconds forge fuel sub
                (info_of d size)
              ≡ loaded rs)
            × Serves rs d')
          (process_routes seconds forge schemes app_config fuel d cfg)
  unfolding process_routes
  process_routes-Serves depth nested fuel d cfg sub e h plain_paths urls m t =
      rw (process_routes, e)
        (lift-Within _ λ size.
          >>=-known
            (parse_section_routes-Rooted seconds forge depth nested fuel sub (info_of d size) h
              (inl refl) plain_paths)
            λ rs parsed rooted. >>=-known (add_routes-IsTyped rs d t) λ d' added typed.
              let mapped = (Within-loaded (add_routes_refines rs d m rooted) added).0 in
              Within-map
                (λ d'' k. (
                  size,
                  rs,
                  parsed,
                  λ v req listed plain meth same.
                      Bound-domain_lookup d'' v req k.mapped k.typed
                        (k.bound v.method (to_lower v.path) v
                          (add_routes-Bound rs d d' v m rooted added listed plain))
                        plain meth same,
                ))
                (process_schemes-Keeps size d' mapped typed urls))
