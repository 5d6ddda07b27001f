-- ===== src/Engine/Pipeline.antt =====
-- The middlewares of a web application in their order, as the init file of an application registers
-- them: what a request has shown when its action runs.
pub mod RouteStep
pub mod KeepSteps
use mathlib.Core.Path.{subst}
use aah.Prelude.{
  ◌≡◌, refl, sym, ap, ◌∙◌, ◌⊎◌, inl, inr, Bool, true, false, List, [], ◌∷◌, ◌++◌, Option, none,
  some, some_inj,
}
use aah.Prelude.Outcome.{returns, Ensures-returns}
use aah.Text.{codes}
use aah.AntiCsrf.{AntiCsrf, is_safe_http_method}
use aah.Router.Tree.Lookup.{ok}
use aah.Router.Domain.{Route, domain_lookup}
use aah.Router.Hosts.{lookup_domain}
use aah.Engine.Context.{Req, Context}
use aah.Engine.Chain.{Flow, goes_on, MiddlewareFunc, next, Passes, through, by, chain, next-Passes}
use aah.Engine.Routing.{Environment, route_middleware}
use aah.Engine.Preflight.{cors_middleware}
use aah.Engine.Bind.{BindEnvironment, bind_middleware}
use aah.Engine.Csrf.{CsrfEnvironment, anti_csrf_middleware}
use aah.Engine.Csrf.Safe.{Genuine, anti_csrf_middleware-Genuine}
use aah.Engine.Scheme.{AccessEnvironment}
use aah.Engine.Access.{authc_authz_middleware}
use aah.Engine.Authentication.SignIn.{Same, SignedIn, Same-trans}
use aah.Engine.Access.Granted.{Entitled, authc_authz_middleware-Entitled}
use aah.Engine.Pipeline.RouteStep.{Routed, RoutedFrom, route_middleware-Routed}
use aah.Engine.Pipeline.KeepSteps.{
  Keeps, cors_middleware-Keeps, bind_middleware-Keeps, anti_csrf_middleware-Keeps,
}

pub record Application : Type 0 where
  pub routing : Environment
  pub binding : BindEnvironment
  pub csrf : CsrfEnvironment
  pub access : AccessEnvironment

abbrev pub web_middlewares : Application → List MiddlewareFunc
web_middlewares app =
    route_middleware app.routing
    ∷ cors_middleware
    ∷ bind_middleware app.binding
    ∷ anti_csrf_middleware app.csrf
    ∷ authc_authz_middleware app.access
    ∷ []

pub record Vetted (app : Application) (ctx d : Context) : Type 0 where
  pub same_request : d.req ≡ ctx.req
  pub routed : Routed app.routing d
  pub route : Route
  pub has_route : d.route ≡ some route
  pub genuine :
      AntiCsrf.enabled app.csrf.anti_csrf ≡ true
      → route.is_anti_csrf_check ≡ true
      → app.csrf.has_view_engine ≡ true
      → is_safe_http_method ctx.req.method ≡ false
      → Genuine app.csrf ctx.req
  pub allowed :
      (app.access.auth_scheme_exists ≡ false)
      ⊎ (route.auth ≡ codes "anonymous")
      ⊎ (SignedIn d × Entitled app.access d)

-- the first middleware of those that are passed
abbrev First : MiddlewareFunc → List MiddlewareFunc → Context → Context → Type 0
First f fs ctx d =
    (c : Context) × (after : Context → Context) × (f ctx ≡ returns (goes_on c after))
    × Passes fs c d

Passes-First :
    (f : MiddlewareFunc) (fs : List MiddlewareFunc) (ctx d : Context)
    → Passes (f ∷ fs) ctx d
    → First f fs ctx d
Passes-First f fs ctx d (by {c = c} after e p rest) = (c, after, p, rest)

nothing_left : (ctx d : Context) → Passes [] ctx d → ctx ≡ d
nothing_left ctx d through = refl

-- the middlewares after the first keep what the first found
Routed-Same : (env : Environment) (c d : Context) → Same c d → Routed env c → Routed env d
Routed-Same env c d (req, dom, route) r = record {
  domain = r.domain;
  found = r.found;
  route = r.route;
  domain_eq =
      subst (λ x. lookup_domain env.router (Req.host x) ≡ some r.domain) (sym req) r.domain_eq;
  found_eq = subst (λ x. domain_lookup r.domain (Req.http x) ≡ ok r.found) (sym req) r.found_eq;
  route_eq = r.route_eq;
  has_domain = dom ∙ r.has_domain;
  has_route = route ∙ r.has_route;
  not_static = r.not_static;
}

-- what the last middleware lets through
abbrev Allowed : Application → Route → Context → Type 0
Allowed app route d =
    (app.access.auth_scheme_exists ≡ false)
    ⊎ (route.auth ≡ codes "anonymous")
    ⊎ (SignedIn d × Entitled app.access d)

authc_authz_middleware-Allowed :
    (app : Application) (c d : Context) (route : Route) (f : Context → Context)
    → c.route ≡ some route
    → authc_authz_middleware app.access c ≡ returns (goes_on d f)
    → Same c d × Allowed app route d
authc_authz_middleware-Allowed app c d route f e h =
    elim (authc_authz_middleware-Entitled app.access c d f h) [
      | inl (x, same) ↦ (subst (Same c) same (refl, refl, refl), inl x)
      | inr (inl ((r, g, x), same)) ↦ (
        subst (Same c) same (refl, refl, refl),
        inr (inl (subst (λ (y : Route). y.auth ≡ codes "anonymous") (some_inj (sym g ∙ e)) x)),
      )
      | inr (inr (same, signed, entitled)) ↦ (same, inr (inr (signed, entitled)))
    ]

Passes-Vetted :
    (app : Application) (ctx d : Context) → Passes (web_middlewares app) ctx d → Vetted app ctx d
Passes-Vetted app ctx d p =
    let (c1, a1, e1, p1) = Passes-First _ _ ctx d p in
    let (c2, a2, e2, p2) = Passes-First _ _ c1 d p1 in
    let (c3, a3, e3, p3) = Passes-First _ _ c2 d p2 in
    let (c4, a4, e4, p4) = Passes-First _ _ c3 d p3 in
    let (c5, a5, e5, p5) = Passes-First _ _ c4 d p4 in
    let (req1, routed) =
      Ensures-returns (RoutedFrom app.routing ctx) (route_middleware app.routing ctx)
        (goes_on c1 a1) (route_middleware-Routed app.routing ctx) e1 in
    let k2 : Same c1 c2 =
      Ensures-returns (Keeps c1) (cors_middleware c1) (goes_on c2 a2) (cors_middleware-Keeps c1)
        e2 in
    let k3 : Same c2 c3 =
      Ensures-returns (Keeps c2) (bind_middleware app.binding c2) (goes_on c3 a3)
        (bind_middleware-Keeps app.binding c2) e3 in
    let k4 : Same c3 c4 =
      Ensures-returns (Keeps c3) (anti_csrf_middleware app.csrf c3) (goes_on c4 a4)
        (anti_csrf_middleware-Keeps app.csrf c3) e4 in
    let k14 = Same-trans c1 c3 c4 (Same-trans c1 c2 c3 k2 k3) k4 in
    let (k5, allowed) =
      authc_authz_middleware-Allowed app c4 c5 (Routed.route routed) a5
        (k14.2 ∙ Routed.has_route routed) e5 in
    let at_end = nothing_left c5 d p5 in
    let k15 = subst (Same c1) at_end (Same-trans c1 c4 c5 k14 k5) in
    let req3 : c3.req ≡ ctx.req = (Same-trans c1 c2 c3 k2 k3).0 ∙ req1 in
    let route3 = (Same-trans c1 c2 c3 k2 k3).2 ∙ Routed.has_route routed in
    record {
      same_request = k15.0 ∙ req1;
      routed = Routed-Same app.routing c1 d k15 routed;
      route = Routed.route routed;
      has_route = k15.2 ∙ Routed.has_route routed;
      genuine = λ on check view unsafe.
          subst (Genuine app.csrf) req3
            (anti_csrf_middleware-Genuine app.csrf c3 c4 (Routed.route routed) a4 on route3 check
              view (subst (λ x. is_safe_http_method (Req.method x) ≡ false) (sym req3) unsafe)
              e4).0;
      allowed = subst (Allowed app (Routed.route routed)) at_end allowed;
    }

-- Either the middlewares of a web application, each in its turn, hand on the request to the action behind
-- them, with a context that is not aborted, or the result is the same whatever the action. In the
-- first case that very context is vetted: the router found its domain and a route that is not static;
-- if the route is protected and pages are rendered, an unsafe method came with a genuine token; and there
-- is no scheme, or the route is for anyone, or the session of the context is authenticated and its
-- subject has the access that the route asks for.
pub action-Vetted :
    (app : Application) (action : MiddlewareFunc) (ctx : Context)
    → ((d : Context) × Passes (web_middlewares app) ctx d × Vetted app ctx d × (d.abort ≡ false))
      ⊎ ((other : MiddlewareFunc)
          → next (chain (web_middlewares app ++ action ∷ [])) ctx
            ≡ next (chain (web_middlewares app ++ other ∷ [])) ctx)
action-Vetted app action ctx = elim (next-Passes (web_middlewares app) action ctx) [
  | inl (d, p, e) ↦ inl (d, p, Passes-Vetted app ctx d p, e)
  | inr same ↦ inr same
]
