-- ===== src/Engine/Pipeline/RouteStep.antt =====
-- What RouteMiddleware, CORSMiddleware and BindMiddleware leave of a request that goes on.
use mathlib.Core.Path.{subst}
use aah.Prelude.{
  ◌≡◌, refl, sym, ap, ◌∙◌, Bool, false, ◌&&◌, inl, inr, Bool-cases, Option, none, some, if_cases,
  ltb, length,
}
use aah.Prelude.Outcome.{returns, ◌>>=◌, Ensures, >>=-Ensures, Ensures-const}
use aah.Router.Tree.Lookup.{Found, Result, ok}
use aah.Router.Domain.{Domain, Route, domain_lookup}
use aah.Router.Hosts.{lookup_domain}
use aah.Engine.Reply.{route_not_found, domain_not_found}
use aah.Engine.Context.{FlowResult, flow_cont, flow_abort, Context}
use aah.Engine.Chain.{Flow, stops, goes, goes_on}
use aah.Engine.Routing.{
  Environment, looked_up, handle_rts_options_mna, route_missing, route_found, handle_route,
  route_middleware, replied,
}
use aah.Engine.Authentication.SignIn.{Same}

-- the context holds what the router finds for the request: its domain, and a route of it that is no
-- static one
pub record Routed (env : Environment) (c : Context) : Type 0 where
  pub domain : Domain
  pub found : Found Route
  pub route : Route
  pub domain_eq : lookup_domain env.router c.req.host ≡ some domain
  pub found_eq : domain_lookup domain c.req.http ≡ ok found
  pub route_eq : found.route ≡ some route
  pub has_domain : c.domain ≡ some domain
  pub has_route : c.route ≡ some route
  pub not_static : route.is_static ≡ false

module _ (env : Environment) where
  abbrev pub RoutedFrom : Context → Flow → Type 0
  RoutedFrom ctx (stops c) = Unit
  RoutedFrom ctx (goes_on c f) = (c.req ≡ ctx.req) × Routed env c

  -- the result of `handle_route`
  abbrev Handled : Context → Context × FlowResult → Type 0
  Handled ctx x = (x.1 ≡ flow_cont) → (Context.req (x.0) ≡ ctx.req) × Routed env (x.0)

  stopped : {A : Type 0} → flow_abort ≡ flow_cont → A
  stopped e = cc e

  missing-Handled :
      (ctx at_domain : Context) (d : Domain) (b : Bool)
      → Ensures (Handled ctx) (route_missing env d b at_domain)
  unfolding route_missing
  missing-Handled ctx c d b =
      >>=-Ensures (λ _. Same c c) (Handled ctx) (handle_rts_options_mna env d b c) _
        (Ensures-const (refl, refl, refl) (handle_rts_options_mna env d b c))
        λ (c', handled) _.
          if_cases (Handled ctx) handled (c', flow_abort) (replied env c' route_not_found) stopped
            stopped

  -- the context with a route that was found, and whether its constraints fail
  abbrev routed_context : Context → Domain → Found Route → Route → Context
  routed_context ctx d f route = record ctx {
    domain = some d;
    route = some route;
    url_params = f.params;
  }

  abbrev fails : Environment → Route → Found Route → Bool
  fails env' route f =
      ltb 0 (length route.constraints) && ltb 0 (length (env'.validate f.params route.constraints))

  found_eq :
      (ctx : Context) (d : Domain) (f : Found Route) (route : Route)
      → route.is_static ≡ false
      → fails env route f ≡ false
      → ◌≡◌ {A = FlowResult × Context}
          (route_found env (routed_context ctx d f route) route)
          (flow_cont, routed_context ctx d f route)
  unfolding route_found
  found_eq ctx d f route s v = rw (route_found, s, v) refl

  found-Handled :
      (ctx : Context) (d : Domain) (f : Found Route) (route : Route)
      → lookup_domain env.router ctx.req.host ≡ some d
      → domain_lookup d ctx.req.http ≡ ok f
      → f.route ≡ some route
      → (x : FlowResult × Context) → route_found env (routed_context ctx d f route) route ≡ x
      → Handled ctx (x.1, x.0)
  unfolding route_found
  found-Handled ctx d f route e g h x k = elim (Bool-cases route.is_static) [
    | inl s ↦ λ z. stopped (ap (λ (y : FlowResult × Context). y.0) (rw (route_found, s) at k) ∙ z)
    | inr s ↦ elim (Bool-cases (fails env route f)) [
      | inl v ↦
          λ z. stopped (ap (λ (y : FlowResult × Context). y.0) (rw (route_found, s, v) at k) ∙ z)
      | inr v ↦ λ z.
          let same : routed_context ctx d f route ≡ x.1 =
            ap (λ (y : FlowResult × Context). y.1) (sym (found_eq ctx d f route s v) ∙ k) in
          subst (λ (y : Context). (y.req ≡ ctx.req) × Routed env y) same
            (
              refl,
              record {
                domain = d;
                found = f;
                route = route;
                domain_eq = e;
                found_eq = g;
                route_eq = h;
                has_domain = refl;
                has_route = refl;
                not_static = s;
              },
            )
    ]
  ]

  handle_route-Handled : (ctx : Context) → Ensures (Handled ctx) (handle_route env ctx)
  unfolding handle_route
  handle_route-Handled ctx = at_domain (lookup_domain env.router ctx.req.host) refl
    where
      at_route :
          (d : Domain) (f : Found Route)
          → lookup_domain env.router ctx.req.host ≡ some d
          → domain_lookup d ctx.req.http ≡ ok f
          → (o : Option Route) → f.route ≡ o
          → Ensures (Handled ctx) (elim o [
            | none ↦ route_missing env d f.rts (record ctx { domain = some d })
            | some route ↦ returns (
              (route_found env (routed_context ctx d f route) route).1,
              (route_found env (routed_context ctx d f route) route).0,
            )
          ])
      at_route d f e g none h = missing-Handled ctx (record ctx { domain = some d }) d f.rts
      at_route d f e g (some route) h =
          found-Handled ctx d f route e g h (route_found env (routed_context ctx d f route) route)
            refl

      at_result :
          (d : Domain)
          → lookup_domain env.router ctx.req.host ≡ some d
          → (r : Result Route) → domain_lookup d ctx.req.http ≡ r
          → Ensures (Handled ctx) (
              looked_up r >>= λ f. elim f.route [
                | none ↦ route_missing env d f.rts (record ctx { domain = some d })
                | some route ↦ returns (
                  (route_found env (routed_context ctx d f route) route).1,
                  (route_found env (routed_context ctx d f route) route).0,
                )
              ])
      at_result d e (ok f) g = at_route d f e g f.route refl
      at_result d e _ g = tt

      at_domain :
          (o : Option Domain)
          → lookup_domain env.router ctx.req.host ≡ o
          → Ensures (Handled ctx) (elim o [
            | none ↦ returns (replied env (record ctx { domain = none }) domain_not_found)
            | some d ↦ looked_up (domain_lookup d ctx.req.http) >>= λ f. elim f.route [
              | none ↦ route_missing env d f.rts (record ctx { domain = some d })
              | some route ↦ returns (
                (route_found env (routed_context ctx d f route) route).1,
                (route_found env (routed_context ctx d f route) route).0,
              )
            ]
          ])
      at_domain none e = stopped
      at_domain (some d) e = at_result d e (domain_lookup d ctx.req.http) refl

  pub route_middleware-Routed :
      (ctx : Context) → Ensures (RoutedFrom ctx) (route_middleware env ctx)
  unfolding route_middleware
  route_middleware-Routed ctx =
      >>=-Ensures (Handled ctx) (RoutedFrom ctx) (handle_route env ctx) _ (handle_route-Handled ctx)
        λ x. at_flow x
    where
      at_flow :
          (x : Context × FlowResult)
          → Handled ctx x
          → Ensures
              (RoutedFrom ctx)
              (elim (x.1) [ flow_abort ↦ returns (stops (x.0)) | flow_cont ↦ returns (goes (x.0)) ])
      at_flow (c, flow_cont) h = h refl
      at_flow (c, flow_abort) h = tt
