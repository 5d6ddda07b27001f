-- ===== src/Engine/Pipeline/KeepSteps.antt =====
-- The middlewares that keep the request, its domain and its route when they let it go on.
use aah.Prelude.{refl, not, ◌&&◌, ◌||◌, Option, none, some, if_cases, if◌then◌else◌}
use aah.Prelude.Outcome.{returns, panics, Ensures}
use aah.Router.Cors.{Cors}
use aah.Router.Domain.{Domain, Route}
use aah.Engine.Context.{Context}
use aah.Engine.Chain.{Flow, stops, goes, goes_on}
use aah.Engine.Preflight.{cors_flow, cors_middleware, is_preflight}
use aah.Engine.Bind.{BindEnvironment, bind_middleware}
use aah.Engine.Authentication.SignIn.{Same}
use aah.Engine.Reply.{Cause}
use aah.Text.{Text}
use aah.AntiCsrf.{AntiCsrf, is_safe_http_method}
use aah.Engine.Bind.{payload_supported, leaves_out}
use aah.Engine.Csrf.{
  matches, CsrfEnvironment, clear_cookie, has_some, csrf_flow, check_origin, check_token,
  anti_csrf_middleware, refused,
}
use aah.Engine.Csrf.Safe.{own_secret, sent_secret}

-- a middleware that keeps the request, its domain and its route
abbrev pub Keeps : Context → Flow → Type 0
Keeps ctx (stops c) = Unit
Keeps ctx (goes_on c f) = Same ctx c

pub cors_middleware-Keeps : (ctx : Context) → Ensures (Keeps ctx) (cors_middleware ctx)
unfolding cors_middleware cors_flow
cors_middleware-Keeps ctx = at_domain ctx.domain
  where
    at_policy :
        (o : Option Cors)
        → Ensures
            (Keeps ctx)
            (elim o [ none ↦ returns (goes ctx) | some cors ↦ returns (cors_flow cors ctx) ])
    at_policy none = (refl, refl, refl)
    at_policy (some cors) = if_cases (Keeps ctx) (is_preflight ctx.req) _ _ tt (refl, refl, refl)

    at_route :
        (o : Option Route)
        → Ensures (Keeps ctx) (elim o [
          | none ↦ panics
          | some route ↦ elim route.cors [
            | none ↦ returns (goes ctx)
            | some cors ↦ returns (cors_flow cors ctx)
          ]
        ])
    at_route none = tt
    at_route (some route) = at_policy route.cors

    at_domain :
        (o : Option Domain)
        → Ensures (Keeps ctx) (elim o [
          | none ↦ panics
          | some d ↦ if not d.cors_enabled then returns (goes ctx) else elim ctx.route [
            | none ↦ panics
            | some route ↦ elim route.cors [
              | none ↦ returns (goes ctx)
              | some cors ↦ returns (cors_flow cors ctx)
            ]
          ]
        ])
    at_domain none = tt
    at_domain (some d) =
        if_cases (Ensures (Keeps ctx)) (not d.cors_enabled) _ _ (refl, refl, refl)
          (at_route ctx.route)

pub bind_middleware-Keeps :
    (env : BindEnvironment) (ctx : Context) → Ensures (Keeps ctx) (bind_middleware env ctx)
unfolding bind_middleware
bind_middleware-Keeps env ctx =
    if_cases (Keeps ctx) (payload_supported ctx.req.method && env.content_negotiation_enabled) _ _
      (if_cases (Keeps ctx) (leaves_out env.accepted_content_types (env.content_mime ctx.req)) _ _
        tt
        (if_cases (Keeps ctx) (leaves_out env.offered_content_types (env.accept_mime ctx.req)) _ _
          tt (refl, refl, refl)))
      (refl, refl, refl)

module _ (env : CsrfEnvironment) where
  clear_cookie-Same : (ctx : Context) → Same ctx (clear_cookie env ctx)
  unfolding clear_cookie
  clear_cookie-Same ctx =
      if_cases (Same ctx)
        (not (AntiCsrf.enabled env.anti_csrf) || not (has_some (AntiCsrf.cookie_mgr env.anti_csrf)))
        _ _ (refl, refl, refl)
        (if_cases (Same ctx) (has_some ctx.req.csrf_cookie) _ _ (refl, refl, refl)
          (refl, refl, refl))

  csrf_flow-Keeps : (secret : Text) (ctx : Context) → Keeps ctx (csrf_flow env secret ctx)
  unfolding csrf_flow check_token
  csrf_flow-Keeps secret ctx =
      if_cases (Keeps ctx) (is_safe_http_method ctx.req.method) _ _ (refl, refl, refl)
        (at_origin (check_origin env ctx.req))
    where
      at_origin :
          (o : Option Cause)
          → Keeps ctx (elim o [
            | some cause ↦ stops (refused ctx cause)
            | none ↦ check_token env secret ctx
          ])
      at_origin (some cause) = tt
      at_origin none =
          if_cases (Keeps ctx) (not (matches env secret (sent_secret env ctx.req))) _ _ tt
            (refl, refl, refl)

  pub anti_csrf_middleware-Keeps :
      (ctx : Context) → Ensures (Keeps ctx) (anti_csrf_middleware env ctx)
  unfolding anti_csrf_middleware
  anti_csrf_middleware-Keeps ctx =
      if_cases (Ensures (Keeps ctx)) (not (AntiCsrf.enabled env.anti_csrf)) _ _
        (clear_cookie-Same ctx) (at_route ctx.route)
    where
      at_route :
          (o : Option Route)
          → Ensures (Keeps ctx) (elim o [
            | none ↦ panics
            | some route ↦
                if not route.is_anti_csrf_check || not env.has_view_engine
                then returns (goes (clear_cookie env ctx))
                else returns (
                    csrf_flow env
                      (own_secret env ctx.req)
                      (record ctx { csrf_secret = some (own_secret env ctx.req) }))
          ])
      at_route none = tt
      at_route (some route) =
          if_cases (Ensures (Keeps ctx)) (not route.is_anti_csrf_check || not env.has_view_engine) _
            _ (clear_cookie-Same ctx)
            (csrf_flow-Keeps (own_secret env ctx.req)
              (record ctx { csrf_secret = some (own_secret env ctx.req) }))
