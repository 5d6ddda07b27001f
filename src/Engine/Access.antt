-- ===== src/Engine/Access.antt =====
-- security.go: AuthcAuthzMiddleware, which runs the schemes of a route and checks the access. The events
-- of the engine, the view arguments and log lines are left out.
pub mod Schemes
pub mod Granted
use aah.Prelude.{
  ℕ, Bool, true, false, not, ◌&&◌, ◌||◌, List, [], ◌∷◌, ◌++◌, Option, none, some, if◌then◌else◌,
  ◌==◌, length,
}
use aah.Prelude.Outcome.{Outcome, returns, panics, ◌>>=◌}
use aah.Text.{Text, codes, text_eq, trim_space, split, is_nil, index_byte}
use aah.Authz.Info.{AuthorizationInfo, new_authorization_info}
use aah.Router.Domain.{Route}
use aah.Router.Route.{RouteAuthorization, Reason, has_access}
use aah.Session.{Session, Value, string, other, set, del, get_string}
use aah.Engine.Reply.{
  Cause, not_authenticated, authentication_failed, authorization_failed, unable_to_get_principal,
  internal_server_error, service_unavailable_error, callback_error, Reply, new_error, unauthorized,
  forbidden, internal_error, service_unavailable, error, header, redirect_to,
}
use aah.Engine.Context.{
  FlowResult, flow_cont, flow_abort, Req, Principal, AuthenticationInfo, Context, with_reply,
}
use aah.Engine.Chain.{Flow, stops, goes, MiddlewareFunc}
use aah.Engine.Scheme.{
  AccessEnvironment, AuthcError, Authenticated, FormAuth, OAuth2, Scheme, SchemeKind, another,
  basic, err, form, generic, internal, key_auth_scheme, key_authc_info, key_oauth2_state, oauth2,
  ok, refused, unavailable,
}
use aah.Engine.Authentication.{
  add_query_string, authenticated_as, authentication_failed_reply, do_auth_scheme,
  do_authentication, do_authorization_info, do_form_auth, do_oauth2, form_target, has_error,
  is_authenticated, login_target, oauth2_callback, populate_authentication_info,
  populate_authorization_info, primary_principal, session_of, signed_in, unauthorized_with,
  without_state,
}

-- the method hasAccess; the authorization info was populated before
unfoldable pub check_access : Context → Outcome (Context × FlowResult)
unfolding has_access forbidden error
check_access ctx = elim ctx.route [
  | none ↦ panics
  | some route ↦ elim ctx.authorization_info [
    | none ↦ panics
    | some a ↦ has_access route.authorization_info a >>= λ (granted, reasons). returns (
        if granted then (ctx, flow_cont) else (
          with_reply ctx (error (forbidden ctx.reply) (new_error authorization_failed 403)),
          flow_abort,
        ))
  ]
]

module _ (env : AccessEnvironment) where
  -- one round of the loop over the schemes; an unknown scheme is nil
  unfoldable pub run_scheme : Route → Option Scheme → Context → Outcome (Context × FlowResult)
  unfolding do_form_auth do_oauth2 do_auth_scheme
  run_scheme route none ctx = panics
  run_scheme route (some s) ctx = elim s.kind [
    | form f ↦ do_form_auth env s f route ctx
    | oauth2 o ↦ do_oauth2 env s o ctx
    | basic _ ↦ do_auth_scheme env s ctx
    | generic ↦ do_auth_scheme env s ctx
  ]

  -- the loop, with the result so far
  unfoldable pub run_schemes :
      Route → List Text → Context → FlowResult → Outcome (Context × FlowResult)
  unfolding run_scheme
  run_schemes route [] ctx result = returns (ctx, result)
  run_schemes route (name ∷ names) ctx result =
      run_scheme route (env.auth_scheme (trim_space name)) ctx >>= λ (c, flow). elim flow [
        | flow_cont ↦ returns (c, flow_cont)
        | flow_abort ↦ run_schemes route names c flow_abort
      ]

  abbrev pub then_next : Context × FlowResult → Flow
  then_next (c, flow_cont) = goes c
  then_next (c, flow_abort) = stops c

  unfoldable pub by_schemes : Route → Context → Outcome Flow
  unfolding run_schemes check_access
  by_schemes route ctx = run_schemes route (split b',' route.auth) ctx flow_cont >>= λ (c, flow).
      elim flow [
        | flow_abort ↦ returns (stops c)
        | flow_cont ↦ check_access c >>= λ x. returns (then_next x)
      ]

  -- the session is authenticated by the scheme with this key
  unfoldable pub by_session : Text → Context → Outcome Flow
  unfolding populate_authorization_info check_access
  by_session key ctx = elim (env.auth_scheme key) [
    | none ↦ panics
    | some s ↦ check_access (populate_authorization_info s ctx) >>= λ x. returns (then_next x)
  ]

  unfoldable pub authc_authz : Route → Context → Outcome Flow
  unfolding is_authenticated by_session by_schemes get_string unauthorized error
  authc_authz route ctx =
      if is_authenticated ctx
      then (get_string (session_of env ctx) key_auth_scheme >>= λ key.
          if is_nil key then by_schemes route ctx else by_session key ctx)
      else if text_eq route.auth (codes "authenticated")
      then returns (stops (unauthorized_with ctx not_authenticated))
      else by_schemes route ctx

  unfoldable pub authc_authz_middleware : MiddlewareFunc
  unfolding authc_authz
  authc_authz_middleware ctx =
      if not env.auth_scheme_exists then returns (goes ctx) else elim ctx.route [
        | none ↦ panics
        | some route ↦
            if text_eq route.auth (codes "anonymous")
            then returns (goes ctx)
            else authc_authz route ctx
      ]
