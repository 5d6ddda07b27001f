-- ===== src/Engine/Authentication.antt =====
-- security.go: doAuthentication, and doFormAuth, doOAuth2 and doAuthScheme, which call it. The events of
-- the engine, the view arguments and log lines are left out.
pub mod SignIn
use aah.Prelude.{
  ℕ, Bool, true, false, not, ◌&&◌, ◌||◌, List, [], ◌∷◌, ◌++◌, Option, none, some, if◌then◌else◌,
  ◌==◌, length,
}
use aah.Prelude.Outcome.{Outcome, returns, panics, ◌>>=◌}
use aah.Text.{Text, codes, text_eq, trim_space, split, is_nil, index_byte}
use aah.Authz.Info.{AuthorizationInfo, new_authorization_info}
use aah.Router.Domain.{Route}
use aah.Router.Route.{RouteAuthorization, Reason, has_access}
use aah.Session.{Session, Value, string, other, set, del, get_string}
use aah.Engine.Reply.{
  Cause, not_authenticated, authentication_failed, authorization_failed, unable_to_get_principal,
  internal_server_error, service_unavailable_error, callback_error, Reply, new_error, unauthorized,
  forbidden, internal_error, service_unavailable, error, header, redirect_to,
}
use aah.Engine.Context.{
  FlowResult, flow_cont, flow_abort, Req, Principal, AuthenticationInfo, Context, with_reply,
}
use aah.Engine.Chain.{Flow, stops, goes, MiddlewareFunc}
use aah.Engine.Scheme.{
  AccessEnvironment, AuthcError, Authenticated, FormAuth, OAuth2, Scheme, SchemeKind, another,
  basic, err, form, generic, internal, key_auth_scheme, key_authc_info, key_oauth2_state, oauth2,
  ok, refused, unavailable,
}

-- base.go's DoAuthorizationInfo
unfoldable pub do_authorization_info : Scheme → Option AuthenticationInfo → AuthorizationInfo
do_authorization_info s info = elim (s.get_authorization_info info) [
  | none ↦ new_authorization_info
  | some a ↦ a
]

unfoldable pub primary_principal : List Principal → Option Principal
primary_principal [] = none
primary_principal (p ∷ ps) = if p.is_primary then some p else primary_principal ps

-- Subject.IsAuthenticated
unfoldable pub is_authenticated : Context → Bool
is_authenticated ctx = elim ctx.session [ none ↦ false | some s ↦ Session.is_authenticated s ]

unfoldable pub populate_authorization_info : Scheme → Context → Context
unfolding do_authorization_info
populate_authorization_info s ctx = record ctx {
  authorization_info = some (do_authorization_info s ctx.authentication_info);
}

-- the value of the primary principal is read for the log, and the credential is removed
unfoldable pub populate_authentication_info : AuthenticationInfo → Context → Outcome Context
unfolding primary_principal
populate_authentication_info info ctx = elim (primary_principal info.principals) [
  | none ↦ panics
  | some _ ↦ returns (record ctx { authentication_info = some (record info { credential = [] }) })
]

abbrev pub unauthorized_with : Context → Cause → Context
unauthorized_with ctx cause = with_reply ctx (error (unauthorized ctx.reply) (new_error cause 401))

abbrev pub has_error : Context → Bool
has_error ctx = elim (Reply.err ctx.reply) [ none ↦ false | some _ ↦ true ]

module _ (env : AccessEnvironment) where
  -- the method Session of the context
  abbrev pub session_of : Context → Session
  session_of ctx = elim ctx.session [ none ↦ env.fresh_session | some s ↦ s ]

  -- util.AddQueryString
  unfoldable pub add_query_string : Text → Text → Text → Text
  unfolding index_byte
  add_query_string u k v =
      if is_nil u
      then codes "?" ++ (k ++ (codes "=" ++ env.query_escape v))
      else elim (index_byte u b'?') [
        | none ↦ u ++ (codes "?" ++ (k ++ (codes "=" ++ env.query_escape v)))
        | some _ ↦ u ++ (codes "&" ++ (k ++ (codes "=" ++ env.query_escape v)))
      ]

  -- the reply to a failed authentication
  unfoldable pub authentication_failed_reply : Scheme → AuthcError → Context → Context
  unfolding add_query_string redirect_to header unauthorized internal_error service_unavailable
      error
  authentication_failed_reply s e ctx = elim s.kind [
    | form f ↦ with_reply ctx (
        redirect_to ctx.reply
          (add_query_string (FormAuth.login_failure_url f) (codes "_rt") (env.form_rt ctx.req)))
    | basic realm ↦
        unauthorized_with
          (with_reply ctx (
            header ctx.reply (codes "WWW-Authenticate")
              (codes "Basic realm=\"" ++ (realm ++ codes "\""))))
          authentication_failed
    | generic ↦ elim e [
      | refused ↦ unauthorized_with ctx authentication_failed
      | internal ↦
          with_reply ctx (error (internal_error ctx.reply) (new_error internal_server_error 500))
      | unavailable ↦
          with_reply ctx
            (error (service_unavailable ctx.reply) (new_error service_unavailable_error 503))
      | another ↦ ctx
    ]
    | oauth2 o ↦ ctx
  ]

  -- the session of a subject that is authenticated by a scheme
  unfoldable pub signed_in : Scheme → Session → Session
  unfolding set
  signed_in s session =
      let marked =
        set (record session { is_authenticated = true }) key_auth_scheme (string s.key) in
      if env.is_stateful then set marked key_authc_info (other 0) else marked

  -- after the info was obtained
  unfoldable pub authenticated_as :
      Scheme → AuthenticationInfo → Context → Outcome (Context × FlowResult)
  unfolding populate_authentication_info signed_in
  authenticated_as s info ctx = populate_authentication_info info ctx >>= λ c.
      returns (record c { session = some (signed_in s (session_of c)) }, flow_cont)

  unfoldable pub do_authentication : Scheme → Context → Outcome (Context × FlowResult)
  unfolding authenticated_as authentication_failed_reply unauthorized error
  do_authentication s ctx = elim s.principals [
    | some principals_of ↦ elim (principals_of ctx) [
      | none ↦ returns (unauthorized_with ctx unable_to_get_principal, flow_abort)
      | some ps ↦ authenticated_as s (record { credential = []; principals = ps }) ctx
    ]
    | none ↦ elim (s.do_authenticate ctx.req) [
      | err e ↦ returns (authentication_failed_reply s e ctx, flow_abort)
      | ok info ↦ authenticated_as s info ctx
    ]
  ]

  unfoldable pub do_auth_scheme : Scheme → Context → Outcome (Context × FlowResult)
  unfolding do_authentication populate_authorization_info unauthorized error
  do_auth_scheme s ctx = do_authentication s ctx >>= λ (c, flow). elim flow [
    | flow_abort ↦
        returns ((if has_error c then c else unauthorized_with c authentication_failed), flow_abort)
    | flow_cont ↦ returns (populate_authorization_info s c, flow_cont)
  ]

  -- the target of a login, and that after it
  abbrev pub login_target : FormAuth → Req → Text
  login_target f req =
      if text_eq (FormAuth.login_url f) req.path
      then FormAuth.login_url f
      else add_query_string (FormAuth.login_url f) (codes "_rt") (env.url_text req)

  abbrev pub form_target : FormAuth → Req → Text
  form_target f req =
      if FormAuth.is_always_to_default_target f || is_nil (env.form_rt req)
      then FormAuth.default_target_url f
      else env.form_rt req

  unfoldable pub do_form_auth : Scheme → FormAuth → Route → Context → Outcome (Context × FlowResult)
  unfolding do_authentication populate_authorization_info redirect_to add_query_string
  do_form_auth s f route ctx =
      if not (text_eq (FormAuth.login_submit_url f) route.path)
        && not (text_eq ctx.req.method (codes "POST"))
      then returns (with_reply ctx (redirect_to ctx.reply (login_target f ctx.req)), flow_abort)
      else (do_authentication s ctx >>= λ (c, flow). elim flow [
        | flow_abort ↦ returns (c, flow_abort)
        | flow_cont ↦
            let c' = populate_authorization_info s c in
            returns (with_reply c' (redirect_to c'.reply (form_target f c'.req)), flow_abort)
      ])

  -- the deferred removal of the state
  abbrev pub without_state : Context → Context
  without_state ctx = record ctx { session = some (del (session_of ctx) key_oauth2_state) }

  unfoldable pub oauth2_callback : Scheme → OAuth2 → Context → Outcome (Context × FlowResult)
  unfolding do_authentication populate_authorization_info redirect_to get_string del unauthorized
      error
  oauth2_callback s o ctx = get_string (session_of ctx) key_oauth2_state >>= λ state.
      if not (OAuth2.callback o state ctx.req)
      then returns (without_state (unauthorized_with ctx callback_error), flow_abort)
      else (do_authentication s ctx >>= λ (c, flow). elim flow [
        | flow_abort ↦ returns (without_state c, flow_abort)
        | flow_cont ↦
            let c' = populate_authorization_info s c in
            returns (
              without_state (with_reply c' (redirect_to c'.reply (OAuth2.success_url o))),
              flow_abort,
            )
      ])

  unfoldable pub do_oauth2 : Scheme → OAuth2 → Context → Outcome (Context × FlowResult)
  unfolding oauth2_callback redirect_to set
  do_oauth2 s o ctx =
      let (state, url) = OAuth2.auth_url o ctx.req in
      if text_eq ctx.req.path (OAuth2.login_url o)
      then returns (
        record ctx {
          session = some (set (session_of ctx) key_oauth2_state (string state));
          reply = redirect_to ctx.reply url;
        },
        flow_abort,
      )
      else if text_eq ctx.req.path (OAuth2.redirect_url o)
      then oauth2_callback s o ctx
      else returns (ctx, flow_abort)
