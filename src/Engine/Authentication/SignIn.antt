-- ===== src/Engine/Authentication/SignIn.antt =====
-- What the authentication by one scheme does to a request.
use aah.Prelude.{
  ◌≡◌, refl, ◌∙◌, inl, inr, true, not, ◌&&◌, [], some, if◌then◌else◌, if_cases, Bool-cases,
  Option-cases,
}
use aah.Prelude.Outcome.{returns, Ensures, >>=-Ensures, Ensures-const}
use aah.Text.{codes, text_eq}
use aah.Router.Domain.{Route}
use aah.Session.{Session, set, get_string}
use aah.Engine.Context.{FlowResult, flow_cont, flow_abort, AuthenticationInfo, Context, with_reply}
use aah.Engine.Reply.{redirect_to, authentication_failed}
use aah.Engine.Scheme.{
  Scheme, SchemeKind, form, oauth2, basic, generic, FormAuth, OAuth2, AuthcError, refused, internal,
  unavailable, another, ok, err, AccessEnvironment, Authenticated, key_oauth2_state,
}
use aah.Engine.Authentication.{
  primary_principal, populate_authorization_info, populate_authentication_info, session_of,
  has_error, unauthorized_with, form_target, without_state, authentication_failed_reply, signed_in,
  authenticated_as, do_authentication, do_auth_scheme, do_form_auth, oauth2_callback, do_oauth2,
}

-- the request, its domain and its route stay
abbrev pub Same : Context → Context → Type 0
Same ctx c = (c.req ≡ ctx.req) × (c.domain ≡ ctx.domain) × (c.route ≡ ctx.route)

abbrev pub SignedIn : Context → Type 0
SignedIn c = (s : Session) × (c.session ≡ some s) × (Session.is_authenticated s ≡ true)

-- a scheme that lets the request go on has signed the subject in
abbrev pub Fine : Context → Context × FlowResult → Type 0
Fine ctx (c, flow) = Same ctx c × (flow ≡ flow_cont → SignedIn c)

pub Same-trans : (ctx c d : Context) → Same ctx c → Same c d → Same ctx d
Same-trans ctx c d (p, q, r) (p', q', r') = (p' ∙ p, q' ∙ q, r' ∙ r)

pub never : {A : Type 0} → flow_abort ≡ flow_cont → A
never e = cc e

module _ (env : AccessEnvironment) where
  populate_lem :
      (info : AuthenticationInfo) (ctx : Context)
      → Ensures (Same ctx) (populate_authentication_info info ctx)
  unfolding populate_authentication_info
  populate_lem info ctx = elim (Option-cases (primary_principal info.principals)) [
    | inl e ↦ rw (populate_authentication_info, e) tt
    | inr (p, e) ↦ rw (populate_authentication_info, e) (refl, refl, refl)
  ]

  signed_in_lem :
      (s : Scheme) (session : Session) → Session.is_authenticated (signed_in env s session) ≡ true
  unfolding signed_in set
  signed_in_lem s session = elim (Bool-cases env.is_stateful) [
    | inl e ↦ rw (signed_in, e) refl
    | inr e ↦ rw (signed_in, e) refl
  ]

  authenticated_as-Fine :
      (s : Scheme) (info : AuthenticationInfo) (ctx : Context)
      → Ensures (Fine ctx) (authenticated_as env s info ctx)
  unfolding authenticated_as
  authenticated_as-Fine s info ctx =
      >>=-Ensures (Same ctx) (Fine ctx) (populate_authentication_info info ctx) _
        (populate_lem info ctx)
        λ c h.
          (h, λ _. (signed_in env s (session_of env c), refl, signed_in_lem s (session_of env c)))

  failed_reply_lem :
      (s : Scheme) (k : SchemeKind) (e : AuthcError) (ctx : Context)
      → s.kind ≡ k
      → Same ctx (authentication_failed_reply env s e ctx)
  unfolding authentication_failed_reply
  failed_reply_lem s (form f) e ctx h = rw (authentication_failed_reply, h) (refl, refl, refl)
  failed_reply_lem s (oauth2 o) e ctx h = rw (authentication_failed_reply, h) (refl, refl, refl)
  failed_reply_lem s (basic r) e ctx h = rw (authentication_failed_reply, h) (refl, refl, refl)
  failed_reply_lem s generic refused ctx h = rw (authentication_failed_reply, h) (refl, refl, refl)
  failed_reply_lem s generic internal ctx h = rw (authentication_failed_reply, h) (refl, refl, refl)
  failed_reply_lem s generic unavailable ctx h =
      rw (authentication_failed_reply, h) (refl, refl, refl)
  failed_reply_lem s generic another ctx h = rw (authentication_failed_reply, h) (refl, refl, refl)

  do_authentication-Fine :
      (s : Scheme) (ctx : Context) → Ensures (Fine ctx) (do_authentication env s ctx)
  unfolding do_authentication
  do_authentication-Fine s ctx = elim (Option-cases s.principals) [
    | inr (f, e) ↦ elim (Option-cases (f ctx)) [
      | inl g ↦ rw (do_authentication, e, g) ((refl, refl, refl), never)
      | inr (ps, g) ↦
          rw (do_authentication, e, g)
            (authenticated_as-Fine s (record { credential = []; principals = ps }) ctx)
    ]
    | inl e ↦ rw (do_authentication, e) (at_result (s.do_authenticate ctx.req))
  ]
    where
      at_result :
          (r : Authenticated)
          → Ensures (Fine ctx) (elim r [
            | err x ↦ returns (authentication_failed_reply env s x ctx, flow_abort)
            | ok info ↦ authenticated_as env s info ctx
          ])
      at_result (ok info) = authenticated_as-Fine s info ctx
      at_result (err x) = (failed_reply_lem s s.kind x ctx refl, never)

  pub do_auth_scheme-Fine :
      (s : Scheme) (ctx : Context) → Ensures (Fine ctx) (do_auth_scheme env s ctx)
  unfolding do_auth_scheme populate_authorization_info
  do_auth_scheme-Fine s ctx =
      >>=-Ensures (Fine ctx) (Fine ctx) (do_authentication env s ctx) _
        (do_authentication-Fine s ctx) λ x. at_flow x
    where
      at_flow :
          (x : Context × FlowResult)
          → Fine ctx x
          → Ensures (Fine ctx) (elim (x.1) [
            | flow_abort ↦ returns (
              (if has_error (x.0) then x.0 else unauthorized_with (x.0) authentication_failed),
              flow_abort,
            )
            | flow_cont ↦ returns (populate_authorization_info s (x.0), flow_cont)
          ])
      at_flow (c, flow_cont) (same, signed) = (same, λ _. signed refl)
      at_flow (c, flow_abort) (same, signed) =
          (if_cases (Same ctx) (has_error c) _ _ same same, never)

  pub do_form_auth-Fine :
      (s : Scheme) (f : FormAuth) (route : Route) (ctx : Context)
      → Ensures (Fine ctx) (do_form_auth env s f route ctx)
  unfolding do_form_auth populate_authorization_info
  do_form_auth-Fine s f route ctx =
      if_cases (Ensures (Fine ctx))
        (not (text_eq (FormAuth.login_submit_url f) route.path)
          && not (text_eq ctx.req.method (codes "POST")))
        _ _ ((refl, refl, refl), never)
        (>>=-Ensures (Fine ctx) (Fine ctx) (do_authentication env s ctx) _
          (do_authentication-Fine s ctx) λ x. at_flow x)
    where
      at_flow :
          (x : Context × FlowResult)
          → Fine ctx x
          → Ensures (Fine ctx) (elim (x.1) [
            | flow_abort ↦ returns (x.0, flow_abort)
            | flow_cont ↦
                let c' = populate_authorization_info s (x.0) in
                returns
                  (with_reply c' (redirect_to c'.reply (form_target env f c'.req)), flow_abort)
          ])
      at_flow (c, flow_cont) (same, signed) = (same, never)
      at_flow (c, flow_abort) (same, signed) = (same, never)

  oauth2_callback-Fine :
      (s : Scheme) (o : OAuth2) (ctx : Context) → Ensures (Fine ctx) (oauth2_callback env s o ctx)
  unfolding oauth2_callback populate_authorization_info
  oauth2_callback-Fine s o ctx =
      >>=-Ensures (λ _. Same ctx ctx) (Fine ctx) (get_string (session_of env ctx) key_oauth2_state)
        _ (Ensures-const (refl, refl, refl) (get_string (session_of env ctx) key_oauth2_state))
        λ state _.
          if_cases (Ensures (Fine ctx)) (not (OAuth2.callback o state ctx.req)) _ _
            ((refl, refl, refl), never)
            (>>=-Ensures (Fine ctx) (Fine ctx) (do_authentication env s ctx) _
              (do_authentication-Fine s ctx) λ x. at_flow x)
    where
      at_flow :
          (x : Context × FlowResult)
          → Fine ctx x
          → Ensures (Fine ctx) (elim (x.1) [
            | flow_abort ↦ returns (without_state env (x.0), flow_abort)
            | flow_cont ↦
                let c' = populate_authorization_info s (x.0) in
                returns (
                  without_state env (with_reply c' (redirect_to c'.reply (OAuth2.success_url o))),
                  flow_abort,
                )
          ])
      at_flow (c, flow_cont) (same, signed) = (same, never)
      at_flow (c, flow_abort) (same, signed) = (same, never)

  pub do_oauth2-Fine :
      (s : Scheme) (o : OAuth2) (ctx : Context) → Ensures (Fine ctx) (do_oauth2 env s o ctx)
  unfolding do_oauth2
  do_oauth2-Fine s o ctx =
      if_cases (Ensures (Fine ctx)) (text_eq ctx.req.path (OAuth2.login_url o)) _ _
        ((refl, refl, refl), never)
        (if_cases (Ensures (Fine ctx)) (text_eq ctx.req.path (OAuth2.redirect_url o)) _ _
          (oauth2_callback-Fine s o ctx) ((refl, refl, refl), never))
