-- ===== src/Engine/Access/Granted.antt =====
-- Who passes AuthcAuthzMiddleware.
use mathlib.Core.Path.{subst}
use aah.Prelude.{
  ◌≡◌, ◌≢◌, refl, sym, ◌⊎◌, inl, inr, Bool, true, false, List, [], ◌∷◌, Option, none, some,
  if◌then◌else◌, if_cases, Bool-cases,
}
use aah.Prelude.Outcome.{
  Outcome, returns, panics, ◌>>=◌, Ensures, >>=-Ensures, Ensures-returns, Ensures-const,
}
use aah.Text.{Text, codes, text_eq, is_nil, split}
use aah.Text.Split.{split-ne-nil}
use aah.Text.Equality.{text_eq_iff}
use aah.Authz.Info.{AuthorizationInfo}
use aah.Router.Domain.{Route}
use aah.Router.Route.{Reason, has_access}
use aah.Session.{Session, get_string}
use aah.Engine.Context.{FlowResult, flow_cont, flow_abort, Context, with_reply}
use aah.Engine.Reply.{not_authenticated, authorization_failed, new_error, forbidden, error}
use aah.Engine.Chain.{Flow, goes, goes_on, stops}
use aah.Engine.Scheme.{Scheme, AccessEnvironment, key_auth_scheme}
use aah.Engine.Authentication.{
  is_authenticated, populate_authorization_info, session_of, unauthorized_with,
}
use aah.Engine.Access.{
  check_access, run_schemes, then_next, by_schemes, by_session, authc_authz, authc_authz_middleware,
}
use aah.Engine.Authentication.SignIn.{Same, SignedIn, Fine, never}
use aah.Engine.Access.Schemes.{run_schemes-Fine}

module _ (env : AccessEnvironment) where
  -- the route lets this subject in
  abbrev pub Entitled : Context → Type 0
  Entitled c =
      (route : Route) × (a : AuthorizationInfo) × (reasons : List Reason) × (c.route ≡ some route)
      × (c.authorization_info ≡ some a)
      × (has_access route.authorization_info a ≡ returns (true, reasons))

  -- what is left of `check_access`
  abbrev decided : Context → Outcome (Bool × List Reason) → Outcome (Context × FlowResult)
  decided ctx m = m >>= λ (granted, reasons). returns (
      if granted then (ctx, flow_cont) else (
        with_reply ctx (error (forbidden ctx.reply) (new_error authorization_failed 403)),
        flow_abort,
      ))

  abbrev Checked : Context → Context × FlowResult → Type 0
  Checked ctx x = (x.1 ≡ flow_cont) → Entitled ctx × (ctx ≡ x.0)

  decided-Checked :
      (ctx : Context) (route : Route) (a : AuthorizationInfo) (m : Outcome (Bool × List Reason))
      → ctx.route ≡ some route
      → ctx.authorization_info ≡ some a
      → has_access route.authorization_info a ≡ m
      → Ensures (Checked ctx) (decided ctx m)
  decided-Checked ctx route a (returns (true, rs)) e f h = λ _. ((route, a, rs, e, f, h), refl)
  decided-Checked ctx route a (returns (false, rs)) e f h = never
  decided-Checked ctx route a panics e f h = tt

  check_access-Checked : (ctx : Context) → Ensures (Checked ctx) (check_access ctx)
  unfolding check_access
  check_access-Checked ctx = at_route ctx.route refl
    where
      at_info :
          (route : Route) (o : Option AuthorizationInfo)
          → ctx.route ≡ some route
          → ctx.authorization_info ≡ o
          → Ensures (Checked ctx) (elim o [
            | none ↦ panics
            | some a ↦ decided ctx (has_access route.authorization_info a)
          ])
      at_info route none e f = tt
      at_info route (some a) e f =
          decided-Checked ctx route a (has_access route.authorization_info a) e f refl

      at_route :
          (o : Option Route)
          → ctx.route ≡ o
          → Ensures (Checked ctx) (elim o [
            | none ↦ panics
            | some route ↦ elim ctx.authorization_info [
              | none ↦ panics
              | some a ↦ decided ctx (has_access route.authorization_info a)
            ]
          ])
      at_route none e = tt
      at_route (some route) e = at_info route ctx.authorization_info e refl

  -- a flow that calls the next middleware with a subject that is signed in and let in
  abbrev Lets : Context → Flow → Type 0
  Lets ctx (stops c) = Unit
  Lets ctx (goes_on c after) = Same ctx c × SignedIn c × Entitled c

  checked-Lets :
      (ctx d : Context)
      → Same ctx d
      → SignedIn d
      → Ensures (Lets ctx) (check_access d >>= λ x. returns (then_next env x))
  checked-Lets ctx d same signed =
      >>=-Ensures (Checked d) (Lets ctx) (check_access d) _ (check_access-Checked d) λ x. at_flow x
    where
      at_flow : (x : Context × FlowResult) → Checked d x → Lets ctx (then_next env x)
      at_flow (c, flow_abort) h = tt
      at_flow (c, flow_cont) h =
          let (entitled, e) = h refl in
          (subst (Same ctx) e same, subst SignedIn e signed, subst Entitled e entitled)

  -- the list of schemes has at least one name, so that the first result counts for nothing
  tried-Fine :
      (route : Route) (names : List Text) (ctx : Context)
      → names ≢ []
      → Ensures (Fine ctx) (run_schemes env route names ctx flow_cont)
  unfolding run_schemes
  tried-Fine route [] ctx h = absurd (h refl)
  tried-Fine route (n ∷ ns) ctx h = run_schemes-Fine env route (n ∷ ns) ctx ctx (refl, refl, refl)

  by_schemes-Lets : (route : Route) (ctx : Context) → Ensures (Lets ctx) (by_schemes env route ctx)
  unfolding by_schemes
  by_schemes-Lets route ctx =
      >>=-Ensures (Fine ctx) (Lets ctx)
        (run_schemes env route (split b',' route.auth) ctx flow_cont) _
        (tried-Fine route (split b',' route.auth) ctx (split-ne-nil b',' route.auth)) λ x. at_flow x
    where
      at_flow :
          (x : Context × FlowResult)
          → Fine ctx x
          → Ensures (Lets ctx) (elim (x.1) [
            | flow_abort ↦ returns (stops (x.0))
            | flow_cont ↦ check_access (x.0) >>= λ y. returns (then_next env y)
          ])
      at_flow (c, flow_abort) h = tt
      at_flow (c, flow_cont) (same, signed) = checked-Lets ctx c same (signed refl)

  by_session-Lets :
      (key : Text) (ctx : Context) → SignedIn ctx → Ensures (Lets ctx) (by_session env key ctx)
  unfolding by_session populate_authorization_info
  by_session-Lets key ctx signed = at_scheme (env.auth_scheme key)
    where
      at_scheme :
          (o : Option Scheme)
          → Ensures (Lets ctx) (elim o [
            | none ↦ panics
            | some s ↦
                check_access (populate_authorization_info s ctx) >>= λ x. returns (then_next env x)
          ])
      at_scheme none = tt
      at_scheme (some s) =
          checked-Lets ctx (populate_authorization_info s ctx) (refl, refl, refl) signed

  is_authenticated-SignedIn : (ctx : Context) → is_authenticated ctx ≡ true → SignedIn ctx
  unfolding is_authenticated
  is_authenticated-SignedIn ctx h = at_session ctx.session refl h
    where
      at_session :
          (o : Option Session)
          → ctx.session ≡ o
          → (elim o [ none ↦ false | some s ↦ Session.is_authenticated s ]) ≡ true
          → SignedIn ctx
      at_session none e k = cc k
      at_session (some s) e k = (s, e, k)

  authc_authz-Lets :
      (route : Route) (ctx : Context) → Ensures (Lets ctx) (authc_authz env route ctx)
  unfolding authc_authz
  authc_authz-Lets route ctx = elim (Bool-cases (is_authenticated ctx)) [
    | inr e ↦ subst (Ensures (Lets ctx)) (sym (other_eq e)) (
        if_cases (Ensures (Lets ctx)) (text_eq route.auth (codes "authenticated")) _ _ tt
          (by_schemes-Lets route ctx))
    | inl e ↦ subst (Ensures (Lets ctx)) (sym (signed_eq e)) (
        >>=-Ensures (λ _. Same ctx ctx) (Lets ctx) (get_string (session_of env ctx) key_auth_scheme)
          _ (Ensures-const (refl, refl, refl) (get_string (session_of env ctx) key_auth_scheme))
          λ key _.
            if_cases (Ensures (Lets ctx)) (is_nil key) _ _ (by_schemes-Lets route ctx)
              (by_session-Lets key ctx (is_authenticated-SignedIn ctx e)))
  ]
    where
      other_eq :
          is_authenticated ctx ≡ false
          → authc_authz env route ctx ≡ (
              if text_eq route.auth (codes "authenticated")
              then returns (stops (unauthorized_with ctx not_authenticated))
              else by_schemes env route ctx)
      other_eq e = rw (authc_authz, e) refl

      signed_eq :
          is_authenticated ctx ≡ true
          → authc_authz env route ctx ≡ (
              get_string (session_of env ctx) key_auth_scheme >>= λ key.
              if is_nil key then by_schemes env route ctx else by_session env key ctx)
      signed_eq e = rw (authc_authz, e) refl

  -- A request passes the middleware only where there is no scheme at all, where its route is for
  -- anyone, or with a session that is authenticated and a subject that has the access that the route
  -- asks for. The route is the one that it came with.
  pub authc_authz_middleware-Entitled :
      (ctx c : Context) (f : Context → Context)
      → authc_authz_middleware env ctx ≡ returns (goes_on c f)
      → ((env.auth_scheme_exists ≡ false) × (ctx ≡ c))
        ⊎ (((route : Route) × (ctx.route ≡ some route) × (route.auth ≡ codes "anonymous"))
            × (ctx ≡ c))
        ⊎ (Same ctx c × SignedIn c × Entitled c)
  unfolding authc_authz_middleware
  authc_authz_middleware-Entitled ctx c f h = elim (Bool-cases env.auth_scheme_exists) [
    | inr e ↦ inl (e, goes_inj ctx (rw (authc_authz_middleware, e) at h))
    | inl e ↦ at_route ctx.route refl (rw (authc_authz_middleware, e) at h)
  ]
    where
      goes_inj : (d : Context) → returns (goes d) ≡ returns (goes_on c f) → d ≡ c
      goes_inj d k = cc k

      at_route :
          (o : Option Route)
          → ctx.route ≡ o
          → (elim o [
            | none ↦ panics
            | some route ↦
                if text_eq route.auth (codes "anonymous")
                then returns (goes ctx)
                else authc_authz env route ctx
          ])
            ≡ returns (goes_on c f)
          → ((env.auth_scheme_exists ≡ false) × (ctx ≡ c))
            ⊎ (((route : Route) × (ctx.route ≡ some route) × (route.auth ≡ codes "anonymous"))
                × (ctx ≡ c))
            ⊎ (Same ctx c × SignedIn c × Entitled c)
      at_route none e k = cc k
      at_route (some route) e k = elim (Bool-cases (text_eq route.auth (codes "anonymous"))) [
        | inl a ↦ inr (
            inl (
              (route, e, (text_eq_iff route.auth (codes "anonymous")).0 a),
              goes_inj ctx (rw a at k),
            ))
        | inr a ↦ inr (
            inr (
              Ensures-returns (Lets ctx) (authc_authz env route ctx) (goes_on c f)
                (authc_authz-Lets route ctx) (rw a at k)))
      ]
