-- ===== src/Engine/Access/Schemes.antt =====
-- The loop over the schemes of a route.
use aah.Prelude.{List, [], ◌∷◌, Option, none, some}
use aah.Prelude.Outcome.{returns, Ensures, >>=-Ensures}
use aah.Text.{Text, trim_space}
use aah.Router.Domain.{Route}
use aah.Engine.Context.{FlowResult, flow_cont, flow_abort, Context}
use aah.Engine.Scheme.{Scheme, SchemeKind, form, oauth2, basic, generic, AccessEnvironment}
use aah.Engine.Authentication.{do_auth_scheme, do_form_auth, do_oauth2}
use aah.Engine.Access.{run_scheme, run_schemes}
use aah.Engine.Authentication.SignIn.{
  Same, Fine, never, do_auth_scheme-Fine, do_form_auth-Fine, do_oauth2-Fine, Same-trans,
}

module _ (env : AccessEnvironment) where
  run_scheme-Fine :
      (route : Route) (o : Option Scheme) (ctx : Context)
      → Ensures (Fine ctx) (run_scheme env route o ctx)
  unfolding run_scheme
  run_scheme-Fine route none ctx = tt
  run_scheme-Fine route (some s) ctx = at_kind s.kind
    where
      at_kind :
          (k : SchemeKind)
          → Ensures (Fine ctx) (elim k [
            | form f ↦ do_form_auth env s f route ctx
            | oauth2 o ↦ do_oauth2 env s o ctx
            | basic _ ↦ do_auth_scheme env s ctx
            | generic ↦ do_auth_scheme env s ctx
          ])
      at_kind (form f) = do_form_auth-Fine env s f route ctx
      at_kind (oauth2 o) = do_oauth2-Fine env s o ctx
      at_kind (basic _) = do_auth_scheme-Fine env s ctx
      at_kind generic = do_auth_scheme-Fine env s ctx

  -- after at least one scheme was tried
  pub run_schemes-Fine :
      (route : Route) (names : List Text) (start ctx : Context)
      → Same start ctx
      → Ensures (Fine start) (run_schemes env route names ctx flow_abort)
  unfolding run_schemes
  run_schemes-Fine route [] start ctx h = (h, never)
  run_schemes-Fine route (name ∷ names) start ctx h =
      >>=-Ensures (Fine ctx) (Fine start)
        (run_scheme env route (env.auth_scheme (trim_space name)) ctx) _
        (run_scheme-Fine route (env.auth_scheme (trim_space name)) ctx)
        λ x k.
          at_flow x k
            (run_schemes-Fine route names start (x.0) (Same-trans start ctx (x.0) h (k.0)))
    where
      at_flow :
          (x : Context × FlowResult)
          → Fine ctx x
          → Ensures (Fine start) (run_schemes env route names (x.0) flow_abort)
          → Ensures (Fine start) (elim (x.1) [
            | flow_cont ↦ returns (x.0, flow_cont)
            | flow_abort ↦ run_schemes env route names (x.0) flow_abort
          ])
      at_flow (c, flow_cont) (same, signed) rest = (Same-trans start ctx c h same, signed)
      at_flow (c, flow_abort) (same, signed) rest = rest
