-- ===== src/Engine/Routing.antt =====
-- router.go at the root: RouteMiddleware, which finds the domain and the route of a request, and what
-- it replies where there is no route. What is under other files is a parameter: the static file
-- manager, the validation of constraints, and net/url.
use aah.Prelude.{
  Bool, true, false, not, ◌&&◌, List, [], ◌∷◌, ◌++◌, Option, none, some, if◌then◌else◌, ltb, ◌==◌,
  length,
}
use aah.Prelude.Outcome.{Outcome, returns, panics, ◌>>=◌}
use aah.Text.{Text, codes, text_eq}
use aah.Router.Tree.Lookup.{Params, Found, Result, ok}
use aah.Router.Domain.{Domain, Route, Request, domain_lookup, allowed}
use aah.Router.Hosts.{Router, lookup_domain}
use aah.Engine.Reply.{
  Cause, domain_not_found, route_not_found, static_file_not_found, http_method_not_allowed,
  route_constraint_failed, Reply, new_error, moved_permanently, temporary_redirect, bad_request,
  not_found, method_not_allowed, error, redirect_to, text, header,
}
use aah.Engine.Context.{FlowResult, flow_cont, flow_abort, Context, with_reply}
use aah.Engine.Chain.{stops, goes, MiddlewareFunc}

-- `serve` tells whether the file was not found; `validate` gives the errors of the constraints;
-- `parse_target` is the escaped path of a URL that is parsed, `none` where it is refused; `url_text`
-- is the request's URL with another path
pub record Environment : Type 0 where
  pub router : Router
  pub serve : Context → Context × Bool
  pub validate : Option Params → List (Text × Text) → List Text
  pub parse_target : Text → Option Text
  pub url_text : Text → Text

-- a lookup_domain always ends: its fuel is enough
abbrev pub looked_up : Result Route → Outcome (Found Route)
looked_up (ok f) = returns f
looked_up _ = panics

unfoldable pub process_allowed_methods : Reply → Text → Reply × Bool
unfolding header
process_allowed_methods reply allowed_methods =
    if ltb 0 (length allowed_methods)
    then (header reply (codes "Allow") (allowed_methods ++ codes ", OPTIONS"), true)
    else (reply, false)

-- an unchanged context, where the route is not found
abbrev pub not_handled : Context → Context × Bool
not_handled ctx = (ctx, false)

unfoldable pub redirect_code : Text → Reply → Reply
unfolding moved_permanently temporary_redirect
redirect_code method reply =
    if text_eq method (codes "GET") then moved_permanently reply else temporary_redirect reply

-- the request that is looked up before a redirect has no headers
abbrev pub plain_request : Text → Text → Request
plain_request method escaped_path = record {
  req_method = method;
  method_override = [];
  cors_method = [];
  escaped_path = escaped_path;
}

abbrev pub last_is_slash : Text → Bool
last_is_slash [] = false
last_is_slash (c ∷ []) = c == b'/'
last_is_slash (c ∷ d ∷ s) = last_is_slash (d ∷ s)

abbrev pub without_last : Text → Text
without_last [] = []
without_last (c ∷ []) = []
without_last (c ∷ d ∷ s) = c ∷ without_last (d ∷ s)

-- the path of the URL before the lookup_domain of the target
abbrev pub trimmed_path : Context → Context
trimmed_path ctx =
    if ltb 1 (length ctx.req.path) && last_is_slash ctx.req.path
    then record ctx { url_path = without_last ctx.req.path }
    else ctx

module _ (env : Environment) where
  -- `Redirect Trailing Slash`, once the options allow it; `true` is nil, the reply that is made
  unfoldable pub redirect_trailing_slash : Domain → Context → Outcome (Context × Bool)
  unfolding domain_lookup redirect_code redirect_to
  redirect_trailing_slash d ctx =
      let req = ctx.req in
      let target = req.path ++ codes "/" in
      elim (env.parse_target target) [
        | none ↦ panics
        | some p ↦ looked_up (domain_lookup d (plain_request req.method p)) >>= λ f. returns (
            if f.rts then not_handled (trimmed_path ctx) else (
              record ctx {
                url_path = target;
                reply = redirect_to (redirect_code req.method ctx.reply) (env.url_text target);
              },
              true,
            ))
      ]

  -- the last case
  unfoldable pub method_not_allowed_reply : Domain → Context → Outcome (Context × Bool)
  unfolding allowed process_allowed_methods method_not_allowed error
  method_not_allowed_reply d ctx =
      if d.method_not_allowed
      then (allowed d ctx.req.method ctx.req.path >>= λ methods.
          let (reply, any) = process_allowed_methods ctx.reply methods in
          returns (
            if any
            then (
              with_reply ctx
                  (error (method_not_allowed reply) (new_error http_method_not_allowed 405)),
              true,
            )
            else not_handled (with_reply ctx reply)))
      else returns (not_handled ctx)

  -- `HTTP: OPTIONS`
  unfoldable pub auto_options_reply : Domain → Context → Outcome (Context × Bool)
  unfolding allowed process_allowed_methods text method_not_allowed_reply
  auto_options_reply d ctx =
      if text_eq ctx.req.method (codes "OPTIONS") && d.auto_options
      then (allowed d ctx.req.method ctx.req.path >>= λ methods.
          let (reply, any) = process_allowed_methods ctx.reply methods in
          if any
          then returns (with_reply ctx (text reply []), true)
          else method_not_allowed_reply d (with_reply ctx reply))
      else method_not_allowed_reply d ctx

  unfoldable pub handle_rts_options_mna : Domain → Bool → Context → Outcome (Context × Bool)
  unfolding redirect_trailing_slash auto_options_reply
  handle_rts_options_mna d rts ctx =
      if not (text_eq ctx.req.method (codes "CONNECT"))
        && not (text_eq ctx.req.path (codes "/"))
        && rts
        && d.redirect_trailing_slash
      then redirect_trailing_slash d ctx
      else auto_options_reply d ctx

  abbrev pub replied : Context → Cause → Context × FlowResult
  replied ctx cause =
      (with_reply ctx (error (not_found ctx.reply) (new_error cause 404)), flow_abort)

  -- the domain is found, and the route is not
  unfoldable pub route_missing : Domain → Bool → Context → Outcome (Context × FlowResult)
  unfolding handle_rts_options_mna not_found error
  route_missing d rts ctx = handle_rts_options_mna d rts ctx >>= λ (c, handled).
      returns (if handled then (c, flow_abort) else replied c route_not_found)

  -- the route is found
  unfoldable pub route_found : Context → Route → FlowResult × Context
  unfolding not_found error bad_request
  route_found ctx route =
      let (served, missing) = env.serve ctx in
      let undone = record served { reply = record (Context.reply served) { done = false } } in
      let errs = env.validate ctx.url_params route.constraints in
      if route.is_static
      then (
        flow_abort,
        (if missing
            then with_reply undone
                (error (not_found (Context.reply undone)) (new_error static_file_not_found 404))
            else served),
      )
      else if ltb 0 (length route.constraints) && ltb 0 (length errs)
      then (
        flow_abort,
        with_reply ctx (error (bad_request ctx.reply) (new_error route_constraint_failed 400)),
      )
      else (flow_cont, ctx)

  unfoldable pub handle_route : Context → Outcome (Context × FlowResult)
  unfolding lookup_domain domain_lookup route_missing route_found not_found error
  handle_route ctx = elim (lookup_domain env.router ctx.req.host) [
    | none ↦ returns (replied (record ctx { domain = none }) domain_not_found)
    | some d ↦
        let at_domain = record ctx { domain = some d } in
        looked_up (domain_lookup d ctx.req.http) >>= λ f. elim f.route [
          | none ↦ route_missing d f.rts at_domain
          | some route ↦
              let (flow, c) =
                route_found (record at_domain { route = some route; url_params = f.params })
                  route in
              returns (c, flow)
        ]
  ]

  unfoldable pub route_middleware : MiddlewareFunc
  unfolding handle_route
  route_middleware ctx = handle_route ctx >>= λ (c, flow). elim flow [
    | flow_abort ↦ returns (stops c)
    | flow_cont ↦ returns (goes c)
  ]
