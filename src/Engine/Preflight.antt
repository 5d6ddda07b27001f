-- ===== src/Engine/Preflight.antt =====
-- router.go at the root: CORSMiddleware, which answers a preflight request and adds the headers of the
-- route's CORS policy to any other.
use aah.Prelude.{Bool, not, ◌&&◌, List, [], ◌∷◌, none, some, if◌then◌else◌, ltb, length}
use aah.Prelude.Outcome.{returns, panics}
use aah.Text.{Text, codes, text_eq, join}
use aah.Router.Cors.{Cors, is_origin_allowed, is_method_allowed, is_headers_allowed}
use aah.Router.Domain.{Request}
use aah.Engine.Reply.{
  cors_origin_is_invalid, cors_method_not_allowed, cors_header_not_allowed, Reply, new_error, ok,
  bad_request, method_not_allowed, forbidden, error, text, header, header_append,
}
use aah.Engine.Context.{Req, Context, with_reply}
use aah.Engine.Chain.{Flow, stops, goes, MiddlewareFunc}

-- the first value of a header, the empty text where there is none
abbrev pub first_value : List Text → Text
first_value [] = []
first_value (h ∷ _) = h

unfoldable pub vary_preflight : Reply → Reply
unfolding header_append
vary_preflight r =
    header_append (header_append r (codes "Vary") (codes "Access-Control-Request-Method"))
      (codes "Vary") (codes "Access-Control-Request-Headers")

unfoldable pub credentials_header : Cors → Reply → Reply
unfolding header
credentials_header cors r =
    if cors.allow_credentials
    then header r (codes "Access-Control-Allow-Credentials") (codes "true")
    else r

unfoldable pub max_age_header : Cors → Reply → Reply
unfolding header
max_age_header cors r =
    if ltb 0 (length cors.max_age)
    then header r (codes "Access-Control-Max-Age") cors.max_age
    else r

-- the end of `handleCORSPreflight`
unfoldable pub preflight_granted : Cors → Reply → Reply
unfolding credentials_header max_age_header ok text
preflight_granted cors r = text (ok (max_age_header cors (credentials_header cors r))) []

unfoldable pub allow_headers_reply : Cors → Reply → Reply
unfolding header
allow_headers_reply cors r =
    if ltb 0 (length cors.allow_headers)
    then header r (codes "Access-Control-Allow-Headers") (join (codes ", ") cors.allow_headers)
    else r

unfoldable pub check_preflight_headers : Cors → Req → Reply → Reply
unfolding preflight_granted allow_headers_reply forbidden error is_headers_allowed
check_preflight_headers cors req r =
    if is_headers_allowed cors (first_value req.access_control_headers)
    then preflight_granted cors (allow_headers_reply cors r)
    else error (forbidden r) (new_error cors_header_not_allowed 403)

unfoldable pub check_preflight_method : Cors → Req → Reply → Reply
unfolding check_preflight_headers header method_not_allowed error is_method_allowed
check_preflight_method cors req r =
    if is_method_allowed cors (first_value (Request.cors_method req.http))
    then check_preflight_headers cors req
        (header r (codes "Access-Control-Allow-Methods") (join (codes ", ") cors.allow_methods))
    else error (method_not_allowed r) (new_error cors_method_not_allowed 405)

unfoldable pub handle_cors_preflight : Cors → Req → Reply → Reply
unfolding vary_preflight check_preflight_method header bad_request error is_origin_allowed
handle_cors_preflight cors req reply =
    let r = vary_preflight reply in
    let origin = first_value req.origin in
    if is_origin_allowed cors origin
    then check_preflight_method cors req (header r (codes "Access-Control-Allow-Origin") origin)
    else error (bad_request r) (new_error cors_origin_is_invalid 400)

unfoldable pub expose_headers_reply : Cors → Reply → Reply
unfolding header
expose_headers_reply cors r =
    if ltb 0 (length cors.expose_headers)
    then header r (codes "Access-Control-Expose-Headers") (join (codes ", ") cors.expose_headers)
    else if ltb 0 (length cors.allow_headers)
    then header r (codes "Access-Control-Expose-Headers") (join (codes ", ") cors.allow_headers)
    else r

-- the headers of a request that is no preflight
unfoldable pub cors_headers : Cors → Req → Reply → Reply
unfolding expose_headers_reply credentials_header header is_origin_allowed
cors_headers cors req r =
    let origin = first_value req.origin in
    let r1 =
      if is_origin_allowed cors origin
      then header r (codes "Access-Control-Allow-Origin") origin
      else r in
    credentials_header cors (expose_headers_reply cors r1)

unfoldable pub is_preflight : Req → Bool
is_preflight req =
    text_eq req.method (codes "OPTIONS")
    && ltb 0 (length (first_value (Request.cors_method req.http)))

-- with a policy
unfoldable pub cors_flow : Cors → Context → Flow
unfolding header_append is_preflight handle_cors_preflight cors_headers
cors_flow cors ctx =
    let r = header_append ctx.reply (codes "Vary") (codes "Origin") in
    if is_preflight ctx.req
    then stops (with_reply ctx (handle_cors_preflight cors ctx.req r))
    else goes (with_reply ctx (cors_headers cors ctx.req r))

-- a domain or a route that is nil panics
unfoldable pub cors_middleware : MiddlewareFunc
unfolding cors_flow
cors_middleware ctx = elim ctx.domain [
  | none ↦ panics
  | some d ↦ if not d.cors_enabled then returns (goes ctx) else elim ctx.route [
    | none ↦ panics
    | some route ↦ elim route.cors [
      | none ↦ returns (goes ctx)
      | some cors ↦ returns (cors_flow cors ctx)
    ]
  ]
]
