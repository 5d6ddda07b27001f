-- ===== src/Engine/Csrf.antt =====
-- security.go: AntiCSRFMiddleware. The part of security/anticsrf is `AntiCsrf`; the parsing of a URL,
-- random bytes and the time are given by `CsrfEnvironment`.
pub mod Safe
use aah.Prelude.{
  ℕ, Bool, true, false, not, ◌&&◌, ◌||◌, List, [], ◌∷◌, Option, none, some, if◌then◌else◌, ◌==◌,
  length,
}
use aah.Prelude.Outcome.{Outcome, returns, panics}
use aah.Text.{Text, codes, text_eq, is_nil}
use aah.Cookie.{Primitives, Coded, ok, err}
use aah.AntiCsrf.{
  AntiCsrf, cipher_secret, request_cipher_secret, is_authentic, is_safe_http_method, is_same_origin,
  is_trusted_origin, set_cookie,
}
use aah.Router.Domain.{Route}
use aah.Engine.Reply.{
  Cause, malformed_referer, no_referer, bad_referer, no_cookie_found, new_error, forbidden, error,
}
use aah.Engine.Context.{Req, Context, CsrfCookie, written, cleared, with_reply}
use aah.Engine.Chain.{Flow, stops, goes, goes_on, MiddlewareFunc}

-- a parsed URL: its text, its scheme and its host
pub record Url : Type 0 where
  pub text : Text
  pub origin : Text × Text

-- `parse_url` is `none` for a malformed URL; `fresh` is what `GenerateSecret` returns
pub record CsrfEnvironment : Type 0 where
  pub prim : Primitives
  pub anti_csrf : AntiCsrf
  pub has_view_engine : Bool
  pub parse_url : Text → Option Url
  pub now : ℕ
  pub iv : Text
  pub fresh : Text

-- the request's own URL has the scheme and the host of the request
abbrev pub own_origin : Req → Text × Text
own_origin req = (req.scheme, req.host)

abbrev pub has_some : {A : Type 0} → Option A → Bool
has_some none = false
has_some (some _) = true

abbrev pub refused : Context → Cause → Context
refused ctx cause = with_reply ctx (error (forbidden ctx.reply) (new_error cause 403))

module _ (env : CsrfEnvironment) where
  -- `ClearCookie`
  unfoldable pub clear_cookie : Context → Context
  clear_cookie ctx =
      let ac = env.anti_csrf in
      if not ac.enabled || not (has_some ac.cookie_mgr)
      then ctx
      else if has_some ctx.req.csrf_cookie
      then record ctx { csrf_set_cookie = some cleared }
      else ctx

  abbrev pub write_coded : Context → Option Coded → Context
  write_coded ctx (some (ok v)) = record ctx { csrf_set_cookie = some (written v) }
  write_coded ctx _ = ctx

  -- `SetCookie`, whose error is logged
  unfoldable pub write_secret : Text → Context → Context
  unfolding set_cookie
  write_secret secret ctx =
      write_coded ctx (set_cookie env.prim env.anti_csrf env.iv env.now secret)

  -- the checks of the referer: the error, or `none`
  unfoldable pub check_referer : Req → Option Cause
  unfolding is_same_origin is_trusted_origin
  check_referer req = elim (env.parse_url req.referer) [
    | none ↦ some malformed_referer
    | some referer ↦
        if length (Url.text referer) == 0
        then some no_referer
        else if not (is_same_origin (own_origin req) (Url.origin referer))
            && not (is_trusted_origin env.anti_csrf (Url.origin referer).1)
        then some bad_referer
        else none
  ]

  unfoldable pub check_origin : Req → Option Cause
  unfolding check_referer
  check_origin req = if text_eq req.scheme (codes "https") then check_referer req else none

  -- a secret that is not nil, and authentic
  abbrev pub matches : Text → Option Text → Bool
  matches secret none = false
  matches secret (some sent) = is_authentic secret sent

  -- the token of an unsafe request
  unfoldable pub check_token : Text → Context → Flow
  unfolding request_cipher_secret is_authentic write_secret forbidden error
  check_token secret ctx =
      let request_secret =
        request_cipher_secret env.prim env.anti_csrf ctx.req.csrf_header ctx.req.csrf_form in
      if not (matches secret request_secret)
      then stops (refused ctx no_cookie_found)
      else goes_on ctx (write_secret secret)

  -- with the secret of the request's cookie
  unfoldable pub csrf_flow : Text → Context → Flow
  unfolding is_safe_http_method write_secret check_origin check_token forbidden error
  csrf_flow secret ctx =
      if is_safe_http_method ctx.req.method
      then goes_on ctx (write_secret secret)
      else elim (check_origin ctx.req) [
        | some cause ↦ stops (refused ctx cause)
        | none ↦ check_token secret ctx
      ]

  unfoldable pub anti_csrf_middleware : MiddlewareFunc
  unfolding clear_cookie csrf_flow cipher_secret
  anti_csrf_middleware ctx =
      let secret = cipher_secret env.prim env.anti_csrf env.now ctx.req.csrf_cookie env.fresh in
      if not (AntiCsrf.enabled env.anti_csrf)
      then returns (goes (clear_cookie ctx))
      else elim ctx.route [
        | none ↦ panics
        | some route ↦
            if not route.is_anti_csrf_check || not env.has_view_engine
            then returns (goes (clear_cookie ctx))
            else returns (csrf_flow secret (record ctx { csrf_secret = some secret }))
      ]
