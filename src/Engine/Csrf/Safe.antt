-- ===== src/Engine/Csrf/Safe.antt =====
-- What an unsafe request has shown when it passes the anti-CSRF check.
use aah.Prelude.{
  ◌≡◌, refl, sym, ap, ◌⊎◌, inl, inr, Bool, true, false, not, ◌&&◌, none, some, arith, if◌then◌else◌,
  ◌==◌, length, Option-cases, Option,
}
use aah.Prelude.Outcome.{returns}
use aah.Text.{Text, codes, text_eq}
use aah.Text.Equality.{text_eq_iff}
use aah.AntiCsrf.{
  AntiCsrf, cipher_secret, request_cipher_secret, is_authentic, is_safe_http_method, is_same_origin,
  is_trusted_origin,
}
use aah.Router.Domain.{Route}
use aah.Engine.Reply.{bad_referer, no_referer, no_cookie_found}
use aah.Engine.Context.{Req, Context}
use aah.Engine.Chain.{Flow, goes_on, stops}
use aah.Engine.Csrf.{
  Url, CsrfEnvironment, own_origin, check_referer, check_origin, check_token, csrf_flow, matches,
  anti_csrf_middleware, refused, write_secret,
}

module _ (env : CsrfEnvironment) where
  -- the request names a page of the same origin, or of a trusted host, as the one it comes from
  abbrev pub FromTrusted : Req → Type 0
  FromTrusted req =
      (referer : Url) × (env.parse_url req.referer ≡ some referer)
      × ((is_same_origin (own_origin req) (Url.origin referer) ≡ true)
          ⊎ (is_trusted_origin env.anti_csrf (Url.origin referer).1 ≡ true))

  -- the secrets of the cookie and of the header or the form
  abbrev pub own_secret : Req → Text
  own_secret req = cipher_secret env.prim env.anti_csrf env.now req.csrf_cookie env.fresh

  abbrev pub sent_secret : Req → Option Text
  sent_secret req = request_cipher_secret env.prim env.anti_csrf req.csrf_header req.csrf_form

  abbrev pub Genuine : Req → Type 0
  Genuine req =
      (sent_secret req ≡ some (own_secret req)) × (req.scheme ≡ codes "https" → FromTrusted req)

  either_origin : (a b : Bool) → (not a && not b) ≡ false → (a ≡ true) ⊎ (b ≡ true)
  either_origin a b h = ground arith

  check_referer-none : (req : Req) → check_referer env req ≡ none → FromTrusted req
  unfolding check_referer
  check_referer-none req h = elim (Option-cases (env.parse_url req.referer)) [
    | inl e ↦ cc (rw (check_referer, e) at h)
    | inr (u, e) ↦ (u, e, at_url u (rw (check_referer, e) at h))
  ]
    where
      at_url :
          (u : Url)
          → (if length (Url.text u) == 0
              then some no_referer
              else if not (is_same_origin (own_origin req) (Url.origin u))
                  && not (is_trusted_origin env.anti_csrf (Url.origin u).1)
              then some bad_referer
              else none)
            ≡ none
          → (is_same_origin (own_origin req) (Url.origin u) ≡ true)
            ⊎ (is_trusted_origin env.anti_csrf (Url.origin u).1 ≡ true)
      at_url u k =
          choose (length (Url.text u) == 0) (is_same_origin (own_origin req) (Url.origin u))
            (is_trusted_origin env.anti_csrf (Url.origin u).1) k
        where
          choose :
              (z a b : Bool)
              → (if z then some no_referer else if not a && not b then some bad_referer else none)
                ≡ none
              → (a ≡ true) ⊎ (b ≡ true)
          choose z a b k = ground arith

  check_origin-none :
      (req : Req) → check_origin env req ≡ none → req.scheme ≡ codes "https" → FromTrusted req
  unfolding check_origin
  check_origin-none req h s =
      check_referer-none req (rw (check_origin, (text_eq_iff req.scheme (codes "https")).1 s) at h)

  passed :
      (b : Bool) (d ctx c : Context) (f after : Context → Context)
      → (if b then stops d else goes_on ctx f) ≡ goes_on c after
      → (b ≡ false) × (ctx ≡ c)
  passed true d ctx c f after h = cc h
  passed false d ctx c f after h = (refl, cc h)

  matches-some :
      (secret : Text) (o : Option Text) → not (matches env secret o) ≡ false → o ≡ some secret
  unfolding is_authentic
  matches-some secret none h = cc h
  matches-some secret (some sent) h =
      ap some (sym ((text_eq_iff secret sent).0 (positive (text_eq secret sent) h)))
    where
      positive : (b : Bool) → not b ≡ false → b ≡ true
      positive b k = ground arith

  check_token-goes_on :
      (secret : Text) (ctx c : Context) (after : Context → Context)
      → check_token env secret ctx ≡ goes_on c after
      → (sent_secret ctx.req ≡ some secret) × (ctx ≡ c)
  unfolding check_token is_authentic
  check_token-goes_on secret ctx c after h =
      let (e, same) =
        passed (not (matches env secret (sent_secret ctx.req))) (refused ctx no_cookie_found) ctx c
          (write_secret env secret) after h in
      (matches-some secret (sent_secret ctx.req) e, same)

  csrf_flow-goes_on :
      (secret : Text) (ctx c : Context) (after : Context → Context)
      → is_safe_http_method ctx.req.method ≡ false
      → csrf_flow env secret ctx ≡ goes_on c after
      → (sent_secret ctx.req ≡ some secret)
        × (ctx.req.scheme ≡ codes "https" → FromTrusted ctx.req)
        × (ctx ≡ c)
  unfolding csrf_flow
  csrf_flow-goes_on secret ctx c after u h = elim (Option-cases (check_origin env ctx.req)) [
    | inl e ↦
        let (a, same) = check_token-goes_on secret ctx c after (rw (csrf_flow, u, e) at h) in
        (a, check_origin-none ctx.req e, same)
    | inr (cause, e) ↦ cc (rw (csrf_flow, u, e) at h)
  ]

  -- Where the protection is on for the route, an unsafe request passes only with a token that opens to
  -- the secret of its cookie or, where it has no cookie that is accepted, to a secret that was just
  -- generated, and under https only from a page of the same origin or of a trusted host. It passes with
  -- that secret in its context, and otherwise as it came.
  pub anti_csrf_middleware-Genuine :
      (ctx c : Context) (route : Route) (after : Context → Context)
      → AntiCsrf.enabled env.anti_csrf ≡ true
      → ctx.route ≡ some route
      → route.is_anti_csrf_check ≡ true
      → env.has_view_engine ≡ true
      → is_safe_http_method ctx.req.method ≡ false
      → anti_csrf_middleware env ctx ≡ returns (goes_on c after)
      → Genuine ctx.req × (c ≡ record ctx { csrf_secret = some (own_secret ctx.req) })
  unfolding anti_csrf_middleware
  anti_csrf_middleware-Genuine ctx c route after on r check view u h =
      let h' : returns (
            csrf_flow env (own_secret ctx.req)
              (record ctx { csrf_secret = some (own_secret ctx.req) }))
          ≡ returns (goes_on c after) =
        rw (anti_csrf_middleware, on, r, check, view) at h in
      let (a, t, same) =
        csrf_flow-goes_on (own_secret ctx.req)
          (record ctx { csrf_secret = some (own_secret ctx.req) }) c after u (returns_inj h') in
      ((a, t), sym same)
    where
      returns_inj : {x y : Flow} → returns x ≡ returns y → x ≡ y
      returns_inj e = cc e
