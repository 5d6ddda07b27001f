-- ===== src/Engine/Bind.antt =====
-- bind.go: BindMiddleware, as far as it decides whether a request goes on. The locale, the limit of the
-- body and the parsing of forms, which never stop a request, are left out; the media types of a
-- request are given by `BindEnvironment`.
use aah.Prelude.{Bool, false, not, ◌&&◌, ◌||◌, List, [], ◌∷◌, if◌then◌else◌, ltb, length, map}
use aah.Prelude.Outcome.{returns}
use aah.Text.{Text, codes, text_eq, to_lower, has_prefix, contains_fold}
use aah.Engine.Reply.{
  content_type_not_accepted, content_type_not_offered, new_error, unsupported_media_type,
  not_acceptable, error,
}
use aah.Engine.Context.{Req, with_reply}
use aah.Engine.Chain.{stops, goes, MiddlewareFunc}

pub record BindEnvironment : Type 0 where
  pub content_negotiation_enabled : Bool
  pub accepted_content_types : List Text
  pub offered_content_types : List Text
  pub content_mime : Req → Text
  pub accept_mime : Req → Text

-- the loops of `initBind`: a list that names every type checks nothing
unfoldable pub names_all : List Text → Bool
names_all [] = false
names_all (v ∷ vs) = text_eq v (codes "*/*") || names_all vs

unfoldable pub negotiable : List Text → List Text
unfolding names_all
negotiable types = if names_all types then [] else map to_lower types

abbrev pub occurs : Text → Text → Bool
occurs [] p = has_prefix [] p
occurs (c ∷ s) p = has_prefix (c ∷ s) p || occurs s p

-- the regular expression `(POST|PUT|DELETE)`, which is not anchored
unfoldable pub payload_supported : Text → Bool
unfolding has_prefix
payload_supported method =
    occurs method (codes "POST") || occurs method (codes "PUT") || occurs method (codes "DELETE")

-- whether a list that is not empty leaves a type out
unfoldable pub leaves_out : List Text → Text → Bool
leaves_out types mime = ltb 0 (length types) && not (contains_fold types mime)

unfoldable pub bind_middleware : BindEnvironment → MiddlewareFunc
unfolding payload_supported leaves_out unsupported_media_type not_acceptable error
bind_middleware env ctx = returns (
    if payload_supported ctx.req.method && env.content_negotiation_enabled
    then (if leaves_out env.accepted_content_types (env.content_mime ctx.req)
        then stops (
            with_reply ctx
              (error (unsupported_media_type ctx.reply) (new_error content_type_not_accepted 415)))
        else if leaves_out env.offered_content_types (env.accept_mime ctx.req)
        then stops (
            with_reply ctx
              (error (not_acceptable ctx.reply) (new_error content_type_not_offered 406)))
        else goes ctx)
    else goes ctx)
