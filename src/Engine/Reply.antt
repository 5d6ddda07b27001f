-- ===== src/Engine/Reply.antt =====
-- reply.go: the reply that a request is given, built call by call. The headers of the response are
-- kept with it, in the order in which they were added. Renders other than that of a text, cookies
-- and the writing of the response are left out.
use aah.Prelude.{
  ℕ, Bool, true, false, List, [], ◌∷◌, ◌++◌, Option, none, some, if◌then◌else◌, ◌==◌, length,
}
use aah.Text.{Text, codes, text_eq, to_lower, is_nil}

-- the values of error.go, router and anticsrf that the middlewares reply with
pub data Cause : Type 0 where
  domain_not_found route_not_found static_file_not_found http_method_not_allowed not_authenticated
        authentication_failed authorization_failed unable_to_get_principal internal_server_error
        service_unavailable_error route_constraint_failed cors_origin_is_invalid
        cors_method_not_allowed cors_header_not_allowed malformed_referer no_referer bad_referer
        no_cookie_found callback_error content_type_not_accepted content_type_not_offered :
      Cause

-- `newError`
pub record Error : Type 0 where
  pub reason : Cause
  pub code : ℕ

abbrev pub new_error : Cause → ℕ → Error
new_error reason code = record { reason = reason; code = code }

pub record Reply : Type 0 where
  pub text_body : Option Text
  pub code : ℕ
  pub cont_type : Text
  pub redirect : Bool
  pub done : Bool
  pub path : Text
  pub err : Option Error
  pub headers : List (Text × Text)

unfoldable pub new_reply : Reply
new_reply = record {
  text_body = none;
  code = 200;
  cont_type = [];
  redirect = false;
  done = false;
  path = [];
  err = none;
  headers = [];
}

unfoldable pub status : Reply → ℕ → Reply
status r code = record r { code = code }

unfoldable pub ok : Reply → Reply
unfolding status
ok r = status r 200

unfoldable pub moved_permanently : Reply → Reply
unfolding status
moved_permanently r = status r 301

unfoldable pub found : Reply → Reply
unfolding status
found r = status r 302

unfoldable pub temporary_redirect : Reply → Reply
unfolding status
temporary_redirect r = status r 307

unfoldable pub bad_request : Reply → Reply
unfolding status
bad_request r = status r 400

unfoldable pub unauthorized : Reply → Reply
unfolding status
unauthorized r = status r 401

unfoldable pub forbidden : Reply → Reply
unfolding status
forbidden r = status r 403

unfoldable pub not_found : Reply → Reply
unfolding status
not_found r = status r 404

unfoldable pub method_not_allowed : Reply → Reply
unfolding status
method_not_allowed r = status r 405

unfoldable pub not_acceptable : Reply → Reply
unfolding status
not_acceptable r = status r 406

unfoldable pub unsupported_media_type : Reply → Reply
unfolding status
unsupported_media_type r = status r 415

unfoldable pub service_unavailable : Reply → Reply
unfolding status
service_unavailable r = status r 503

unfoldable pub internal_error : Reply → Reply
unfolding status
internal_error r = status r 500

unfoldable pub error : Reply → Error → Reply
error r e = record r { err = some e }

-- the status before counts for nothing
unfoldable pub redirect_with_status : Reply → Text → ℕ → Reply
unfolding status
redirect_with_status r redirect_url code = record (status (record r { redirect = true }) code) {
  path = redirect_url;
}

unfoldable pub redirect_to : Reply → Text → Reply
unfolding redirect_with_status
redirect_to r redirect_url = redirect_with_status r redirect_url 302

-- only the first one counts
unfoldable pub content_type : Reply → Text → Reply
content_type r t = if length r.cont_type == 0 then record r { cont_type = to_lower t } else r

unfoldable pub text : Reply → Text → Reply
unfolding content_type
text r format = record (content_type r (codes "text/plain; charset=utf-8")) {
  text_body = some format;
}

-- http.Header's Del, Set and Add, on names in canonical form
abbrev pub delete_header : List (Text × Text) → Text → List (Text × Text)
delete_header [] key = []
delete_header ((k, v) ∷ hs) key =
    let rest = delete_header hs key in if text_eq k key then rest else (k, v) ∷ rest

abbrev pub content_type_header : Text
content_type_header = codes "Content-Type"

unfoldable pub header : Reply → Text → Text → Reply
unfolding content_type
header r key value =
    if is_nil value
    then (if text_eq key content_type_header
        then content_type r []
        else record r { headers = delete_header r.headers key })
    else if text_eq key content_type_header
    then content_type r value
    else record r { headers = delete_header r.headers key ++ (key, value) ∷ [] }

unfoldable pub header_append : Reply → Text → Text → Reply
unfolding content_type
header_append r key value =
    if text_eq key content_type_header
    then content_type r value
    else record r { headers = r.headers ++ (key, value) ∷ [] }
