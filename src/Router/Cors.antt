-- ===== src/Router/Cors.antt =====
-- router/cors.go: what a CORS policy allows and how policies are read and inherited. The texts of
-- `String` and the log are left out.
pub mod Origins
pub mod Methods
pub mod Inherit
mod Tests
use aah.Prelude.{
  ℕ, ◌+◌, ◌-◌, Bool, true, false, not, ◌&&◌, ◌||◌, List, [], ◌∷◌, ◌++◌, map, Option, none, some,
  if◌then◌else◌, leb, ◌==◌, length, all, any,
}
use aah.Text.{
  Text, codes, text_eq, lower_byte, upper_byte, to_lower, to_upper, contains_fold, trim_space,
  is_str_empty, split,
}

abbrev pub allow_all : Text
allow_all = codes "*"

pub record Cors : Type 0 where
  pub allow_credentials : Bool
  pub allow_all_origins : Bool
  pub allow_all_methods : Bool
  pub allow_all_headers : Bool
  pub max_age : Text
  pub max_age_str : Text
  pub allow_origins : List Text
  pub allow_methods : List Text
  pub allow_headers : List Text
  pub expose_headers : List Text

-- `&CORS{}`
abbrev pub blank : Cors
blank = record {
  allow_credentials = false;
  allow_all_origins = false;
  allow_all_methods = false;
  allow_all_headers = false;
  max_age = [];
  max_age_str = [];
  allow_origins = [];
  allow_methods = [];
  allow_headers = [];
  expose_headers = [];
}

-- a byte that a header's name may hold
is_token_byte : ℕ → Bool
is_token_byte c =
    (leb b'a' c && leb c b'z')
    || (leb b'A' c && leb c b'Z')
    || (leb b'0' c && leb c b'9')
    || any (λ d. c == d) (codes "!#$%&'*+-.^_`|~")

canonical_from : Bool → Text → Text
canonical_from upper [] = []
canonical_from upper (c ∷ s) =
    (if upper then upper_byte c else lower_byte c) ∷ canonical_from (c == b'-') s

-- http.CanonicalHeaderKey
unfoldable pub canonical_header_key : Text → Text
unfolding is_token_byte canonical_from
canonical_header_key s = if all is_token_byte s then canonical_from true s else s

unfoldable pub add_origins : Cors → List Text → Cors
add_origins c [] = c
add_origins c (o ∷ origins) =
    let added = record c { allow_origins = c.allow_origins ++ to_lower o ∷ [] } in
    let more =
      add_origins (if not (contains_fold c.allow_origins (to_lower o)) then added else c) origins in
    if text_eq o allow_all
    then record c { allow_all_origins = true; allow_origins = allow_all ∷ [] }
    else more

-- the loop of `addHeaders`
unfoldable pub add_headers : List Text → List Text → List Text
unfolding canonical_header_key
add_headers dst [] = dst
add_headers dst (h ∷ src) =
    let key = canonical_header_key (trim_space h) in
    let more =
      add_headers
        (if not (is_str_empty key) && not (contains_fold dst key) then dst ++ key ∷ [] else dst)
        src in
    if text_eq h allow_all then allow_all ∷ [] else more

unfoldable pub add_allow_headers : Cors → List Text → Cors
unfolding add_headers
add_allow_headers c hdrs =
    let headers = add_headers c.allow_headers hdrs in
    if contains_fold headers allow_all
    then record c { allow_all_headers = true; allow_headers = allow_all ∷ [] }
    else record c { allow_headers = headers }

unfoldable pub add_allow_methods : Cors → List Text → Cors
add_allow_methods c [] = c
add_allow_methods c (m ∷ methods) =
    let name = to_upper (trim_space m) in
    let added = record c { allow_methods = c.allow_methods ++ name ∷ [] } in
    let more =
      add_allow_methods
        (if not (is_str_empty name) && not (contains_fold c.allow_methods name) then added else c)
        methods in
    if text_eq m allow_all
    then record c { allow_all_methods = true; allow_methods = allow_all ∷ [] }
    else more

unfoldable pub add_expose_headers : Cors → List Text → Cors
unfolding add_headers
add_expose_headers c hdrs = record c { expose_headers = add_headers c.expose_headers hdrs }

unfoldable pub is_origin_allowed : Cors → Text → Bool
is_origin_allowed c origin =
    if length origin == 0
    then false
    else if c.allow_all_origins
    then true
    else contains_fold c.allow_origins (to_lower origin)

unfoldable pub is_method_allowed : Cors → Text → Bool
is_method_allowed c method =
    if c.allow_all_methods then true else contains_fold c.allow_methods method

-- the loop of `IsHeadersAllowed`
unfoldable pub headers_listed : List Text → List Text → Bool
unfolding canonical_header_key
headers_listed allowed [] = true
headers_listed allowed (h ∷ hs) =
    if not (contains_fold allowed (canonical_header_key (trim_space h)))
    then false
    else headers_listed allowed hs

unfoldable pub is_headers_allowed : Cors → Text → Bool
unfolding headers_listed
is_headers_allowed c hdrs =
    if c.allow_all_headers || (length hdrs == 0)
    then true
    else headers_listed c.allow_headers (split b',' hdrs)

-- The values of a section of the configuration; `none` where the key is not there.
pub record Section : Type 0 where
  pub origins : Option (List Text)
  pub headers : Option (List Text)
  pub methods : Option (List Text)
  pub credentials : Option Bool
  pub exposed : Option (List Text)
  pub age : Option Text

abbrev pub or_default {ℓ} : {A : Type ℓ} → Option A → A → A
or_default none d = d
or_default (some a) d = a

-- the default headers and methods, and OPTIONS
abbrev pub default_allow_headers : List Text
default_allow_headers =
    codes "Origin" ∷ codes "Accept" ∷ codes "Accept-Language" ∷ codes "Authorization" ∷ []

abbrev pub default_allow_methods : List Text
default_allow_methods = codes "GET" ∷ codes "HEAD" ∷ codes "POST" ∷ []

-- `seconds` is `time.ParseDuration` of Go's library and the seconds of the result as a text; `none`
-- where it returns an error.
module _ (seconds : Text → Option Text) where
  unfoldable pub set_max_age : Cors → Text → Cors
  set_max_age c age = elim (seconds age) [ some s ↦ record c { max_age = s } | none ↦ c ]

  unfoldable pub process_base_cors_section : Section → Cors
  unfolding set_max_age add_origins add_allow_headers add_allow_methods add_expose_headers
  process_base_cors_section cfg =
      let c₁ = add_origins blank (or_default cfg.origins (allow_all ∷ [])) in
      let c₂ = add_allow_headers c₁ (or_default cfg.headers default_allow_headers) in
      let c₃ = add_allow_methods c₂ (or_default cfg.methods default_allow_methods) in
      let c₄ = add_allow_methods c₃ (codes "OPTIONS" ∷ []) in
      let c₅ = record c₄ { allow_credentials = or_default cfg.credentials false } in
      let c₆ : Cors = elim cfg.exposed [ some hdrs ↦ add_expose_headers c₅ hdrs | none ↦ c₅ ] in
      let c₇ = record c₆ { max_age_str = or_default cfg.age (codes "24h") } in
      set_max_age c₇ c₇.max_age_str

  -- `none` is the error for a domain without CORS
  unfoldable pub process_cors_section : Section → Option Cors → Option Cors
  unfolding set_max_age add_origins add_allow_headers add_allow_methods add_expose_headers
  process_cors_section cfg none = none
  process_cors_section cfg (some parent) =
      let c₁ = add_origins blank (or_default cfg.origins parent.allow_origins) in
      let c₂ = add_allow_headers c₁ (or_default cfg.headers parent.allow_headers) in
      let c₃ = add_allow_methods c₂ (or_default cfg.methods parent.allow_methods) in
      let c₄ = record c₃ {
        allow_credentials = or_default cfg.credentials parent.allow_credentials;
      } in
      let c₅ = add_expose_headers c₄ (or_default cfg.exposed parent.expose_headers) in
      let c₆ = record c₅ { max_age_str = or_default cfg.age parent.max_age_str } in
      some (set_max_age c₆ c₆.max_age_str)
