-- ===== src/AntiCsrf.antt =====
-- security/anticsrf: the secret of the anti-CSRF cookie and the salted token that a request carries.
-- Random bytes are arguments; the configuration is not read here, and headers and form values are
-- the texts that they hold.
pub mod Xor
pub mod Token
mod Tests
use aah.Prelude.{
  ℕ, zero, suc, ◌+◌, ◌*◌, ◌/◌, ◌%◌, Bool, true, false, not, ◌&&◌, ◌||◌, List, [], ◌∷◌, ◌++◌, Option,
  none, some, map, if◌then◌else◌, ◌==◌, length,
}
use aah.Text.{Text, codes, text_eq, to_lower, is_str_empty, contains_fold, drop, take}
use aah.Cookie.{Primitives, Manager, Coded, ok, err, encode, decode}

-- Go's `^` on the lowest `n` bits
unfoldable pub xor_bits : ℕ → ℕ → ℕ → ℕ
xor_bits zero a b = 0
xor_bits (suc n) a b = xor_bits n (a / 2) (b / 2) * 2 + (if a % 2 == b % 2 then 0 else 1)

abbrev pub xor_byte : ℕ → ℕ → ℕ
xor_byte a b = xor_bits 8 a b

unfoldable pub xor_bytes : Text → Text → Text
xor_bytes (a ∷ s) (b ∷ t) = xor_byte a b ∷ xor_bytes s t
xor_bytes _ _ = []

-- `cookie_mgr` is nil where the protection is not configured
pub record AntiCsrf : Type 0 where
  pub enabled : Bool
  pub cookie_mgr : Option Manager
  pub secret_length : ℕ
  pub trusted_origins : List Text

abbrev pub safe_http_methods : List Text
safe_http_methods = codes "GET" ∷ codes "HEAD" ∷ codes "OPTIONS" ∷ codes "TRACE" ∷ []

unfoldable pub is_safe_http_method : Text → Bool
is_safe_http_method method = contains_fold safe_http_methods method

-- the scheme and the host of two URLs
unfoldable pub is_same_origin : Text × Text → Text × Text → Bool
is_same_origin a b = text_eq (a.0) (b.0) && text_eq (a.1) (b.1)

abbrev listed : List Text → Text → Bool
listed [] s = false
listed (o ∷ os) s = text_eq o s || listed os s

-- the keys of the map `trustedOrigins`, as `New` makes it
unfoldable pub trusted : List Text → List Text
trusted origins = map to_lower origins

unfoldable pub is_trusted_origin : AntiCsrf → Text → Bool
is_trusted_origin ac host = listed ac.trusted_origins (to_lower host)

unfoldable pub unsalt_cipher_token : AntiCsrf → Text → Text
unfolding xor_bytes
unsalt_cipher_token ac token = xor_bytes (take ac.secret_length token) (drop ac.secret_length token)

-- subtle.ConstantTimeCompare
unfoldable pub is_authentic : Text → Text → Bool
is_authentic secret request_secret = text_eq secret request_secret

-- the header, or the form value where the header is blank
unfoldable pub request_token : Text → Text → Text
request_token header form_value = if is_str_empty header then form_value else header

module _ (prim : Primitives) where
  -- `fresh` is what `GenerateSecret` returns, and `cookie` the value of the request's cookie
  unfoldable pub cipher_secret : AntiCsrf → ℕ → Option Text → Text → Text
  cipher_secret ac now cookie fresh = elim ac.cookie_mgr [
    | none ↦ fresh
    | some m ↦ elim cookie [
      | none ↦ fresh
      | some value ↦ elim (decode prim m now value) [ ok b ↦ b | err e ↦ fresh ]
    ]
  ]

  -- `none` is nil, which the empty slice is not
  unfoldable pub request_cipher_secret : AntiCsrf → Text → Text → Option Text
  unfolding request_token unsalt_cipher_token
  request_cipher_secret ac header form_value =
      elim (prim.unbase64 (request_token header form_value)) [
        | none ↦ none
        | some token ↦
            if not (length token == ac.secret_length * 2)
            then none
            else some (unsalt_cipher_token ac token)
      ]

  unfoldable pub salt_cipher_secret : Text → Text → Text
  unfolding xor_bytes
  salt_cipher_secret salt secret = prim.base64 (salt ++ xor_bytes salt secret)

  -- the value of the cookie that is written; `none` where none is
  unfoldable pub set_cookie : AntiCsrf → Text → ℕ → Text → Option Coded
  set_cookie ac iv now secret = elim ac.cookie_mgr [
    | none ↦ none
    | some m ↦ if length secret == 0 then none else some (encode prim m iv now secret)
  ]
