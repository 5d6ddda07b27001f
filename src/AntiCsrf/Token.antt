-- ===== src/AntiCsrf/Token.antt =====
-- Tokens that SaltCipherSecret of security/anticsrf makes, read by RequestCipherSecret.
use aah.Prelude.{
  ℕ, ◌+◌, ◌*◌, ◌≡◌, sym, ap, ◌∙◌, true, ◌++◌, some, arith, length, length-append, All, ==_refl,
}
use aah.Text.{Text}
use aah.Text.Equality.{text_eq_refl}
use aah.Text.Index.{take-append, drop-append}
use aah.Cookie.{Primitives}
use aah.AntiCsrf.{
  AntiCsrf, xor_bytes, unsalt_cipher_token, is_authentic, request_token, request_cipher_secret,
  salt_cipher_secret,
}
use aah.AntiCsrf.Xor.{IsByte, xor_bytes-xor_bytes, length-xor_bytes}

-- A token that was made of a secret with any salt, both of the configured length, is accepted for that
-- secret when the header or the form brings it back.
pub is_authentic-salted :
    (prim : Primitives) (ac : AntiCsrf) (salt secret header form_value : Text)
    → ((b : Text) → prim.unbase64 (prim.base64 b) ≡ some b)
    → length salt ≡ ac.secret_length
    → length secret ≡ ac.secret_length
    → All IsByte secret
    → request_token header form_value ≡ salt_cipher_secret prim salt secret
    → (request_cipher_secret prim ac header form_value ≡ some secret)
      × (is_authentic secret secret ≡ true)
unfolding request_cipher_secret salt_cipher_secret unsalt_cipher_token is_authentic
is_authentic-salted prim ac salt secret header form_value law l k bytes h =
    let masked = xor_bytes salt secret in
    let lengths = length-xor_bytes salt secret (l ∙ sym k) in
    let doubled =
      double (length salt) (length masked) (length (salt ++ masked)) (length-append salt masked)
        lengths in
    let opened : request_cipher_secret prim ac header form_value ≡ some secret =
      rw
        (
          request_cipher_secret,
          h,
          law (salt ++ masked),
          sym l,
          doubled,
          ==_refl (length salt * 2),
          take-append salt masked,
          drop-append salt masked,
        )
        (ap some (xor_bytes-xor_bytes salt secret (l ∙ sym k) bytes)) in
    (opened, text_eq_refl secret)
  where
    double : (m n s : ℕ) → s ≡ m + n → n ≡ m → s ≡ m * 2
    double m n s e f = omega arith
