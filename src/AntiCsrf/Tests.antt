-- ===== src/AntiCsrf/Tests.antt =====
-- Runs of security/anticsrf on small inputs, and the theorems about it at such inputs. Base64 is the
-- identity here.
use aah.Prelude.{◌≡◌, refl, true, [], ◌∷◌, some, none, arith}
use aah.Prelude.Integers.{pos}
use aah.Text.{Text, codes}
use aah.Cookie.{Primitives}
use aah.AntiCsrf.{
  AntiCsrf, xor_byte, is_authentic, is_safe_http_method, is_trusted_origin, trusted,
  request_cipher_secret, salt_cipher_secret, cipher_secret,
}
use aah.AntiCsrf.Token.{is_authentic-salted}

abbrev plain : Primitives
plain = record {
  mac = λ key value. key;
  ctr = λ key iv value. value;
  base64 = λ s. s;
  unbase64 = λ s. some s;
  decimal = λ n. [];
  parse_int = λ s. some (pos 0);
  block_size = 1;
}

abbrev two_bytes : AntiCsrf
two_bytes = record {
  enabled = true;
  cookie_mgr = none;
  secret_length = 2;
  trusted_origins = trusted (codes "A.com" ∷ []);
}

xor_mixed : xor_byte 0xa5 0x0f ≡ 0xaa
unfolding aah.AntiCsrf.xor_bits
xor_mixed = refl

safe_any_case : is_safe_http_method (codes "get") ≡ true
unfolding is_safe_http_method aah.Text.contains_fold
safe_any_case = refl

trusted_any_case : is_trusted_origin two_bytes (codes "a.COM") ≡ true
unfolding is_trusted_origin trusted aah.Text.text_eq aah.Text.lower_byte
trusted_any_case = refl

short_token : request_cipher_secret plain two_bytes (codes "xyz") [] ≡ none
unfolding request_cipher_secret aah.Text.is_str_empty
short_token = refl

is_authentic-salted_example :
    (request_cipher_secret plain two_bytes [] (salt_cipher_secret plain (codes "Kq") (codes "ab"))
      ≡ some (codes "ab"))
    × (is_authentic (codes "ab") (codes "ab") ≡ true)
unfolding salt_cipher_secret aah.AntiCsrf.request_token aah.Text.is_str_empty
is_authentic-salted_example =
    is_authentic-salted plain two_bytes (codes "Kq") (codes "ab") []
      (salt_cipher_secret plain (codes "Kq") (codes "ab")) (λ b. refl) refl refl
      (omega arith, (omega arith, tt)) refl
