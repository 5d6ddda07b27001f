-- ===== src/Cookie.antt =====
-- security/cookie/cookie.go: the manager that encrypts, signs and dates a cookie's value. Go's
-- cryptography, base64 and decimal numbers are the parameter `Primitives`; times are seconds, far
-- from the limits of 64 bits. The attributes of the HTTP cookie are left out.
pub mod Laws
pub mod Authentic
pub mod RoundTrip
pub mod StandIn
mod Tests
use aah.Prelude.{
  ℕ, zero, suc, ◌+◌, ◌-◌, Bool, true, false, not, ◌&&◌, ◌||◌, List, [], ◌∷◌, ◌++◌, Option, none,
  some, if◌then◌else◌, ltb, leb, ◌==◌, length,
}
use aah.Prelude.Integers.{ℤ, pos, negsuc}
use aah.Text.{Text, codes, text_eq, is_nil, is_str_empty, drop, take}

abbrev pub pipe : ℕ
pipe = b'|'

-- `mac key value` is the HMAC of the value; `ctr key iv value` is the value under the key stream of
-- AES in CTR mode; `base64` and `unbase64` are the URL encoding; `decimal` and `parse_int` print and
-- read a number; `block_size` is the length of the first part of an encrypted value
pub record Primitives : Type 0 where
  pub mac : Text → Text → Text
  pub ctr : Text → Text → Text → Text
  pub base64 : Text → Text
  pub unbase64 : Text → Option Text
  pub decimal : ℕ → Text
  pub parse_int : Text → Option ℤ
  pub block_size : ℕ

pub record Key : Type 0 where
  pub sign : Text
  pub enc : Text

abbrev pub no_key : Key
no_key = record { sign = []; enc = [] }

pub record Manager : Type 0 where
  pub name : Text
  pub max_age : ℤ
  pub key : Key
  pub old_key : Key
  pub max_cookie_size : ℕ

pub data CookieError : Type 0 where
  value_is_too_large value_is_invalid invaild_timestamp timestamp_is_too_new timestamp_is_expired
        sign_verification_is_failed base64_decode unable_to_decrypt :
      CookieError

pub data Coded : Type 0 where
  ok : Text → Coded
  err : CookieError → Coded

-- the `keys` of `NewManager`: a pair of two texts that are not blank
abbrev pub pair_of : Text → Text → Key
pair_of sign enc =
    if not (is_str_empty sign) && not (is_str_empty enc)
    then record { sign = sign; enc = enc }
    else no_key

abbrev pub keys_of : List Text → Key × Key
keys_of (a ∷ b ∷ c ∷ d ∷ []) = (pair_of a b, pair_of c d)
keys_of (a ∷ b ∷ _) = (pair_of a b, no_key)
keys_of _ = (no_key, no_key)

-- `is_aes_key` tells whether `aes.NewCipher` takes the key; `none` is its error
unfoldable pub new_manager : (Text → Bool) → Text → ℤ → List Text → Option Manager
new_manager is_aes_key name max_age keys =
    let (key, old_key) = keys_of keys in
    if not (is_nil key.enc) && not (is_aes_key key.enc)
    then none
    else if not (is_nil old_key.enc) && not (is_aes_key old_key.enc)
    then none
    else some (record {
      name = name;
      max_age = max_age;
      key = key;
      old_key = old_key;
      max_cookie_size = 4096;
    })

-- `t1 > t2`
unfoldable pub too_new : ℤ → ℕ → Bool
too_new (pos n) now = ltb now n
too_new (negsuc n) now = false

-- `max_age != 0 && t1 < t2 - max_age`
unfoldable pub expired : ℤ → ℕ → ℤ → Bool
expired t now (pos zero) = false
expired (pos n) now (pos (suc age)) = ltb (n + suc age) now
expired (negsuc n) now (pos (suc age)) = ltb (suc age) (now + suc n)
expired (pos n) now (negsuc age) = ltb n (now + suc age)
expired (negsuc n) now (negsuc age) = true

-- a text before its first pipe and behind it
unfoldable pub cut : Text → Option (Text × Text)
cut [] = none
cut (c ∷ s) =
    let rest : Option (Text × Text) = elim (cut s) [ none ↦ none | some x ↦ some (c ∷ x.0, x.1) ] in
    if c == pipe then some ([], s) else rest

-- `bytes.SplitN(b, "|", 3)` where it gives three parts
abbrev pub split_parts : Text → Option (Text × Text × Text)
split_parts b = elim (cut b) [
  | none ↦ none
  | some x ↦ elim (cut (x.1)) [ none ↦ none | some y ↦ some (x.0, y.0, y.1) ]
]

module _ (prim : Primitives) where
  -- acrypto.AESEncrypt, with the random `iv`, and acrypto.AESDecrypt
  unfoldable pub aes_encrypt : Text → Text → Text → Text
  aes_encrypt key iv value = iv ++ prim.ctr key iv value

  unfoldable pub aes_decrypt : Text → Text → Coded
  aes_decrypt key value =
      if ltb prim.block_size (length value)
      then ok (prim.ctr key (take prim.block_size value) (drop prim.block_size value))
      else err unable_to_decrypt

  -- acrypto.Verify
  unfoldable pub verify : Text → Text → Text → Bool
  verify key value mac = text_eq mac (prim.mac key value)

  -- what is signed: `name|date|value`
  abbrev pub signed_text : Text → Text → Text → Text
  signed_text name date value = name ++ pipe ∷ (date ++ pipe ∷ value)

  -- the value before the last base64, without the name
  abbrev pub envelope : Manager → Text → Text → Text
  envelope m date value =
      date
      ++ pipe
        ∷ (value
            ++ pipe
              ∷ (if is_nil m.key.sign
                  then []
                  else prim.mac m.key.sign (signed_text m.name date value)))

  unfoldable pub encode : Manager → Text → ℕ → Text → Coded
  unfolding aes_encrypt
  encode m iv now b =
      let encrypted = if is_nil m.key.enc then b else aes_encrypt m.key.enc iv b in
      let coded = prim.base64 (envelope m (prim.decimal now) (prim.base64 encrypted)) in
      if ltb m.max_cookie_size (length coded) then err value_is_too_large else ok coded

  -- whether the old key verified the value; `none` where no key did
  unfoldable pub verified_by_old : Manager → Text → Text → Option Bool
  unfolding verify
  verified_by_old m b mac =
      if is_nil m.key.sign || verify m.key.sign b mac
      then some false
      else if not (is_nil m.old_key.sign) && verify m.old_key.sign b mac
      then some true
      else none

  -- the end of `Decode`
  unfoldable pub open_value : Manager → Bool → Text → Coded
  unfolding aes_decrypt
  open_value m by_old value = elim (prim.unbase64 value) [
    | none ↦ err base64_decode
    | some b ↦
        if is_nil m.key.enc
        then ok b
        else aes_decrypt (if by_old then m.old_key.enc else m.key.enc) b
  ]

  -- from the timestamp on
  unfoldable pub check_time : Manager → ℕ → Bool → Text → Text → Coded
  unfolding too_new expired open_value
  check_time m now by_old date value = elim (prim.parse_int date) [
    | none ↦ err invaild_timestamp
    | some t ↦
        if too_new t now
        then err timestamp_is_too_new
        else if expired t now m.max_age
        then err timestamp_is_expired
        else open_value m by_old value
  ]

  -- from the parts on
  unfoldable pub check_parts : Manager → ℕ → Option (Text × Text × Text) → Coded
  unfolding verified_by_old check_time
  check_parts m now none = err value_is_invalid
  check_parts m now (some (date, value, mac)) =
      elim (verified_by_old m (signed_text m.name date value) mac) [
        | none ↦ err sign_verification_is_failed
        | some by_old ↦ check_time m now by_old date value
      ]

  unfoldable pub decode : Manager → ℕ → Text → Coded
  unfolding check_parts cut
  decode m now value =
      if ltb m.max_cookie_size (length value)
      then err value_is_too_large
      else elim (prim.unbase64 value) [
        | none ↦ err base64_decode
        | some b ↦ check_parts m now (split_parts b)
      ]
