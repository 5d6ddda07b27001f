-- ===== src/Cookie/RoundTrip.antt =====
-- `Decode` of security/cookie/cookie.go on what `Encode` makes, with the keys of now and with
-- rotated keys.
use mathlib.Core.Path.{subst}
use aah.Prelude.{
  ℕ, zero, suc, ◌+◌, ◌≡◌, ◌≢◌, refl, sym, ◌∙◌, ◌⊎◌, inl, inr, Bool, true, false, [], ◌∷◌, some,
  arith, if◌then◌else◌, Bool-cases, ltb, length, length-append,
}
use aah.Prelude.Integers.{ℤ, pos, negsuc}
use aah.Text.{Text, text_eq, is_nil}
use aah.Text.Equality.{text_eq_refl, text_eq_iff}
use aah.Text.Index.{take-append, drop-append}
use aah.Cookie.{
  Primitives, Manager, ok, too_new, expired, aes_encrypt, aes_decrypt, verify, signed_text,
  envelope, encode, verified_by_old, open_value, check_time, check_parts, decode,
}
use aah.Cookie.Laws.{Lawful, InTime, split_parts-append}

ok_inj : {x y : Text} → ok x ≡ ok y → x ≡ y
ok_inj h = cc

in_time :
    (age : ℤ) (t now : ℕ)
    → InTime age t now
    → (too_new (pos t) now ≡ false) × (expired (pos t) now age ≡ false)
unfolding too_new expired
in_time (pos zero) t now h = (ground arith, refl)
in_time (pos (suc age)) t now h = (ground arith, ground arith)
in_time (negsuc age) t now h = absurd h

module _ (prim : Primitives) (laws : Lawful prim) where
  aes_decrypt-aes_encrypt :
      (key iv b : Text)
      → length iv ≡ prim.block_size
      → b ≢ []
      → aes_decrypt prim key (aes_encrypt prim key iv b) ≡ ok b
  unfolding aes_decrypt aes_encrypt
  aes_decrypt-aes_encrypt key iv b h ne =
      let longer = length-append iv (prim.ctr key iv b) in
      let same = laws.length-ctr key iv b in
      rw
        (
          sym h,
          longer,
          same,
          beyond (length iv) b ne,
          take-append iv (prim.ctr key iv b),
          drop-append iv (prim.ctr key iv b),
          laws.ctr-ctr key iv b,
        )
        refl
    where
      beyond : (n : ℕ) (b : Text) → b ≢ [] → ltb n (n + length b) ≡ true
      beyond n [] ne = absurd (ne refl)
      beyond n (c ∷ b) ne = ground arith

  -- what is encrypted where there is a key
  abbrev sealed : Text → Text → Text → Text
  sealed enc iv b = if is_nil enc then b else aes_encrypt prim enc iv b

  -- the value that is decoded, from its parts
  parts-decode :
      (m : Manager) (t now : ℕ) (value mac : Text) (by_old : Bool)
      → InTime m.max_age t now
      → verified_by_old prim m (signed_text prim m.name (prim.decimal t) (prim.base64 value)) mac
        ≡ some by_old
      → check_parts prim m now (some (prim.decimal t, prim.base64 value, mac)) ≡ (
          if is_nil m.key.enc
          then ok value
          else aes_decrypt prim (if by_old then m.old_key.enc else m.key.enc) value)
  unfolding check_parts check_time open_value
  parts-decode m t now value mac by_old time v =
      let (new, exp) = in_time m.max_age t now time in
      rw
        (
          check_parts,
          v,
          check_time,
          laws.parse_int-decimal t,
          new,
          exp,
          open_value,
          laws.unbase64-base64 value,
        )
        refl

  -- the signature that `encode` appends
  abbrev tail : Manager → Text → Text → Text
  tail m date value =
      if is_nil m.key.sign then [] else prim.mac m.key.sign (signed_text prim m.name date value)

  -- what a manager of the same name and size reads of an encoded value
  decode-parts :
      (m m' : Manager) (iv : Text) (t now : ℕ) (b v : Text)
      → m'.max_cookie_size ≡ m.max_cookie_size
      → encode prim m iv t b ≡ ok v
      → decode prim m' now v
        ≡ check_parts prim m' now (
            some (
              prim.decimal t,
              prim.base64 (sealed m.key.enc iv b),
              tail m (prim.decimal t) (prim.base64 (sealed m.key.enc iv b)),
            ))
  unfolding encode decode
  decode-parts m m' iv t now b v size h =
      let date = prim.decimal t in
      let value = prim.base64 (sealed m.key.enc iv b) in
      elim (Bool-cases
        (ltb m.max_cookie_size (length (prim.base64 (envelope prim m date value))))) [
          | inl e ↦ cc (rw e at h)
          | inr e ↦
              rw
                (
                  sym (ok_inj (rw e at h)),
                  size,
                  e,
                  laws.unbase64-base64 (envelope prim m date value),
                  split_parts-append date value (tail m date value) (laws.decimal-Lacks t)
                      (laws.base64-Lacks (sealed m.key.enc iv b)),
                )
                refl
        ]

  -- a value that was sealed is opened by its key
  sealed-opens :
      (enc iv b : Text)
      → length iv ≡ prim.block_size
      → (enc ≡ []) ⊎ (b ≢ [])
      → (if is_nil enc then ok (sealed enc iv b) else aes_decrypt prim enc (sealed enc iv b)) ≡ ok b
  sealed-opens [] iv b h e = refl
  sealed-opens (c ∷ enc) iv b h (inl e) = cc e
  sealed-opens (c ∷ enc) iv b h (inr ne) = aes_decrypt-aes_encrypt (c ∷ enc) iv b h ne

  verified-tail :
      (m : Manager) (date value : Text)
      → verified_by_old prim m (signed_text prim m.name date value) (tail m date value) ≡ some false
  unfolding verified_by_old verify
  verified-tail m date value = elim (Bool-cases (is_nil m.key.sign)) [
    | inl e ↦ rw e refl
    | inr e ↦ rw (e, text_eq_refl (prim.mac m.key.sign (signed_text prim m.name date value))) refl
  ]

  -- A value that `Encode` accepted at some time is given back by `Decode` of the same manager until it
  -- expires, provided that it is not empty or is not encrypted.
  pub decode-encode :
      (m : Manager) (iv : Text) (t now : ℕ) (b v : Text)
      → length iv ≡ prim.block_size
      → (m.key.enc ≡ []) ⊎ (b ≢ [])
      → InTime m.max_age t now
      → encode prim m iv t b ≡ ok v
      → decode prim m now v ≡ ok b
  decode-encode m iv t now b v size full time h =
      let date = prim.decimal t in
      let value = prim.base64 (sealed m.key.enc iv b) in
      decode-parts m m iv t now b v refl h
      ∙ parts-decode m t now (sealed m.key.enc iv b) (tail m date value) false time
          (verified-tail m date value)
      ∙ sealed-opens m.key.enc iv b size full

  verified-rotated :
      (m m' : Manager) (date value : Text)
      → m'.name ≡ m.name
      → m'.old_key ≡ m.key
      → m.key.sign ≢ []
      → m'.key.sign ≢ []
      → prim.mac m.key.sign (signed_text prim m.name date value)
        ≢ prim.mac m'.key.sign (signed_text prim m.name date value)
      → verified_by_old prim m' (signed_text prim m'.name date value) (tail m date value)
        ≡ some true
  unfolding verified_by_old verify
  verified-rotated m m' date value n k s s' differ =
      let own = prim.mac m.key.sign (signed_text prim m.name date value) in
      rw
        (n, k, not_nil m.key.sign s, not_nil m'.key.sign s', unequal own _ differ, text_eq_refl own)
        refl
    where
      not_nil : (x : Text) → x ≢ [] → is_nil x ≡ false
      not_nil [] h = absurd (h refl)
      not_nil (c ∷ x) h = refl

      unequal : (x y : Text) → x ≢ y → text_eq x y ≡ false
      unequal x y h = ground (arith, text_eq_iff x y)

  sealed-eq : (enc iv b : Text) → enc ≢ [] → sealed enc iv b ≡ aes_encrypt prim enc iv b
  sealed-eq [] iv b e = absurd (e refl)
  sealed-eq (c ∷ enc) iv b e = refl

  old-opens :
      (enc' enc iv b : Text)
      → length iv ≡ prim.block_size
      → enc ≢ []
      → enc' ≢ []
      → b ≢ []
      → (if is_nil enc' then ok (sealed enc iv b) else aes_decrypt prim enc (sealed enc iv b))
        ≡ ok b
  old-opens enc' [] iv b h e e' full = absurd (e refl)
  old-opens [] (c ∷ enc) iv b h e e' full = absurd (e' refl)
  old-opens (d ∷ enc') (c ∷ enc) iv b h e e' full = aes_decrypt-aes_encrypt (c ∷ enc) iv b h full

  -- After the keys are rotated, a value that is not empty and was signed and encrypted by the keys that
  -- are the old ones now is given back until it expires, unless the new key happens to sign it the same.
  pub decode-rotated :
      (m m' : Manager) (iv : Text) (t now : ℕ) (b v : Text)
      → m'.name ≡ m.name
      → m'.max_cookie_size ≡ m.max_cookie_size
      → m'.old_key ≡ m.key
      → m.key.sign ≢ []
      → m'.key.sign ≢ []
      → m.key.enc ≢ []
      → m'.key.enc ≢ []
      → prim.mac m.key.sign
          (signed_text prim m.name (prim.decimal t) (prim.base64 (aes_encrypt prim m.key.enc iv b)))
        ≢ prim.mac m'.key.sign (
            signed_text prim m.name
              (prim.decimal t)
              (prim.base64 (aes_encrypt prim m.key.enc iv b)))
      → length iv ≡ prim.block_size
      → b ≢ []
      → InTime m'.max_age t now
      → encode prim m iv t b ≡ ok v
      → decode prim m' now v ≡ ok b
  decode-rotated m m' iv t now b v n size k s s' e e' differ len full time h =
      let date = prim.decimal t in
      let x = sealed m.key.enc iv b in
      let differ' =
        subst
          (λ y.
            prim.mac m.key.sign (signed_text prim m.name date (prim.base64 y))
            ≢ prim.mac m'.key.sign (signed_text prim m.name date (prim.base64 y)))
          (sym (sealed-eq m.key.enc iv b e)) differ in
      decode-parts m m' iv t now b v size h
      ∙ parts-decode m' t now x (tail m date (prim.base64 x)) true time
          (verified-rotated m m' date (prim.base64 x) n k s s' differ')
      ∙ rw k (old-opens m'.key.enc m.key.enc iv b len e e' full)
