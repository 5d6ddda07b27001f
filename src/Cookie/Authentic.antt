-- ===== src/Cookie/Authentic.antt =====
-- What `Decode` has established of a value that it returns.
use mathlib.Core.Path.{subst}
use aah.Prelude.{
  ℕ, zero, suc, ◌+◌, ◌≤◌, arith, some_inj, ◌≡◌, ◌≢◌, refl, inl, inr, Bool, true, false, not, ◌&&◌,
  [], ◌∷◌, Option, none, some, if◌then◌else◌, Bool-cases, Option-cases, ltb, length,
}
use aah.Prelude.Integers.{ℤ, pos, negsuc}
use aah.Text.{Text, text_eq, is_nil}
use aah.Text.Equality.{text_eq_iff}
use aah.Cookie.{
  Primitives, Manager, ok, split_parts, too_new, expired, verify, signed_text, verified_by_old,
  check_time, check_parts, open_value, decode,
}

module _ (prim : Primitives) where
  -- The key to sign made the signature or, where it did not and there is an old one, the old key did.
  abbrev pub Signed : Manager → Bool → Text → Text → Type 0
  Signed m false text mac = mac ≡ prim.mac m.key.sign text
  Signed m true text mac =
      (mac ≢ prim.mac m.key.sign text)
      × (m.old_key.sign ≢ [])
      × (mac ≡ prim.mac m.old_key.sign text)

  verified-Signed :
      (m : Manager) (text mac : Text) (by_old : Bool)
      → m.key.sign ≢ []
      → verified_by_old prim m text mac ≡ some by_old
      → Signed m by_old text mac
  unfolding verified_by_old verify
  verified-Signed m text mac by_old s h =
      go (text_eq mac (prim.mac m.key.sign text)) (text_eq mac (prim.mac m.old_key.sign text))
        (is_nil m.old_key.sign) refl refl refl
        (rw (verified_by_old, verify, not_nil m.key.sign s) at h)
    where
      not_nil : (x : Text) → x ≢ [] → is_nil x ≡ false
      not_nil [] k = absurd (k refl)
      not_nil (c ∷ x) k = refl

      some_key : (x : Text) → is_nil x ≡ false → x ≢ []
      some_key [] k e = cc k
      some_key (c ∷ x) k e = cc e

      go :
          (b c o : Bool)
          → text_eq mac (prim.mac m.key.sign text) ≡ b
          → text_eq mac (prim.mac m.old_key.sign text) ≡ c
          → is_nil m.old_key.sign ≡ o
          → (if text_eq mac (prim.mac m.key.sign text)
              then some false
              else if not (is_nil m.old_key.sign) && text_eq mac (prim.mac m.old_key.sign text)
              then some true
              else none)
            ≡ some by_old
          → Signed m by_old text mac
      go true c o e f g k =
          subst (λ x. Signed m x text mac) (some_inj (rw e at k))
            ((text_eq_iff mac (prim.mac m.key.sign text)).0 e)
      go false true false e f g k =
          subst (λ x. Signed m x text mac) (some_inj (rw (e, f, g) at k))
            (
              λ same. cc (e, (text_eq_iff mac (prim.mac m.key.sign text)).1 same),
              some_key m.old_key.sign g,
              (text_eq_iff mac (prim.mac m.old_key.sign text)).0 f,
            )
      go false true true e f g k = absurd (cc (rw (e, f, g) at k))
      go false false true e f g k = absurd (cc (rw (e, f, g) at k))
      go false false false e f g k = absurd (cc (rw (e, f, g) at k))

  -- a time that is not after `now`
  abbrev pub NotAfter : ℤ → ℕ → Type 0
  NotAfter (pos n) now = n ≤ now
  NotAfter (negsuc n) now = Unit

  -- `now` is at most `max_age` after the time, where the age is not 0
  abbrev pub WithinAge : ℤ → ℕ → ℤ → Type 0
  WithinAge t now (pos zero) = Unit
  WithinAge (pos n) now (pos (suc age)) = now ≤ n + suc age
  WithinAge (negsuc n) now (pos (suc age)) = now + suc n ≤ suc age
  WithinAge (pos n) now (negsuc age) = now + suc age ≤ n
  WithinAge (negsuc n) now (negsuc age) = ⊥

  too_new-NotAfter : (t : ℤ) (now : ℕ) → too_new t now ≡ false → NotAfter t now
  unfolding too_new
  too_new-NotAfter (pos n) now h = ground arith
  too_new-NotAfter (negsuc n) now h = tt

  expired-WithinAge : (t : ℤ) (now : ℕ) (age : ℤ) → expired t now age ≡ false → WithinAge t now age
  unfolding expired
  expired-WithinAge t now (pos zero) h = tt
  expired-WithinAge (pos n) now (pos (suc age)) h = ground arith
  expired-WithinAge (negsuc n) now (pos (suc age)) h = ground arith
  expired-WithinAge (pos n) now (negsuc age) h = ground arith
  expired-WithinAge (negsuc n) now (negsuc age) h = cc h

  -- what `decode` has established of the parts of a value
  pub record Accepted (m : Manager) (now : ℕ) (value b : Text) : Type 0 where
    pub raw : Text
    pub date : Text
    pub body : Text
    pub mac : Text
    pub time : ℤ
    pub by_old : Bool
    pub unbase64-raw : prim.unbase64 value ≡ some raw
    pub parts : split_parts raw ≡ some (date, body, mac)
    pub signed : Signed m by_old (signed_text prim m.name date body) mac
    pub parsed : prim.parse_int date ≡ some time
    pub not_new : NotAfter time now
    pub not_expired : WithinAge time now m.max_age
    pub opened : open_value prim m by_old body ≡ ok b

  check_time-ok :
      (m : Manager) (now : ℕ) (by_old : Bool) (date body b : Text)
      → check_time prim m now by_old date body ≡ ok b
      → (t : ℤ) × (prim.parse_int date ≡ some t)
        × (too_new t now ≡ false)
        × (expired t now m.max_age ≡ false)
        × (open_value prim m by_old body ≡ ok b)
  unfolding check_time
  check_time-ok m now by_old date body b h = elim (Option-cases (prim.parse_int date)) [
    | inl p ↦ cc (rw (check_time, p) at h)
    | inr (t, p) ↦ elim (Bool-cases (too_new t now)) [
      | inl n ↦ cc (rw (check_time, p, n) at h)
      | inr n ↦ elim (Bool-cases (expired t now m.max_age)) [
        | inl x ↦ cc (rw (check_time, p, n, x) at h)
        | inr x ↦ (t, p, n, x, (rw (check_time, p, n, x) at h))
      ]
    ]
  ]

  check_parts-ok :
      (m : Manager) (now : ℕ) (b raw value : Text) (o : Option (Text × Text × Text))
      → m.key.sign ≢ []
      → prim.unbase64 value ≡ some raw
      → split_parts raw ≡ o
      → check_parts prim m now o ≡ ok b
      → Accepted m now value b
  unfolding check_parts
  check_parts-ok m now b raw value none s u p h = cc
  check_parts-ok m now b raw value (some (date, body, mac)) s u p h =
      elim (Option-cases (verified_by_old prim m (signed_text prim m.name date body) mac)) [
        | inl v ↦ cc (rw (check_parts, v) at h)
        | inr (by_old, v) ↦
            let (t, q, n, x, opens) =
              check_time-ok m now by_old date body b (rw (check_parts, v) at h) in
            record {
              raw = raw;
              date = date;
              body = body;
              mac = mac;
              time = t;
              by_old = by_old;
              unbase64-raw = u;
              parts = p;
              signed = verified-Signed m (signed_text prim m.name date body) mac by_old s v;
              parsed = q;
              not_new = too_new-NotAfter t now n;
              not_expired = expired-WithinAge t now m.max_age x;
              opened = opens;
            }
      ]

  -- Where there is a key to sign, `Decode` returns a value only if it is three parts in base64, the
  -- last of which is the signature of the name and the other two by that key or, where it is not and
  -- there is an old key to sign, by the old one. The time is not after now, and now is at most the maximum
  -- age, where it is not 0, after the time. The value is the second part, opened with the key to
  -- encrypt that goes with the one that signed.
  pub decode-Accepted :
      (m : Manager) (now : ℕ) (value b : Text)
      → m.key.sign ≢ []
      → decode prim m now value ≡ ok b
      → Accepted m now value b
  unfolding decode
  decode-Accepted m now value b s h = elim (Bool-cases (ltb m.max_cookie_size (length value))) [
    | inl e ↦ cc (rw (decode, e) at h)
    | inr e ↦ elim (Option-cases (prim.unbase64 value)) [
      | inl u ↦ cc (rw (decode, e, u) at h)
      | inr (raw, u) ↦
          check_parts-ok m now b raw value (split_parts raw) s u refl (rw (decode, e, u) at h)
    ]
  ]
