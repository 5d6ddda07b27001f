-- ===== src/Session/RoundTrip.antt =====
-- The session of the next request, after `SaveSession` of security/session/manager.go.
use mathlib.Core.Path.{subst}
use aah.Prelude.{
  ℕ, ◌≡◌, ◌≢◌, refl, sym, ap, ◌∙◌, ◌⊎◌, inl, inr, Bool, true, false, [], ◌∷◌, ◌++◌, none, some,
  if◌then◌else◌, Bool-cases, ltb, length,
}
use aah.Prelude.Integers.{pos}
use aah.Text.{Text, is_str_empty, is_nil}
use aah.Cookie.{Primitives, Coded, ok, err, encode, decode, envelope, pipe, aes_encrypt}
use aah.Cookie.Laws.{Lawful, InTime}
use aah.Cookie.RoundTrip.{decode-encode}
use aah.Session.{Session}
use aah.Session.Manager.{
  Storer, LawfulStorer, Gob, Manager, Moment, Result, SessionError, got, failed, coded, decoded_by,
  value, deleted, Response, is_cookie_store, is_cleared, encode_session, encode_id,
  decode_to_string, decode_to_session, delete_session, save_session, failure, write_cookie,
  store_error, save_in_store, restore, get_session,
}

Result-cases :
    {A : Type 0} (x : Result A) → ((e : SessionError) × (x ≡ failed e)) ⊎ ((a : A) × (x ≡ got a))
Result-cases (got a) = inr (a, refl)
Result-cases (failed e) = inl (e, refl)

coded-got : (c : Coded) (v : Text) → coded c ≡ got v → c ≡ ok v
coded-got (ok w) v h = cc h
coded-got (err e) v h = cc h

-- what gob reads of a session: all but the age, which is not exported
abbrev pub as_stored : Session → Session
as_stored s = record s { max_age = pos 0 }

-- gob writes the session and its id, and reads them back
pub record Readable (gob : Gob) (s : Session) : Type 0 where
  pub bytes : Text
  pub written : gob.session_bytes s ≡ some bytes
  pub read : gob.session_of bytes ≡ some (as_stored s)
  pub full : bytes ≢ []
  pub id_text : Text
  pub id_written : gob.id_bytes s.id ≡ some id_text
  pub id_read : gob.id_of id_text ≡ some s.id
  pub id_full : id_text ≢ []

-- base64 writes no blank text for one that is not empty
abbrev pub Visible : Primitives → Type 0
Visible prim = (b : Text) → b ≢ [] → is_str_empty (prim.base64 b) ≡ false

encode-Visible :
    (prim : Primitives) (m : aah.Cookie.Manager) (iv : Text) (t : ℕ) (b v : Text)
    → Visible prim
    → encode prim m iv t b ≡ ok v
    → is_str_empty v ≡ false
unfolding encode
encode-Visible prim m iv t b v law h =
    let x = prim.base64 (if is_nil m.key.enc then b else aes_encrypt prim m.key.enc iv b) in
    let coded = prim.base64 (envelope prim m (prim.decimal t) x) in
    elim (Bool-cases (ltb m.max_cookie_size (length coded))) [
      | inl e ↦ cc (rw e at h)
      | inr e ↦
          let same : coded ≡ v = ok_inj coded v (rw e at h) in
          rw (sym same) (law (envelope prim m (prim.decimal t) x) (not_empty (prim.decimal t) _))
    ]
  where
    ok_inj : (x y : Text) → ok x ≡ ok y → x ≡ y
    ok_inj x y h = cc

    not_empty : (d s : Text) → d ++ pipe ∷ s ≢ []
    not_empty [] s h = cc h
    not_empty (c ∷ d) s h = cc h

module _ (prim : Primitives) (laws : Lawful prim) (gob : Gob) (m : Manager) (now : ℕ) (at : Moment)
    (size : length at.iv ≡ prim.block_size) (time : InTime m.cookie_mgr.max_age at.now now) where
  session-decoded :
      (s : Session) (v : Text)
      → Readable gob s
      → encode_session prim gob m at s ≡ got v
      → decode_to_session prim gob m now v ≡ got (as_stored s)
  unfolding encode_session decode_to_session
  session-decoded s v g h =
      let e =
        coded-got (encode prim m.cookie_mgr at.iv at.now g.bytes) v
          (rw (encode_session, g.written) at h) in
      ap (decoded_by gob.session_of)
        (decode-encode prim laws m.cookie_mgr at.iv at.now now g.bytes v size (inr g.full) time e)
      ∙ rw (decoded_by, g.read) refl

  id-decoded :
      (s : Session) (v : Text)
      → Readable gob s
      → encode_id prim gob m at s.id ≡ got v
      → decode_to_string prim gob m now v ≡ got s.id
  unfolding encode_id decode_to_string
  id-decoded s v g h =
      let e =
        coded-got (encode prim m.cookie_mgr at.iv at.now g.id_text) v
          (rw (encode_id, g.id_written) at h) in
      ap (decoded_by gob.id_of) (
        decode-encode prim laws m.cookie_mgr at.iv at.now now g.id_text v size (inr g.id_full) time
          e)
      ∙ rw (decoded_by, g.id_read) refl

  session-Visible :
      (s : Session) (v : Text)
      → Visible prim
      → Readable gob s
      → encode_session prim gob m at s ≡ got v
      → is_str_empty v ≡ false
  unfolding encode_session
  session-Visible s v law g h = encode-Visible prim m.cookie_mgr at.iv at.now g.bytes v law (
      coded-got (encode prim m.cookie_mgr at.iv at.now g.bytes) v
        (rw (encode_session, g.written) at h))

module _ (prim : Primitives) (laws : Lawful prim) (law : Visible prim) (gob : Gob) {S : Type 0}
    (st : Storer S) (stores : LawfulStorer S st) (m : Manager) (now : ℕ) where
  -- what `get_session` makes of a text that holds the session
  restored :
      (store : S) (cookie v : Text) (s : Session)
      → is_str_empty v ≡ false
      → decode_to_session prim gob m now v ≡ got (as_stored s)
      → restore prim gob st m now store cookie v
        ≡ (store, some (record s { is_new = false; max_age = pos 0 }))
  unfolding restore
  restored store cookie v s e d = rw (restore, e, d) refl

  -- the next request brings the cookie of this one
  abbrev pub Kept : Response S → Session → Type 0
  Kept r s =
      (v : Text) × (r.cookie ≡ some (value v))
      × (get_session prim gob st m now r.store (some v)
          ≡ (r.store, some (record s { is_new = false; max_age = pos 0 })))

  in_cookie :
      (first second : Moment) (store : S) (s : Session) (r : Response S)
      → is_cookie_store m ≡ true
      → is_cleared s.max_age ≡ false
      → Readable gob s
      → length first.iv ≡ prim.block_size
      → InTime m.cookie_mgr.max_age first.now now
      → save_session prim gob st m first second store s ≡ r
      → r.error ≡ none
      → Kept r s
  unfolding save_session get_session
  in_cookie first second store s r k c g size time h no_error =
      elim (Result-cases (encode_session prim gob m first s)) [
        | inl (e, f) ↦
            let h' : failure store e ≡ r = rw (save_session, c, k, f) at h in
            absurd (cc (ap (λ (x : Response S). x.error) h', no_error))
        | inr (v, f) ↦
            let h' : write_cookie store v ≡ r = rw (save_session, c, k, f) at h in
            subst (λ x. Kept x s) h'
              (
                v,
                refl,
                rw (get_session, k)
                    (restored store v v s
                      (session-Visible prim laws gob m now first size time s v law g f)
                      (session-decoded prim laws gob m now first size time s v g f)),
              )
      ]

  in_store :
      (first second : Moment) (store : S) (s : Session) (r : Response S)
      → is_cookie_store m ≡ false
      → is_cleared s.max_age ≡ false
      → Readable gob s
      → length first.iv ≡ prim.block_size
      → length second.iv ≡ prim.block_size
      → InTime m.cookie_mgr.max_age first.now now
      → InTime m.cookie_mgr.max_age second.now now
      → save_session prim gob st m first second store s ≡ r
      → r.error ≡ none
      → Kept r s
  unfolding save_session get_session
  in_store first second store s r k c g size size' time time' h no_error =
      elim (Result-cases (encode_id prim gob m first s.id)) [
        | inl (e, f) ↦
            let h' : failure store e ≡ r = rw (save_session, c, k, f) at h in
            absurd (cc (ap (λ (x : Response S). x.error) h', no_error))
        | inr (v, f) ↦ elim (Result-cases (encode_session prim gob m second s)) [
          | inl (e, f') ↦
              let h' : failure store e ≡ r = rw (save_session, c, k, f, save_in_store, f') at h in
              absurd (cc (ap (λ (x : Response S). x.error) h', no_error))
          | inr (w, f') ↦
              stored v w f f' (st.save store s.id w) refl
                (rw (save_session, c, k, f, save_in_store, f') at h)
        ]
      ]
    where
      stored :
          (v w : Text)
          → encode_id prim gob m first s.id ≡ got v
          → encode_session prim gob m second s ≡ got w
          → (x : S × Bool) → st.save store s.id w ≡ x
          → (if (st.save store s.id w).1
              then failure (st.save store s.id w).0 store_error
              else write_cookie (st.save store s.id w).0 v)
            ≡ r
          → Kept r s
      stored v w f f' (store', true) e h' =
          let h'' : failure store' store_error ≡ r = rw e at h' in
          absurd (cc (ap (λ (x : Response S). x.error) h'', no_error))
      stored v w f f' (store', false) e h' =
          let h'' : write_cookie store' v ≡ r = rw e at h' in
          subst (λ x. Kept x s) h''
            (
              v,
              refl,
              rw
                  (
                    get_session,
                    k,
                    id-decoded prim laws gob m now first size time s v g f,
                    stores.read-save store store' s.id w e,
                  )
                  (restored store' v w s
                    (session-Visible prim laws gob m now second size' time' s w law g f')
                    (session-decoded prim laws gob m now second size' time' s w g f')),
            )

  -- A session that is not cleared and was saved without an error is the session of the next request, if
  -- that comes while the cookie and the stored text are valid: with all its values and its id, no
  -- longer new. It is so for the cookie store and for any store that keeps its laws, with gob reading
  -- back what it writes.
  pub get_session-save_session :
      (first second : Moment) (store : S) (s : Session) (r : Response S)
      → is_cleared s.max_age ≡ false
      → Readable gob s
      → length first.iv ≡ prim.block_size
      → length second.iv ≡ prim.block_size
      → InTime m.cookie_mgr.max_age first.now now
      → InTime m.cookie_mgr.max_age second.now now
      → save_session prim gob st m first second store s ≡ r
      → r.error ≡ none
      → Kept r s
  get_session-save_session first second store s r c g size size' time time' h no_error =
      elim (Bool-cases (is_cookie_store m)) [
        | inl k ↦ in_cookie first second store s r k c g size time h no_error
        | inr k ↦ in_store first second store s r k c g size size' time time' h no_error
      ]

  -- A cleared session whose store deletes it is gone: the response deletes the cookie, and a cookie that
  -- still holds the session's id gives no session, at any time.
  pub get_session-cleared :
      (first second : Moment) (store store' : S) (s : Session) (v : Text)
      → is_cookie_store m ≡ false
      → is_cleared s.max_age ≡ true
      → st.delete store s.id ≡ (store', false)
      → decode_to_string prim gob m now v ≡ got s.id
      → (save_session prim gob st m first second store s
          ≡ record { store = store'; cookie = some deleted; error = none })
        × (get_session prim gob st m now store' (some v) ≡ (store', none))
  unfolding save_session delete_session get_session restore is_str_empty
  get_session-cleared first second store store' s v k c d e = (
    rw (save_session, c, delete_session, k, d) refl,
    rw (get_session, k, e, stores.read-delete store store' s.id d) refl,
  )
