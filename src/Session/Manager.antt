-- ===== src/Session/Manager.antt =====
-- security/session/manager.go: how the session of a request is read and written, from a cookie alone
-- or from a store whose key is in the cookie. The store is an interface, whose laws a store's own
-- theorems fill. Gob is the parameter `Gob`; random bytes and times are arguments; log lines are
-- left out.
use aah.Prelude.{ℕ, zero, ◌≡◌, Bool, true, false, not, [], Option, none, some, if◌then◌else◌}
use aah.Prelude.Integers.{ℤ, negsuc}
use aah.Text.{Text, codes, text_eq, is_str_empty, has_prefix}
use aah.Cookie.{Primitives, Coded, ok, err, CookieError, timestamp_is_expired, encode, decode}
use aah.Session.{Session}

-- `true` is an error
pub record Storer (S : Type 0) : Type 0 where
  pub read : S → Text → Text
  pub save : S → Text → Text → S × Bool
  pub delete : S → Text → S × Bool
  pub is_exists : S → Text → Bool

pub record LawfulStorer (S : Type 0) (st : Storer S) : Type 0 where
  pub read-save : (s s' : S) (id v : Text) → st.save s id v ≡ (s', false) → st.read s' id ≡ v
  pub read-delete : (s s' : S) (id : Text) → st.delete s id ≡ (s', false) → st.read s' id ≡ []

-- `none` is an error of the encoder or the decoder
pub record Gob : Type 0 where
  pub session_bytes : Session → Option Text
  pub session_of : Text → Option Session
  pub id_bytes : Text → Option Text
  pub id_of : Text → Option Text

pub data SessionError : Type 0 where
  gob_error store_error : SessionError
  cookie_error : CookieError → SessionError

pub data Result (A : Type 0) : Type 0 where
  got : A → Result A
  failed : SessionError → Result A

pub record Manager : Type 0 where
  pub mode : Text
  pub store_name : Text
  pub path : Text
  pub cookie_mgr : aah.Cookie.Manager

unfoldable pub is_stateful : Manager → Bool
is_stateful m = text_eq m.mode (codes "stateful")

unfoldable pub is_cookie_store : Manager → Bool
is_cookie_store m = text_eq m.store_name (codes "cookie")

-- IsPath
unfoldable pub is_path : Manager → Text → Bool
is_path m p = has_prefix p m.path

-- `pooled` is the session that the pool hands out
unfoldable pub new_session : Session → Text → ℕ → Session
new_session pooled random_id now = record pooled {
  id = random_id;
  is_new = true;
  created_time = some now;
}

abbrev pub coded : Coded → Result Text
coded (ok v) = got v
coded (err e) = failed (cookie_error e)

abbrev pub decoded_by : {A : Type 0} → (Text → Option A) → Coded → Result A
decoded_by of (err e) = failed (cookie_error e)
decoded_by of (ok b) = elim (of b) [ none ↦ failed gob_error | some a ↦ got a ]

-- the cookie that a response sets: a value, or an empty one that is expired
pub data CookieWrite : Type 0 where
  value : Text → CookieWrite
  deleted : CookieWrite

-- the random bytes and the time of one call of `Encode`
pub record Moment : Type 0 where
  pub iv : Text
  pub now : ℕ

pub record Response (S : Type 0) : Type 0 where
  pub store : S
  pub cookie : Option CookieWrite
  pub error : Option SessionError

abbrev pub write_cookie : {S : Type 0} → S → Text → Response S
write_cookie store v = record { store = store; cookie = some (value v); error = none }

abbrev pub failure : {S : Type 0} → S → SessionError → Response S
failure store e = record { store = store; cookie = none; error = some e }

-- `maxAge == -1`
abbrev pub is_cleared : ℤ → Bool
is_cleared (negsuc zero) = true
is_cleared _ = false

module _ (prim : Primitives) (gob : Gob) where
  -- Encode on a session and on an id
  unfoldable pub encode_session : Manager → Moment → Session → Result Text
  encode_session m at s = elim (gob.session_bytes s) [
    | none ↦ failed gob_error
    | some b ↦ coded (encode prim m.cookie_mgr at.iv at.now b)
  ]

  unfoldable pub encode_id : Manager → Moment → Text → Result Text
  encode_id m at id = elim (gob.id_bytes id) [
    | none ↦ failed gob_error
    | some b ↦ coded (encode prim m.cookie_mgr at.iv at.now b)
  ]

  unfoldable pub decode_to_string : Manager → ℕ → Text → Result Text
  decode_to_string m now encoded = decoded_by gob.id_of (decode prim m.cookie_mgr now encoded)

  unfoldable pub decode_to_session : Manager → ℕ → Text → Result Session
  decode_to_session m now encoded = decoded_by gob.session_of (decode prim m.cookie_mgr now encoded)

  module _ {S : Type 0} (st : Storer S) where
    unfoldable pub delete_session : Manager → S → Session → Response S
    delete_session m store s =
        if not (is_cookie_store m)
        then record { store = (st.delete store s.id).0; cookie = some deleted; error = none }
        else record { store = store; cookie = some deleted; error = none }

    -- the session is sent to the store, and its id to the browser
    abbrev pub save_in_store : Manager → Moment → S → Session → Text → Response S
    save_in_store m at store s id_value = elim (encode_session m at s) [
      | failed e ↦ failure store e
      | got v ↦
          let (store', wrong) = st.save store s.id v in
          if wrong then failure store' store_error else write_cookie store' id_value
    ]

    -- `first` is the moment of the first call of `Encode`, and `second` that of the second
    unfoldable pub save_session : Manager → Moment → Moment → S → Session → Response S
    unfolding delete_session encode_session encode_id is_cookie_store
    save_session m first second store s =
        if is_cleared s.max_age
        then delete_session m store s
        else if is_cookie_store m
        then elim (encode_session m first s) [
          | failed e ↦ failure store e
          | got v ↦ write_cookie store v
        ]
        else elim (encode_id m first s.id) [
          | failed e ↦ failure store e
          | got v ↦ save_in_store m second store s v
        ]

    -- an expired session is deleted from the store
    unfoldable pub clean_expired : Manager → ℕ → S → Text → SessionError → S
    unfolding is_cookie_store decode_to_string
    clean_expired m now store cookie (cookie_error timestamp_is_expired) =
        if not (is_cookie_store m)
        then elim (decode_to_string m now cookie) [
          | failed _ ↦ store
          | got id ↦ (st.delete store id).0
        ]
        else store
    clean_expired m now store cookie _ = store

    -- from the encoded session on
    unfoldable pub restore : Manager → ℕ → S → Text → Text → S × Option Session
    unfolding clean_expired decode_to_session
    restore m now store cookie encoded =
        if is_str_empty encoded then (store, none) else elim (decode_to_session m now encoded) [
          | failed e ↦ (clean_expired m now store cookie e, none)
          | got s ↦ (store, some (record s { is_new = false }))
        ]

    -- the argument is the value of the request's cookie
    unfoldable pub get_session : Manager → ℕ → S → Option Text → S × Option Session
    unfolding restore is_cookie_store decode_to_string
    get_session m now store none = (store, none)
    get_session m now store (some cookie) =
        if not (is_cookie_store m)
        then elim (decode_to_string m now cookie) [
          | failed _ ↦ (store, none)
          | got id ↦ restore m now store cookie (st.read store id)
        ]
        else restore m now store cookie cookie
