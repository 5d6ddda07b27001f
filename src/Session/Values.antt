-- ===== src/Session/Values.antt =====
-- The values and the flash messages of a session of security/session/session.go.
use aah.Prelude.{
  ◌≡◌, refl, sym, ◌∙◌, ap, inl, inr, false, List, [], ◌∷◌, ◌++◌, none, some, if◌then◌else◌, arith,
  Bool-cases, Option-cases,
}
use aah.Text.{Text, text_eq}
use aah.Text.Equality.{text_eq_refl, text_eq_iff, same_key, other_key}
use aah.Session.{
  Session, Value, nil, lookup_value, put_value, delete_value, get, set, del, is_key_exists,
  is_nil_value, get_flash, set_flash, flash_key_prefix,
}

lookup_value-put_value :
    (vs : List (Text × Value)) (key key' : Text) (v : Value)
    → lookup_value (put_value vs key v) key'
      ≡ (if text_eq key key' then some v else lookup_value vs key')
lookup_value-put_value [] key key' v = refl
lookup_value-put_value ((k, w) ∷ vs) key key' v = elim (Bool-cases (text_eq k key)) [
  | inl e ↦ rw (e, same_key k key key' e) (ground arith)
  | inr e ↦ elim (Bool-cases (text_eq k key')) [
    | inl f ↦ rw (e, f, other_key k key key' e f) refl
    | inr f ↦ rw (e, f, lookup_value-put_value vs key key' v) refl
  ]
]

lookup_value-delete_value :
    (vs : List (Text × Value)) (key key' : Text)
    → lookup_value (delete_value vs key) key'
      ≡ (if text_eq key key' then none else lookup_value vs key')
lookup_value-delete_value [] key key' = ground arith
lookup_value-delete_value ((k, w) ∷ vs) key key' = elim (Bool-cases (text_eq k key)) [
  | inl e ↦ rw (e, lookup_value-delete_value vs key key', same_key k key key' e) (ground arith)
  | inr e ↦ elim (Bool-cases (text_eq k key')) [
    | inl f ↦ rw (e, f, other_key k key key' e f) refl
    | inr f ↦ rw (e, f, lookup_value-delete_value vs key key') refl
  ]
]

pub get-set :
    (s : Session) (key key' : Text) (v : Value)
    → get (set s key v) key' ≡ (if text_eq key key' then v else get s key')
unfolding get set
get-set s key key' v = rw (get, lookup_value-put_value s.values key key' v) (ground arith)

absent-del : (s : Session) (key : Text) → lookup_value s.values key ≡ none → del s key ≡ s
unfolding del is_key_exists
absent-del s key e = rw (del, is_key_exists, e) refl

present-del :
    (s : Session) (key : Text) (v : Value)
    → lookup_value s.values key ≡ some v
    → del s key ≡ record s { values = delete_value s.values key }
unfolding del is_key_exists
present-del s key v e = rw (del, is_key_exists, e) refl

absent-get : (s : Session) (key : Text) → lookup_value s.values key ≡ none → get s key ≡ nil
unfolding get
absent-get s key e = rw (get, e) refl

get-delete_value :
    (s : Session) (key key' : Text)
    → get (record s { values = delete_value s.values key }) key'
      ≡ (if text_eq key key' then nil else get s key')
unfolding get
get-delete_value s key key' = rw (get, lookup_value-delete_value s.values key key') (ground arith)

pub get-del :
    (s : Session) (key key' : Text)
    → get (del s key) key' ≡ (if text_eq key key' then nil else get s key')
get-del s key key' = elim (Option-cases (lookup_value s.values key)) [
  | inl e ↦ ap (λ (x : Session). get x key') (absent-del s key e) ∙ unchanged e
  | inr (v, e) ↦
      ap (λ (x : Session). get x key') (present-del s key v e) ∙ get-delete_value s key key'
]
  where
    unchanged :
        lookup_value s.values key ≡ none
        → get s key' ≡ (if text_eq key key' then nil else get s key')
    unchanged e = elim (Bool-cases (text_eq key key')) [
      | inl f ↦ rw f (ap (get s) (sym ((text_eq_iff key key').0 f)) ∙ absent-get s key e)
      | inr f ↦ rw f refl
    ]

found_flash :
    (s : Session) (key : Text) (v : Value)
    → get s (flash_key_prefix ++ key) ≡ v
    → is_nil_value v ≡ false
    → get_flash s key ≡ (v, del s (flash_key_prefix ++ key))
unfolding get_flash
found_flash s key v e h = rw (e, h) refl

no_flash :
    (s : Session) (key : Text) → get s (flash_key_prefix ++ key) ≡ nil → get_flash s key ≡ (nil, s)
unfolding get_flash
no_flash s key e = rw e refl

-- A flash message that was set, and is not nil, is what `GetFlash` returns; it leaves the session as it
-- was but for the message, which is gone for the next `GetFlash`.
pub get_flash-set_flash :
    (s : Session) (key : Text) (v : Value)
    → is_nil_value v ≡ false
    → ((get_flash (set_flash s key v) key).0 ≡ v)
      × ((get_flash (get_flash (set_flash s key v) key).1 key).0 ≡ nil)
      × ((key' : Text)
          → get (get_flash (set_flash s key v) key).1 key'
            ≡ (if text_eq (flash_key_prefix ++ key) key' then nil else get s key'))
unfolding set_flash
get_flash-set_flash s key v h =
    let k = flash_key_prefix ++ key in
    let s1 = set s k v in
    let first : get_flash s1 key ≡ (v, del s1 k) =
      found_flash s1 key v (get-set s k k v ∙ rw (text_eq_refl k) refl) h in
    let second : get_flash (del s1 k) key ≡ (nil, del s1 k) =
      no_flash (del s1 k) key (get-del s1 k k ∙ rw (text_eq_refl k) refl) in
    (
      ap (λ (x : Value × Session). x.0) first,
      ap (λ (x : Value × Session). (get_flash (x.1) key).0) first
          ∙ ap (λ (x : Value × Session). x.0) second,
      λ key'.
          ap (λ (x : Value × Session). get (x.1) key') first
          ∙ get-del s1 k key'
          ∙ rw (get-set s k key' v) (ground arith),
    )
