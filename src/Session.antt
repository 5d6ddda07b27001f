-- ===== src/Session.antt =====
-- security/session/session.go: the session of a request, with typed values and flash messages. A
-- value is one of Go's types that the getters know, or some other; `nil` is Go's nil. The map of
-- values is the list of its entries.
pub mod Manager
pub mod Values
pub mod RoundTrip
pub mod FileStore
mod Tests
use aah.Prelude.{ℕ, zero, Bool, true, false, List, [], ◌∷◌, ◌++◌, Option, none, some, if◌then◌else◌}
use aah.Prelude.Outcome.{Outcome, returns, panics}
use aah.Prelude.Integers.{ℤ, pos, negsuc}
use aah.Text.{Text, codes, text_eq}

-- floats are left to `other`
pub data Value : Type 0 where
  nil : Value
  boolean : Bool → Value
  int int64 : ℤ → Value
  string : Text → Value
  other : ℕ → Value

pub record Session : Type 0 where
  pub id : Text
  pub values : List (Text × Value)
  pub is_new : Bool
  pub is_authenticated : Bool
  pub created_time : Option ℕ
  pub max_age : ℤ

abbrev pub flash_key_prefix : Text
flash_key_prefix = codes "_flash_"

abbrev pub lookup_value : List (Text × Value) → Text → Option Value
lookup_value [] key = none
lookup_value ((k, v) ∷ vs) key = if text_eq k key then some v else lookup_value vs key

-- `s.Values[key] = value`
abbrev pub put_value : List (Text × Value) → Text → Value → List (Text × Value)
put_value [] key value = (key, value) ∷ []
put_value ((k, v) ∷ vs) key value =
    if text_eq k key then (k, value) ∷ vs else (k, v) ∷ put_value vs key value

-- `delete(s.Values, key)`
abbrev pub delete_value : List (Text × Value) → Text → List (Text × Value)
delete_value [] key = []
delete_value ((k, v) ∷ vs) key =
    let rest = delete_value vs key in if text_eq k key then rest else (k, v) ∷ rest

unfoldable pub get : Session → Text → Value
get s key = elim (lookup_value s.values key) [ none ↦ nil | some v ↦ v ]

unfoldable pub set : Session → Text → Value → Session
set s key value = record s { values = put_value s.values key value }

unfoldable pub is_key_exists : Session → Text → Bool
is_key_exists s key = elim (lookup_value s.values key) [ none ↦ false | some _ ↦ true ]

unfoldable pub del : Session → Text → Session
unfolding is_key_exists
del s key = if is_key_exists s key then record s { values = delete_value s.values key } else s

unfoldable pub clear : Session → Session
clear s = record s { max_age = negsuc 0 }

abbrev pub is_nil_value : Value → Bool
is_nil_value nil = true
is_nil_value _ = false

-- the message and the session without it
unfoldable pub get_flash : Session → Text → Value × Session
unfolding get del
get_flash s key =
    let v = get s (flash_key_prefix ++ key) in
    if is_nil_value v then (v, s) else (v, del s (flash_key_prefix ++ key))

unfoldable pub set_flash : Session → Text → Value → Session
unfolding set
set_flash s key value = set s (flash_key_prefix ++ key) value

-- a value of another type makes a type assertion panic
unfoldable pub get_bool : Session → Text → Outcome Bool
unfolding get
get_bool s key = elim (get s key) [ nil ↦ returns false | boolean b ↦ returns b | _ ↦ panics ]

unfoldable pub get_int : Session → Text → Outcome ℤ
unfolding get
get_int s key = elim (get s key) [ nil ↦ returns (pos 0) | int n ↦ returns n | _ ↦ panics ]

unfoldable pub get_int64 : Session → Text → Outcome ℤ
unfolding get
get_int64 s key = elim (get s key) [ nil ↦ returns (pos 0) | int64 n ↦ returns n | _ ↦ panics ]

unfoldable pub get_string : Session → Text → Outcome Text
unfolding get
get_string s key = elim (get s key) [ nil ↦ returns [] | string t ↦ returns t | _ ↦ panics ]

-- Reset
unfoldable pub reset : Session → Session
reset s = record {
  id = [];
  values = [];
  is_new = false;
  is_authenticated = false;
  created_time = none;
  max_age = pos 0;
}
