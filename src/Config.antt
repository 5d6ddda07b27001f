-- ===== src/Config.antt =====
-- config/config.go: the values of a configuration by their keys, with a profile whose values come first.
-- The parser and the tree of sections are the forge library's; a `Forge` says what its calls return.
-- The operations that change a configuration and the locks are left out.
pub mod StandIn
mod Tests
use aah.Prelude.{
  Bool, true, false, not, ◌&&◌, List, [], ◌∷◌, ◌++◌, Option, none, some, if◌then◌else◌,
}
use aah.Prelude.Outcome.{Outcome, returns, panics, ◌>>=◌}
use aah.Prelude.Integers.{ℤ}
use aah.Text.{Text, codes, is_nil, has_prefix}

-- what GetString and GetInteger give at an index of a list; `none` for an error
pub record Item : Type 0 where
  pub as_string : Option Text
  pub as_integer : Option ℤ

-- a value, by its type; `other` are floats, nil and whatever else the getters here do not take
pub data Setting (S : Type 0) : Type 0 where
  section : S → Setting S
  string : Text → Setting S
  boolean : Bool → Setting S
  integer : ℤ → Setting S
  list : List Item → Setting S
  other : Setting S

-- Section.Keys, and Section.Resolve with `none` for its error
pub record Forge (S : Type 0) : Type 0 where
  pub section_keys : S → List Text
  pub resolve : S → Text → Option (Setting S)

pub record Config (S : Type 0) : Type 0 where
  pub profile : Text
  pub cfg : S

abbrev pub new_config : {S : Type 0} → S → Config S
new_config s = record { profile = []; cfg = s }

abbrev pub or_default : {A : Type 0} → A → Option A → A
or_default d none = d
or_default d (some a) = a

unfoldable pub strings_of : List Item → List Text
strings_of [] = []
strings_of (i ∷ items) =
    let rest = strings_of items in elim (i.as_string) [ none ↦ rest | some s ↦ s ∷ rest ]

unfoldable pub integers_of : List Item → List ℤ
integers_of [] = []
integers_of (i ∷ items) =
    let rest = integers_of items in elim (i.as_integer) [ none ↦ rest | some n ↦ n ∷ rest ]

module _ {S : Type 0} where
  abbrev pub is_profile_enabled : Config S → Bool
  is_profile_enabled c = not (is_nil c.profile)

  unfoldable pub prepare_key : Config S → Text → Text
  unfolding has_prefix
  prepare_key c key =
      if is_profile_enabled c && not (has_prefix key (c.profile ++ codes "."))
      then c.profile ++ (codes "." ++ key)
      else key

  -- the type assertions of the getters
  abbrev pub as_string : Setting S → Outcome Text
  as_string (string s) = returns s
  as_string _ = panics

  abbrev pub as_bool : Setting S → Outcome Bool
  as_bool (boolean b) = returns b
  as_bool _ = panics

  abbrev pub as_int64 : Setting S → Outcome ℤ
  as_int64 (integer n) = returns n
  as_int64 _ = panics

  abbrev pub asserted :
      {A : Type 0} → (Setting S → Outcome A) → Option (Setting S) → Outcome (Option A)
  asserted assert none = returns none
  asserted assert (some v) = assert v >>= λ a. returns (some a)

  abbrev pub as_section : Option (Setting S) → Option S
  as_section (some (section s)) = some s
  as_section _ = none

  unfoldable pub clear_profile : Config S → Config S
  clear_profile c = record c { profile = [] }

  abbrev pub as_list : Option (Setting S) → Option (List Item)
  as_list (some (list items)) = some items
  as_list _ = none

module _ {S : Type 0} (forge : Forge S) where
  abbrev pub getraw : Config S → Text → Option (Setting S)
  getraw c key = forge.resolve c.cfg key

  -- the methods Get, getByProfile and get_setting
  unfoldable pub get_setting : Config S → Text → Option (Setting S)
  unfolding prepare_key
  get_setting c key =
      if is_profile_enabled c
      then elim (getraw c (prepare_key c key)) [ some v ↦ some v | none ↦ getraw c key ]
      else getraw c key

  unfoldable pub is_exists : Config S → Text → Bool
  unfolding get_setting
  is_exists c key = elim (get_setting c key) [ none ↦ false | some _ ↦ true ]

  unfoldable pub string_value : Config S → Text → Outcome (Option Text)
  unfolding get_setting
  string_value c key = asserted as_string (get_setting c key)

  unfoldable pub bool_value : Config S → Text → Outcome (Option Bool)
  unfolding get_setting
  bool_value c key = asserted as_bool (get_setting c key)

  unfoldable pub int64_value : Config S → Text → Outcome (Option ℤ)
  unfolding get_setting
  int64_value c key = asserted as_int64 (get_setting c key)

  unfoldable pub string_default : Config S → Text → Text → Outcome Text
  unfolding string_value
  string_default c key d = string_value c key >>= λ v. returns (or_default d v)

  unfoldable pub bool_default : Config S → Text → Bool → Outcome Bool
  unfolding bool_value
  bool_default c key d = bool_value c key >>= λ v. returns (or_default d v)

  unfoldable pub int_default : Config S → Text → ℤ → Outcome ℤ
  unfolding int64_value
  int_default c key d = int64_value c key >>= λ v. returns (or_default d v)

  unfoldable pub keys : Config S → List Text
  keys c = forge.section_keys c.cfg

  -- a section with no profile of its own
  unfoldable pub get_sub_config : Config S → Text → Option (Config S)
  unfolding prepare_key
  get_sub_config c key = elim (as_section (getraw c (prepare_key c key))) [
    | none ↦ none
    | some s ↦ some (new_config s)
  ]

  unfoldable pub keys_by_path : Config S → Text → List Text
  keys_by_path c path = elim (as_section (getraw c path)) [
    | none ↦ []
    | some s ↦ forge.section_keys s
  ]

  unfoldable pub has_profile : Config S → Text → Bool
  has_profile c profile = elim (as_section (getraw c profile)) [ none ↦ false | some _ ↦ true ]

  -- `false` is the error
  unfoldable pub set_profile : Config S → Text → Config S × Bool
  unfolding has_profile
  set_profile c profile =
      if has_profile c profile then (record c { profile = profile }, true) else (c, false)

  unfoldable pub get_list_value : Config S → Text → Option (List Item)
  unfolding prepare_key
  get_list_value c key = elim (getraw c (prepare_key c key)) [
    | none ↦ as_list (getraw c key)
    | some v ↦ as_list (some v)
  ]

  unfoldable pub string_list : Config S → Text → Option (List Text)
  unfolding get_list_value strings_of
  string_list c key = elim (get_list_value c key) [
    | none ↦ none
    | some items ↦ some (strings_of items)
  ]

  unfoldable pub int64_list : Config S → Text → Option (List ℤ)
  unfolding get_list_value integers_of
  int64_list c key = elim (get_list_value c key) [
    | none ↦ none
    | some items ↦ some (integers_of items)
  ]
