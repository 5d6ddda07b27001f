-- ===== src/Router/Cors/Methods.antt =====
-- The methods and the headers that a policy allows.
use aah.Prelude.{
  ◌≡◌, refl, ◌↔◌, ◌⊎◌, inl, inr, true, false, not, ◌&&◌, List, [], ◌∷◌, ◌++◌, arith, if◌then◌else◌,
  Bool-cases, In, All,
}
use aah.Text.{Text, text_eq, to_lower, to_upper, trim_space, is_str_empty, contains_fold, split}
use aah.Text.Equality.{text_eq_iff}
use aah.Router.Cors.{
  Cors, allow_all, add_allow_methods, is_method_allowed, canonical_header_key, headers_listed,
  is_headers_allowed,
}
use aah.Router.Cors.Origins.{Names, contains_fold_iff, Names-append, Names-fold, length-eq-zero_iff}

-- a method of the list that is not blank, up to letter case and the blanks around it
abbrev pub Methods : List Text → Text → Type 0
Methods [] m = ⊥
Methods (x ∷ xs) m =
    ((is_str_empty (to_upper (trim_space x)) ≡ false)
      × (to_lower (to_upper (trim_space x)) ≡ to_lower m))
    ⊎ Methods xs m

abbrev Permits : Cors → Text → Type 0
Permits c m = (c.allow_all_methods ≡ true) ⊎ Names c.allow_methods m

is_method_allowed_iff : (c : Cors) (m : Text) → (is_method_allowed c m ≡ true) ↔ Permits c m
unfolding is_method_allowed
is_method_allowed_iff c m = ground (arith, contains_fold_iff c.allow_methods m)

abbrev with_method : Cors → Text → Cors
with_method c x =
    if not (is_str_empty (to_upper (trim_space x)))
      && not (contains_fold c.allow_methods (to_upper (trim_space x)))
    then record c { allow_methods = c.allow_methods ++ to_upper (trim_space x) ∷ [] }
    else c

Permits-with_method :
    (c : Cors) (x m : Text)
    → Permits (with_method c x) m ↔ (
        Permits c m
        ⊎ ((is_str_empty (to_upper (trim_space x)) ≡ false)
            × (to_lower (to_upper (trim_space x)) ≡ to_lower m)))
Permits-with_method c x m = ground (
  arith,
  contains_fold_iff c.allow_methods (to_upper (trim_space x)),
  Names-append c.allow_methods (to_upper (trim_space x) ∷ []) m,
  Names-fold c.allow_methods (to_upper (trim_space x)) m,
)

Permits-add_allow_methods :
    (c : Cors) (methods : List Text) (m : Text)
    → Permits (add_allow_methods c methods) m
      ↔ (Permits c m ⊎ (In allow_all methods ⊎ Methods methods m))
unfolding add_allow_methods
Permits-add_allow_methods c [] m = ground arith
Permits-add_allow_methods c (x ∷ methods) m = elim (Bool-cases (text_eq x allow_all)) [
  | inl e ↦ rw e (λ _. inr (inl (inl ((text_eq_iff x allow_all).0 e))), λ _. inl refl)
  | inr e ↦ rw e (
      ground (
        arith,
        text_eq_iff x allow_all,
        Permits-add_allow_methods (with_method c x) methods m,
        Permits-with_method c x m,
      ))
]

-- `AddAllowMethods` allows what was allowed before and the methods given that are not blank, up to
-- letter case and the blanks around them, and every method where one of those given is `*`.
pub is_method_allowed-add_allow_methods :
    (c : Cors) (methods : List Text) (m : Text)
    → (is_method_allowed (add_allow_methods c methods) m ≡ true)
      ↔ ((is_method_allowed c m ≡ true) ⊎ (In allow_all methods ⊎ Methods methods m))
is_method_allowed-add_allow_methods c methods m = ground (
  arith,
  is_method_allowed_iff (add_allow_methods c methods) m,
  is_method_allowed_iff c m,
  Permits-add_allow_methods c methods m,
)

headers_listed_iff :
    (allowed hs : List Text)
    → (headers_listed allowed hs ≡ true)
      ↔ All (λ h. Names allowed (canonical_header_key (trim_space h))) hs
unfolding headers_listed
headers_listed_iff allowed [] = ground arith
headers_listed_iff allowed (h ∷ hs) = ground (
  arith,
  contains_fold_iff allowed (canonical_header_key (trim_space h)),
  headers_listed_iff allowed hs,
)

-- `IsHeadersAllowed` accepts the value of Access-Control-Request-Headers exactly where all headers
-- are allowed, the value is empty, or each name between its commas is one of the policy's, once
-- blanks are trimmed and the name is made canonical, up to letter case.
pub is_headers_allowed_iff :
    (c : Cors) (hdrs : Text)
    → (is_headers_allowed c hdrs ≡ true) ↔ (
        (c.allow_all_headers ≡ true)
        ⊎ ((hdrs ≡ [])
            ⊎ All
                (λ h. Names c.allow_headers (canonical_header_key (trim_space h)))
                (split b',' hdrs)))
unfolding is_headers_allowed
is_headers_allowed_iff c hdrs =
    ground (arith, length-eq-zero_iff hdrs, headers_listed_iff c.allow_headers (split b',' hdrs))
