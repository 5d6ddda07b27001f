-- ===== src/Router/Cors/Inherit.antt =====
-- What the policy of a route inherits from the policy of its domain.
use aah.Prelude.{
  ℕ, ◌≡◌, refl, ◌↔◌, inl, inr, true, false, not, ◌&&◌, List, [], ◌∷◌, ◌++◌, arith, Option, none,
  some, Option-cases, if◌then◌else◌, Bool-cases, In, In-append, In-append_left, if_cases,
}
use aah.Text.{
  Text, codes, text_eq, lower_byte, to_lower, contains_fold, to_upper, trim_space, is_str_empty,
}
use aah.Text.Equality.{text_eq_iff}
use aah.Router.Cors.{
  Cors, blank, allow_all, Section, or_default, default_allow_headers, default_allow_methods,
  add_origins, add_allow_headers, add_allow_methods, add_expose_headers, is_origin_allowed,
  set_max_age, process_base_cors_section, process_cors_section,
}
use aah.Router.Cors.Origins.{is_origin_allowed_iff, Admits-add_origins}

-- what two policies say about origins
SameOrigins : Cors → Cors → Type 0
SameOrigins c d = (c.allow_origins ≡ d.allow_origins) × (c.allow_all_origins ≡ d.allow_all_origins)

SameOrigins-add_allow_headers : (c : Cors) (hs : List Text) → SameOrigins (add_allow_headers c hs) c
unfolding SameOrigins add_allow_headers
SameOrigins-add_allow_headers c hs = ground arith

abbrev with_method : Cors → Text → Cors
with_method c x =
    if not (is_str_empty (to_upper (trim_space x)))
      && not (contains_fold c.allow_methods (to_upper (trim_space x)))
    then record c { allow_methods = c.allow_methods ++ to_upper (trim_space x) ∷ [] }
    else c

abbrev with_origin : Cors → Text → Cors
with_origin c x =
    if not (contains_fold c.allow_origins (to_lower x))
    then record c { allow_origins = c.allow_origins ++ to_lower x ∷ [] }
    else c

SameOrigins-with_method :
    (c d : Cors) (m : Text) → SameOrigins c d → SameOrigins (with_method c m) d
unfolding SameOrigins
SameOrigins-with_method c d m h =
    if_cases (λ r. SameOrigins r d)
      (not (is_str_empty (to_upper (trim_space m)))
        && not (contains_fold c.allow_methods (to_upper (trim_space m))))
      (record c { allow_methods = c.allow_methods ++ to_upper (trim_space m) ∷ [] }) c h h

SameOrigins-add_allow_methods :
    (c d : Cors) (ms : List Text) → SameOrigins c d → SameOrigins (add_allow_methods c ms) d
unfolding SameOrigins add_allow_methods
SameOrigins-add_allow_methods c d [] h = h
SameOrigins-add_allow_methods c d (m ∷ ms) h = elim (Bool-cases (text_eq m allow_all)) [
  | inl e ↦ rw e h
  | inr e ↦
      rw e (SameOrigins-add_allow_methods (with_method c m) d ms (SameOrigins-with_method c d m h))
]

lower-star : (c : ℕ) → lower_byte c ≡ b'*' → c ≡ b'*'
unfolding lower_byte
lower-star c h = ground arith

to_lower-allow_all : (s : Text) → to_lower s ≡ allow_all → s ≡ allow_all
to_lower-allow_all [] h = h
to_lower-allow_all (c ∷ []) h = ground (arith, lower-star c)
to_lower-allow_all (c ∷ d ∷ s) h = ground arith

-- the flag tells whether the list has `*`
abbrev Flagged : Cors → Type 0
Flagged c = (c.allow_all_origins ≡ true) ↔ In allow_all c.allow_origins

Flagged-with_origin :
    (c : Cors) (o : Text) → (text_eq o allow_all ≡ false) → Flagged c → Flagged (with_origin c o)
Flagged-with_origin c o e f = ground (
  arith,
  text_eq_iff o allow_all,
  to_lower-allow_all o,
  In-append allow_all c.allow_origins (to_lower o ∷ []),
  In-append_left allow_all c.allow_origins (to_lower o ∷ []),
)

Flagged-add_origins : (c : Cors) (origins : List Text) → Flagged c → Flagged (add_origins c origins)
unfolding add_origins
Flagged-add_origins c [] f = f
Flagged-add_origins c (o ∷ origins) f = elim (Bool-cases (text_eq o allow_all)) [
  | inl e ↦ rw e (λ _. inl refl, λ _. refl)
  | inr e ↦ rw e (Flagged-add_origins (with_origin c o) origins (Flagged-with_origin c o e f))
]

-- A section without origins makes a policy that allows what the parent's allows.
is_origin_allowed-inherited :
    (parent : Cors) (o : Text)
    → Flagged parent
    → (is_origin_allowed (add_origins blank parent.allow_origins) o ≡ true)
      ↔ (is_origin_allowed parent o ≡ true)
is_origin_allowed-inherited parent o f = ground (
  arith,
  is_origin_allowed_iff (add_origins blank parent.allow_origins) o,
  is_origin_allowed_iff parent o,
  Admits-add_origins blank parent.allow_origins o,
)

SameOrigins-set_max_age :
    (seconds : Text → Option Text) (c d : Cors) (age : Text)
    → SameOrigins c d
    → SameOrigins (set_max_age seconds c age) d
unfolding SameOrigins set_max_age
SameOrigins-set_max_age seconds c d age h = elim (Option-cases (seconds age)) [
  | inl e ↦ rw (set_max_age, e) h
  | inr (s, e) ↦ rw (set_max_age, e) h
]

-- the steps after the origins
SameOrigins-headers_methods :
    (c : Cors) (hs ms : List Text) → SameOrigins (add_allow_methods (add_allow_headers c hs) ms) c
SameOrigins-headers_methods c hs ms =
    SameOrigins-add_allow_methods (add_allow_headers c hs) c ms (SameOrigins-add_allow_headers c hs)

Flagged-same : (c d : Cors) → SameOrigins c d → Flagged d → Flagged c
unfolding SameOrigins
Flagged-same c d h f = rw h.0 (rw h.1 f)

SameOrigins-exposed :
    (c d : Cors) (exposed : Option (List Text))
    → SameOrigins c d
    → SameOrigins (elim exposed [ some hdrs ↦ add_expose_headers c hdrs | none ↦ c ]) d
unfolding SameOrigins add_expose_headers
SameOrigins-exposed c d none h = h
SameOrigins-exposed c d (some hdrs) h = h

base_origins :
    (seconds : Text → Option Text) (cfg : Section)
    → SameOrigins
        (process_base_cors_section seconds cfg)
        (add_origins blank (or_default cfg.origins (allow_all ∷ [])))
unfolding process_base_cors_section SameOrigins
base_origins seconds cfg =
    let c₁ = add_origins blank (or_default cfg.origins (allow_all ∷ [])) in
    let c₂ = add_allow_headers c₁ (or_default cfg.headers default_allow_headers) in
    let c₃ = add_allow_methods c₂ (or_default cfg.methods default_allow_methods) in
    let c₄ = add_allow_methods c₃ (codes "OPTIONS" ∷ []) in
    let c₅ = record c₄ { allow_credentials = or_default cfg.credentials false } in
    let c₆ : Cors = elim cfg.exposed [ some hdrs ↦ add_expose_headers c₅ hdrs | none ↦ c₅ ] in
    let c₇ = record c₆ { max_age_str = or_default cfg.age (codes "24h") } in
    SameOrigins-set_max_age seconds c₇ c₁ c₇.max_age_str (
      SameOrigins-exposed c₅ c₁ cfg.exposed (
        SameOrigins-add_allow_methods c₃ c₁ (codes "OPTIONS" ∷ []) (
          SameOrigins-headers_methods c₁ (or_default cfg.headers default_allow_headers)
            (or_default cfg.methods default_allow_methods))))

Flagged-base :
    (seconds : Text → Option Text) (cfg : Section) → Flagged (process_base_cors_section seconds cfg)
Flagged-base seconds cfg =
    Flagged-same _ _ (base_origins seconds cfg) (Flagged-add_origins blank _ (ground arith))

child_origins :
    (seconds : Text → Option Text) (cfg : Section) (parent : Cors)
    → cfg.origins ≡ none
    → (child : Cors) × (process_cors_section seconds cfg (some parent) ≡ some child)
      × SameOrigins child (add_origins blank parent.allow_origins)
unfolding process_cors_section SameOrigins
child_origins seconds cfg parent h =
    let c₁ = add_origins blank parent.allow_origins in
    let c₂ = add_allow_headers c₁ (or_default cfg.headers parent.allow_headers) in
    let c₃ = add_allow_methods c₂ (or_default cfg.methods parent.allow_methods) in
    let c₄ = record c₃ {
      allow_credentials = or_default cfg.credentials parent.allow_credentials;
    } in
    let c₅ = add_expose_headers c₄ (or_default cfg.exposed parent.expose_headers) in
    let c₆ = record c₅ { max_age_str = or_default cfg.age parent.max_age_str } in
    rw h (
      set_max_age seconds c₆ c₆.max_age_str,
      refl,
      SameOrigins-set_max_age seconds c₆ c₁ c₆.max_age_str (
          SameOrigins-headers_methods c₁ (or_default cfg.headers parent.allow_headers)
            (or_default cfg.methods parent.allow_methods)),
    )

allowed-same :
    (c d : Cors) (o : Text)
    → SameOrigins c d
    → (is_origin_allowed c o ≡ true) ↔ (is_origin_allowed d o ≡ true)
unfolding SameOrigins is_origin_allowed
allowed-same c d o h = rw h.0 (rw h.1 (λ a. a, λ a. a))

-- A section without origins under a domain whose policy was read from a section of its own gives a
-- policy that allows the origins that the domain's policy allows, and no others.
pub process_cors_section-inherits :
    (seconds : Text → Option Text) (base cfg : Section)
    → cfg.origins ≡ none
    → (child : Cors) × (process_cors_section seconds cfg
          (some (process_base_cors_section seconds base))
        ≡ some child)
      × ((o : Text)
          → (is_origin_allowed child o ≡ true)
            ↔ (is_origin_allowed (process_base_cors_section seconds base) o ≡ true))
process_cors_section-inherits seconds base cfg h =
    let parent = process_base_cors_section seconds base in
    let (child, e, same) = child_origins seconds cfg parent h in
    let f = Flagged-base seconds base in
    (
      child,
      e,
      λ o.
          iff_trans (allowed-same child (add_origins blank parent.allow_origins) o same)
            (is_origin_allowed-inherited parent o f),
    )
  where
    iff_trans : {A B C : Type 0} → A ↔ B → B ↔ C → A ↔ C
    iff_trans f g = (λ a. g.0 (f.0 a), λ c. f.1 (g.1 c))
