-- ===== src/Router/Cors/Tests.antt =====
-- Runs of router/cors.go on small inputs, and the theorems about it at such inputs.
use aah.Prelude.{◌≡◌, refl, ◌↔◌, true, false, List, [], ◌∷◌, Option, none, some}
use aah.Text.{Text, codes, split, trim_space}
use aah.Router.Cors.{
  Cors, Section, blank, add_origins, is_origin_allowed, is_method_allowed, is_headers_allowed,
  canonical_header_key, process_base_cors_section, process_cors_section,
}
use aah.Router.Cors.Inherit.{process_cors_section-inherits}

abbrev two_origins : List Text
two_origins = codes "http://A.com" ∷ codes "http://b.com" ∷ []

abbrev no_section : Section
no_section = record {
  origins = none;
  headers = none;
  methods = none;
  credentials = none;
  exposed = none;
  age = none;
}

abbrev a_section : Section
a_section = record {
  origins = some two_origins;
  headers = none;
  methods = some (codes " put " ∷ []);
  credentials = some true;
  exposed = none;
  age = none;
}

abbrev day : Text → Option Text
day s = some (codes "86400")

allowed_folded : is_origin_allowed (add_origins blank two_origins) (codes "HTTP://a.com") ≡ true
unfolding is_origin_allowed add_origins aah.Text.text_eq aah.Text.contains_fold
allowed_folded = refl

denied_origin : is_origin_allowed (add_origins blank two_origins) (codes "http://c.com") ≡ false
unfolding is_origin_allowed add_origins aah.Text.text_eq aah.Text.contains_fold
denied_origin = refl

header_key : canonical_header_key (codes "x-request-ID") ≡ codes "X-Request-Id"
unfolding canonical_header_key aah.Text.upper_byte aah.Text.lower_byte
header_key = refl

base_put : is_method_allowed (process_base_cors_section day a_section) (codes "PUT") ≡ true
unfolding is_method_allowed process_base_cors_section aah.Text.text_eq aah.Text.is_str_empty
    aah.Text.upper_byte aah.Text.contains_fold
base_put = refl

base_delete : is_method_allowed (process_base_cors_section day a_section) (codes "DELETE") ≡ false
unfolding is_method_allowed process_base_cors_section aah.Text.text_eq aah.Text.is_str_empty
    aah.Text.upper_byte aah.Text.contains_fold
base_delete = refl

base_age : Cors.max_age (process_base_cors_section day a_section) ≡ codes "86400"
unfolding process_base_cors_section
base_age = refl

base_headers :
    is_headers_allowed (process_base_cors_section day a_section) (codes "accept, origin") ≡ true
unfolding is_headers_allowed process_base_cors_section aah.Text.text_eq aah.Text.is_str_empty
    aah.Text.upper_byte aah.Text.contains_fold split
base_headers = refl

process_cors_section-inherits_example :
    (child : Cors) × (process_cors_section day no_section
        (some (process_base_cors_section day a_section))
      ≡ some child)
    × ((o : Text)
        → (is_origin_allowed child o ≡ true)
          ↔ (is_origin_allowed (process_base_cors_section day a_section) o ≡ true))
process_cors_section-inherits_example = process_cors_section-inherits day a_section no_section refl
