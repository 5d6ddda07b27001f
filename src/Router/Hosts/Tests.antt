-- ===== src/Router/Hosts/Tests.antt =====
-- Hosts of a router with a domain and a wildcard subdomain, as router_test.go has.
use aah.Prelude.{◌≢◌, ◌≡◌, refl, List, [], ◌∷◌, none, some, ◌⊎◌, In, true, false}
use aah.Prelude.Outcome.{returns, panics}
use aah.Text.{Text, codes, to_lower}
use aah.Router.Domain.{Domain, Route}
use aah.Router.Hosts.{Router, lookup_domain, create_route_url}
use aah.Router.Hosts.Find.{Below, lookup_domain_lem}

abbrev hello : Route
hello = record {
  name = codes "hello";
  path = codes "/hello";
  method = codes "GET";
  auth = [];
  is_static = false;
  is_anti_csrf_check = true;
  cors = none;
  constraints = [];
  authorization_info = none;
  target = [];
  action = [];
  parent_name = [];
  max_body_size = 0;
  list_dir = false;
  dir = [];
  file = [];
}

abbrev sample : Domain
sample = record {
  is_sub_domain = false;
  method_not_allowed = true;
  redirect_trailing_slash = true;
  auto_options = true;
  cors_enabled = false;
  key = codes "sample.com:8080";
  host = codes "sample.com";
  port = codes "8080";
  default_auth = [];
  catch_all_route = none;
  name = [];
  anti_csrf_enabled = true;
  cors = none;
  trees = [];
  routes = (codes "hello", hello) ∷ [];
}

abbrev wild : Domain
wild = record sample {
  is_sub_domain = true;
  key = codes "*.sample.com:8080";
  host = codes "*.sample.com";
}

abbrev two : Router
two = record { domains = sample ∷ wild ∷ []; root_domain = some sample }

lookup_own : lookup_domain two (codes "Sample.com:8080") ≡ some sample
unfolding lookup_domain aah.Text.text_eq aah.Text.lower_byte
lookup_own = refl

lookup_below : lookup_domain two (codes "u1.sample.com:8080") ≡ some wild
unfolding lookup_domain aah.Text.text_eq aah.Text.lower_byte
lookup_below = refl

lookup_other : lookup_domain two (codes "other.org") ≡ none
unfolding lookup_domain aah.Text.text_eq aah.Text.lower_byte
lookup_other = refl

abbrev same_text : Text → Text
same_text s = s

abbrev no_query : List (Text × Text) → Text
no_query args = []

url_root :
    create_route_url same_text no_query two (codes "sample.com:8080") (codes "hello#top") none []
    ≡ returns (codes "//sample.com:8080/hello#top", none)
unfolding create_route_url aah.Text.text_eq aah.Router.Domain.route_url aah.Router.Tree.count_params
    aah.Text.has_prefix
url_root = refl

-- a map of arguments, of which a route without parameters takes none
url_named :
    create_route_url same_text no_query two (codes "sample.com:8080") (codes "hello") (some []) []
    ≡ returns (codes "//sample.com:8080/hello", some [])
unfolding create_route_url aah.Text.text_eq aah.Router.Tree.count_params aah.Text.has_prefix
url_named = refl

url_subdomain :
    create_route_url same_text no_query two (codes "u1.sample.com:8080") (codes "u1.hello") none []
    ≡ returns (codes "//u1.sample.com:8080/hello", none)
unfolding create_route_url aah.Text.has_prefix aah.Text.text_eq aah.Text.lower_byte
    aah.Router.Domain.route_url aah.Router.Tree.count_params
url_subdomain = refl

-- a host without a port makes the URL of a wildcard domain panic
url_no_port :
    create_route_url same_text no_query two (codes "u1.sample.com") (codes "u2.hello") none []
    ≡ panics
unfolding create_route_url aah.Text.has_prefix aah.Text.text_eq aah.Router.Domain.route_url
    aah.Router.Tree.count_params
url_no_port = refl

lookup_domain_example :
    ((d : Domain)
      → lookup_domain two (codes "u1.sample.com:8080") ≡ some d
      → (two.domains ≡ d ∷ [])
        ⊎ (In d two.domains
            × ((d.key ≡ to_lower (codes "u1.sample.com:8080"))
                ⊎ (Below (codes "u1.sample.com:8080") d
                    × ((c : Domain)
                        → In c two.domains
                        → c.key ≡ to_lower (codes "u1.sample.com:8080")
                        → ⊥)))))
    × (lookup_domain two (codes "u1.sample.com:8080") ≡ none
        → (d : Domain)
        → (two.domains ≢ d ∷ [])
          × (In d two.domains
              → (d.key ≢ to_lower (codes "u1.sample.com:8080"))
                × (Below (codes "u1.sample.com:8080") d → ⊥)))
lookup_domain_example = lookup_domain_lem two (codes "u1.sample.com:8080")
