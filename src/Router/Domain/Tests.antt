-- ===== src/Router/Domain/Tests.antt =====
-- Runs of router/domain.go on small inputs, and the theorems about it at such inputs.
use aah.Prelude.{
  ◌<◌, ◌≡◌, ◌≢◌, refl, ◌↔◌, ◌⊎◌, true, false, List, [], ◌∷◌, ◌++◌, map, none, some, arith, In,
  length,
}
use aah.Prelude.Outcome.{returns}
use aah.Text.{Text, codes, join, is_str_empty, split}
use aah.Router.Tree.{Node, node, nil, edges, wnode, static_node, count_params_from, count_params}
use aah.Router.Tree.Insert.{Tree, add}
use aah.Router.Tree.Lookup.{ok, params_so_far}
use aah.Router.Tree.Lookup.Pattern.{Pattern, Matches, Stores}
use aah.Router.Tree.Lookup.Reached.{hit}
use aah.Router.Domain.{
  Route, Domain, Request, find_entry, add_route, allowed, domain_lookup, route_url, infer_key,
}
use aah.Router.Domain.Dispatch.{Serves, domain_lookup_sound}
use aah.Router.Domain.Allowed.{Offers, allowed_lem}
use aah.Router.Paths.Rooted.{Rooted}
use aah.Router.Domain.Reverse.{joined, filled, segments_of, route_url-returns}
use aah.Router.Domain.Named.{route_url_named_args}
use aah.Router.Domain.Named.ByPosition.{Distinct, names_in, route_url_named_args-route_url}

abbrev hello : Route
hello = record {
  name = codes "hello";
  path = codes "/hello";
  method = codes "GET";
  auth = [];
  is_static = false;
  is_anti_csrf_check = true;
  cors = none;
  constraints = [];
  authorization_info = none;
  target = [];
  action = [];
  parent_name = [];
  max_body_size = 0;
  list_dir = false;
  dir = [];
  file = [];
}

abbrev show : Route
show = record {
  name = codes "show";
  path = codes "/users/:id";
  method = codes "GET";
  auth = [];
  is_static = false;
  is_anti_csrf_check = true;
  cors = none;
  constraints = [];
  authorization_info = none;
  target = [];
  action = [];
  parent_name = [];
  max_body_size = 0;
  list_dir = false;
  dir = [];
  file = [];
}

abbrev bare : Domain
bare = record {
  is_sub_domain = false;
  method_not_allowed = true;
  auto_options = true;
  redirect_trailing_slash = true;
  cors_enabled = true;
  key = [];
  host = codes "Localhost";
  port = codes "8080";
  default_auth = [];
  catch_all_route = none;
  name = [];
  anti_csrf_enabled = true;
  cors = none;
  trees = [];
  routes = [];
}

abbrev hello_tree : Tree Route
hello_tree = record {
  traling_slash = true;
  max_params = 0;
  root =
      node
        (record {
          idx = b'/';
          typ = static_node;
          label = codes "/hello";
          arg = [];
          value = some hello;
        })
        nil;
}

abbrev with_hello : Domain
with_hello = record bare {
  trees = (codes "GET", hello_tree) ∷ [];
  routes = (codes "hello", hello) ∷ (codes "show", show) ∷ [];
}

abbrev preflight_request : Request
preflight_request = record {
  req_method = codes "OPTIONS";
  method_override = [];
  cors_method = codes "GET" ∷ [];
  escaped_path = codes "/hello";
}

key_lower : Domain.key (infer_key bare) ≡ codes "localhost:8080"
unfolding infer_key aah.Text.lower_byte
key_lower = refl

added_hello :
    add_route (record bare { routes = (codes "show", show) ∷ [] }) hello
    ≡ returns (
      record bare {
        trees = (codes "GET", hello_tree) ∷ [];
        routes = (codes "show", show) ∷ (codes "hello", hello) ∷ [];
      },
      none,
    )
unfolding add_route is_str_empty add aah.Text.lower_byte aah.Router.Tree.common aah.Text.text_eq
added_hello = refl

preflight_hello : domain_lookup with_hello preflight_request ≡ hit hello none false
unfolding domain_lookup aah.Text.text_eq aah.Router.Tree.Lookup.lookup
    aah.Router.Tree.Lookup.Fuel.height aah.Router.Tree.common aah.Text.lower_byte
preflight_hello = refl

url_show : route_url with_hello (codes "show") (codes "7" ∷ []) ≡ returns (codes "/users/7")
unfolding route_url aah.Text.text_eq aah.Router.Tree.count_params aah.Text.split
    aah.Router.Paths.join_path join
url_show = refl

domain_lookup_sound_example :
    (Domain.catch_all_route with_hello ≡ some hello)
    ⊎ ((t : Tree Route) × Serves with_hello preflight_request t
        × (m : Node Route) × ((m ≡ t.root) ⊎ (wnode (edges t.root) ≡ some m))
        × (q : Pattern) × Stores m q hello
        × Matches q (codes "/hello") (params_so_far none))
domain_lookup_sound_example =
    domain_lookup_sound with_hello preflight_request hello none false (refl, tt) preflight_hello

allow_get : allowed with_hello (codes "POST") (codes "/hello") ≡ returns (codes "GET")
unfolding allowed aah.Text.text_eq aah.Router.Tree.Lookup.lookup aah.Router.Tree.Lookup.Fuel.height
    aah.Router.Tree.common aah.Text.lower_byte aah.Router.Paths.suffix_comma_value
allow_get = refl

allowed_example :
    (names : List Text) × (codes "GET" ≡ join (codes ", ") names)
    × ((m : Text) → In m names ↔ Offers (codes "POST") (codes "/hello") with_hello.trees m)
allowed_example =
    allowed_lem with_hello (codes "POST") (codes "/hello") (codes "GET") (λ e. cc e)
      ((λ e. cc e), tt) allow_get

show_count : count_params_from 0 show.path < 255
unfolding count_params_from
show_count = omega arith

route_url-returns_example :
    (length (codes "7" ∷ []) ≢ count_params_from 0 show.path
      → route_url with_hello (codes "show") (codes "7" ∷ []) ≡ returns [])
    × (length (codes "7" ∷ []) ≡ 0
        → count_params_from 0 show.path ≡ 0
        → route_url with_hello (codes "show") (codes "7" ∷ []) ≡ returns show.path)
    × (length (codes "7" ∷ []) ≡ count_params_from 0 show.path
        → count_params_from 0 show.path ≢ 0
        → let url =
            joined (codes "/") (filled (segments_of (split b'/' show.path)) (codes "7" ∷ [])) in
          (route_url with_hello (codes "show") (codes "7" ∷ []) ≡ returns url) × Rooted url)
unfolding find_entry aah.Text.text_eq
route_url-returns_example =
    route_url-returns with_hello (codes "show") (codes "7" ∷ []) show refl show_count

abbrev same_text : Text → Text
same_text s = s

abbrev no_query : List (Text × Text) → Text
no_query args = []

abbrev id_seven : List (Text × Text)
id_seven = (codes "id", codes "7") ∷ []

seven_found :
    map (find_entry id_seven) (names_in (split b'/' (codes "users/:id")))
    ≡ map some (codes "7" ∷ [])
unfolding split find_entry aah.Text.text_eq
seven_found = refl

show_signs : count_params show.path ≡ length id_seven
unfolding aah.Router.Tree.count_params
show_signs = refl

id_distinct : Distinct (names_in (split b'/' (codes "users/:id")))
unfolding split
id_distinct = (tt, tt)

route_url_named_args-route_url_example :
    (u : Text) × (route_url with_hello (codes "show") (codes "7" ∷ []) ≡ returns u)
    × (route_url_named_args same_text no_query with_hello (codes "show") id_seven ≡ (u, []))
unfolding find_entry aah.Text.text_eq
route_url_named_args-route_url_example =
    route_url_named_args-route_url same_text no_query with_hello (codes "show") show
      (codes "users/:id") id_seven (codes "7" ∷ []) refl refl show_signs id_distinct seven_found
      refl

-- The map of a first call is of no use for a second one.
second_call : route_url_named_args same_text no_query with_hello (codes "show") [] ≡ ([], [])
unfolding route_url_named_args aah.Text.text_eq aah.Router.Tree.count_params
second_call = refl

-- An argument that is no parameter of the path is the query.
abbrev as_query : List (Text × Text) → Text
as_query [] = []
as_query ((k, v) ∷ _) = k ++ (codes "=" ++ v)

url_with_query :
    route_url_named_args same_text as_query with_hello
      (codes "show")
      ((codes "page", codes "2") ∷ id_seven)
    ≡ (codes "/users/7?page=2", (codes "page", codes "2") ∷ [])
unfolding route_url_named_args aah.Text.text_eq aah.Router.Tree.count_params aah.Text.split
    aah.Router.Paths.join_path join
url_with_query = refl
