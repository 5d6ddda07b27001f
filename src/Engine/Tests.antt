-- ===== src/Engine/Tests.antt =====
-- Requests through the middlewares of a small application, whose one route takes a form.
use aah.Prelude.{◌≡◌, refl, ◌⊎◌, true, false, [], ◌∷◌, ◌++◌, none, some, Option, if◌then◌else◌}
use aah.Prelude.Integers.{pos}
use aah.Prelude.Outcome.{Outcome, returns, panics}
use aah.Text.{Text, codes, text_eq}
use aah.Cookie.StandIn.{stand_in}
use aah.AntiCsrf.{AntiCsrf, is_safe_http_method, xor_bytes}
use aah.Session.{Session}
use aah.Router.Cors.{Cors}
use aah.Router.Tree.{Info, node, nil, static_node}
use aah.Router.Tree.Insert.{Tree}
use aah.Router.Domain.{Domain, Route}
use aah.Engine.Reply.{Reply, Error, new_reply, new_error, no_cookie_found, authentication_failed}
use aah.Engine.Context.{Req, Context, AuthenticationInfo}
use aah.Engine.Chain.{Passes, Flow, stops, goes_on, MiddlewareFunc, next, chain}
use aah.Engine.Routing.{Environment, redirect_trailing_slash}
use aah.Engine.Preflight.{handle_cors_preflight, first_value}
use aah.Engine.Bind.{BindEnvironment}
use aah.Engine.Csrf.{CsrfEnvironment, anti_csrf_middleware}
use aah.Engine.Csrf.Safe.{Genuine, own_secret, anti_csrf_middleware-Genuine}
use aah.Engine.Scheme.{AccessEnvironment, Scheme, generic, ok, err, refused}
use aah.Engine.Access.{authc_authz_middleware}
use aah.Engine.Authentication.SignIn.{Same, SignedIn}
use aah.Engine.Access.Granted.{Entitled, authc_authz_middleware-Entitled}
use aah.Engine.Pipeline.{Application, web_middlewares, Vetted, action-Vetted}

abbrev order : Route
order = record {
  name = codes "order";
  path = codes "/order";
  method = codes "POST";
  auth = codes "no, yes";
  is_static = false;
  is_anti_csrf_check = true;
  cors = none;
  constraints = [];
  authorization_info = none;
  target = [];
  action = [];
  parent_name = [];
  max_body_size = 0;
  list_dir = false;
  dir = [];
  file = [];
}

abbrev orders : Tree Route
orders = record {
  traling_slash = true;
  max_params = 0;
  root =
      node
        (record {
          idx = b'/';
          typ = static_node;
          label = codes "/order";
          arg = [];
          value = some order;
        })
        nil;
}

abbrev shop : Domain
shop = record {
  is_sub_domain = false;
  method_not_allowed = true;
  redirect_trailing_slash = true;
  auto_options = true;
  cors_enabled = true;
  key = codes "shop.org";
  host = codes "shop.org";
  port = [];
  default_auth = [];
  catch_all_route = none;
  name = [];
  anti_csrf_enabled = true;
  cors = none;
  trees = (codes "POST", orders) ∷ [];
  routes = (codes "order", order) ∷ [];
}

abbrev routing : Environment
routing = record {
  router = record { domains = shop ∷ []; root_domain = some shop };
  serve = λ ctx. (ctx, false);
  validate = λ ps cs. [];
  parse_target = λ t. some t;
  url_text = λ t. t;
}

abbrev csrf : CsrfEnvironment
csrf = record {
  prim = stand_in;
  anti_csrf = record { enabled = true; cookie_mgr = none; secret_length = 2; trusted_origins = [] };
  has_view_engine = true;
  parse_url = λ t. none;
  now = 100;
  iv = codes "i";
  fresh = codes "pq";
}

-- the scheme `no` refuses everyone, and `yes` takes everyone for Ann
abbrev ann : AuthenticationInfo
ann = record {
  credential = codes "secret";
  principals =
      record { realm = []; claim = codes "name"; value = codes "ann"; is_primary = true } ∷ [];
}

abbrev scheme_of : Text → Option Scheme
scheme_of name =
    if text_eq name (codes "yes")
    then some (record {
      key = codes "yes";
      kind = generic;
      principals = none;
      do_authenticate = λ req. ok ann;
      get_authorization_info = λ i. none;
    })
    else some (record {
      key = codes "no";
      kind = generic;
      principals = none;
      do_authenticate = λ req. err refused;
      get_authorization_info = λ i. none;
    })

abbrev nobody : Session
nobody = record {
  id = codes "s1";
  values = [];
  is_new = true;
  is_authenticated = false;
  created_time = none;
  max_age = pos 0;
}

abbrev access : AccessEnvironment
access = record {
  auth_scheme_exists = true;
  auth_scheme = scheme_of;
  is_stateful = true;
  fresh_session = nobody;
  form_rt = λ r. [];
  url_text = λ r. [];
  query_escape = λ t. t;
}

abbrev web_shop : Application
web_shop = record {
  routing = routing;
  binding = record {
    content_negotiation_enabled = false;
    accepted_content_types = [];
    offered_content_types = [];
    content_mime = λ r. [];
    accept_mime = λ r. [];
  };
  csrf = csrf;
  access = access;
}

abbrev request_to : Text → Text → Text → Context
request_to method path token = record {
  req = record {
    host = codes "shop.org";
    method = method;
    path = path;
    scheme = codes "http";
    http = record {
      req_method = method;
      method_override = [];
      cors_method = [];
      escaped_path = path;
    };
    origin = [];
    access_control_headers = [];
    referer = [];
    csrf_cookie = none;
    csrf_header = token;
    csrf_form = [];
  };
  url_path = path;
  domain = none;
  route = none;
  url_params = none;
  reply = new_reply;
  abort = false;
  session = none;
  authentication_info = none;
  authorization_info = none;
  csrf_secret = none;
  csrf_set_cookie = none;
}

-- the salt `xy` and the secret under it
abbrev token : Text
token = stand_in.base64 (codes "xy" ++ xor_bytes (codes "xy") (codes "pq"))

abbrev say : Text → MiddlewareFunc
say t ctx = returns (stops (record ctx { reply = record new_reply { text_body = some t } }))

abbrev body_of : Outcome Context → Option Text
body_of (returns c) = Reply.text_body c.reply
body_of panics = none

abbrev error_of : Outcome Context → Option Error
error_of (returns c) = Reply.err c.reply
error_of panics = none

abbrev run : Context → Outcome Context
run ctx = next (chain (web_middlewares web_shop ++ say (codes "done") ∷ [])) ctx

vetted_runs : body_of (run (request_to (codes "POST") (codes "/order") token)) ≡ some (codes "done")
unfolding next aah.Engine.Routing.route_middleware text_eq aah.Router.Tree.Lookup.lookup
    aah.Router.Tree.Lookup.Fuel.height aah.Router.Tree.common aah.Text.lower_byte
    aah.Engine.Preflight.cors_middleware aah.Engine.Bind.bind_middleware anti_csrf_middleware
    aah.Text.contains_fold aah.Text.is_str_empty aah.AntiCsrf.xor_bits authc_authz_middleware
    aah.Text.split
vetted_runs = refl

no_token :
    error_of (run (request_to (codes "POST") (codes "/order") []))
    ≡ some (new_error no_cookie_found 403)
unfolding next aah.Engine.Routing.route_middleware text_eq aah.Router.Tree.Lookup.lookup
    aah.Router.Tree.Lookup.Fuel.height aah.Router.Tree.common aah.Text.lower_byte
    aah.Engine.Preflight.cors_middleware aah.Engine.Bind.bind_middleware anti_csrf_middleware
    aah.Text.contains_fold aah.Text.is_str_empty
no_token = refl

action-Vetted_example :
    ((d : Context) × Passes
        (web_middlewares web_shop)
        (request_to (codes "POST") (codes "/order") token)
        d
      × Vetted web_shop (request_to (codes "POST") (codes "/order") token) d
      × (d.abort ≡ false))
    ⊎ ((other : MiddlewareFunc)
        → next
            (chain (web_middlewares web_shop ++ say (codes "done") ∷ []))
            (request_to (codes "POST") (codes "/order") token)
          ≡ next
              (chain (web_middlewares web_shop ++ other ∷ []))
              (request_to (codes "POST") (codes "/order") token))
action-Vetted_example =
    action-Vetted web_shop (say (codes "done")) (request_to (codes "POST") (codes "/order") token)

-- an action that leaves the reply's error as it is
abbrev answer : MiddlewareFunc
answer ctx =
    returns (
      stops (record ctx { reply = record (Context.reply ctx) { text_body = some (codes "done") } }))

abbrev run_answer : Outcome Context
run_answer =
    next (chain (web_middlewares web_shop ++ answer ∷ []))
      (request_to (codes "POST") (codes "/order") token)

-- the error of the scheme `no` is still there when the action runs under the scheme `yes`
answered : body_of run_answer ≡ some (codes "done")
unfolding next aah.Engine.Routing.route_middleware text_eq aah.Router.Tree.Lookup.lookup
    aah.Router.Tree.Lookup.Fuel.height aah.Router.Tree.common aah.Text.lower_byte
    aah.Engine.Preflight.cors_middleware aah.Engine.Bind.bind_middleware anti_csrf_middleware
    aah.Text.contains_fold aah.Text.is_str_empty aah.AntiCsrf.xor_bits authc_authz_middleware
    aah.Text.split
answered = refl

still_failed : error_of run_answer ≡ some (new_error authentication_failed 401)
unfolding next aah.Engine.Routing.route_middleware text_eq aah.Router.Tree.Lookup.lookup
    aah.Router.Tree.Lookup.Fuel.height aah.Router.Tree.common aah.Text.lower_byte
    aah.Engine.Preflight.cors_middleware aah.Engine.Bind.bind_middleware anti_csrf_middleware
    aah.Text.contains_fold aah.Text.is_str_empty aah.AntiCsrf.xor_bits authc_authz_middleware
    aah.Text.split
still_failed = refl

abbrev at_shop : Text → Context
at_shop path = record (request_to (codes "POST") path []) { domain = some shop }

abbrev redirected : Text → Context
redirected path = record (at_shop path) {
  url_path = path ++ codes "/";
  reply = record new_reply { code = 302; redirect = true; path = path ++ codes "/" };
}

abbrev policy : Cors
policy = record {
  allow_credentials = true;
  allow_all_origins = false;
  allow_all_methods = false;
  allow_all_headers = true;
  max_age = codes "60";
  max_age_str = [];
  allow_origins = codes "http://a.org" ∷ [];
  allow_methods = codes "GET" ∷ [];
  allow_headers = [];
  expose_headers = [];
}

abbrev preflight : Req
preflight = record (Context.req (request_to (codes "OPTIONS") (codes "/order") [])) {
  origin = codes "http://a.org" ∷ [];
}

abbrev routed : Text → Context
routed tok = record (request_to (codes "POST") (codes "/order") tok) {
  domain = some shop;
  route = some order;
}

abbrev with_secret : Context → Context
with_secret ctx = record ctx { csrf_secret = some (codes "pq") }

abbrev after_action : Outcome Flow → Context → Context
after_action (returns (goes_on c f)) = f
after_action _ = λ c. c

anti_csrf_middleware-Genuine_example :
    Genuine csrf (Context.req (routed token))
    × (with_secret (routed token) ≡ record (routed token) {
      csrf_secret = some (own_secret csrf (Context.req (routed token)));
    })
unfolding anti_csrf_middleware aah.Text.contains_fold aah.Text.is_str_empty aah.AntiCsrf.xor_bits
anti_csrf_middleware-Genuine_example =
    anti_csrf_middleware-Genuine csrf (routed token) (with_secret (routed token)) order
      (after_action (anti_csrf_middleware csrf (routed token))) refl refl refl refl refl refl

abbrev passed_context : Outcome Flow → Context → Context
passed_context (returns (goes_on c f)) d = c
passed_context _ d = d

abbrev signed_in_context : Context
signed_in_context = passed_context (authc_authz_middleware access (routed [])) (routed [])

authc_authz_middleware-Entitled_example :
    ((access.auth_scheme_exists ≡ false) × (routed [] ≡ signed_in_context))
    ⊎ (((route : Route) × (Context.route (routed []) ≡ some route)
          × (route.auth ≡ codes "anonymous"))
        × (routed [] ≡ signed_in_context))
    ⊎ (Same (routed []) signed_in_context
        × SignedIn signed_in_context
        × Entitled access signed_in_context)
unfolding authc_authz_middleware text_eq aah.Text.split aah.Text.trim_space
authc_authz_middleware-Entitled_example =
    authc_authz_middleware-Entitled access (routed []) signed_in_context (λ c. c) refl
