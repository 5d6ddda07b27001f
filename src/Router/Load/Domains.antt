-- ===== src/Router/Load/Domains.antt =====
-- router/router.go: processRoutesConfig, processStaticRoutes and processRoutes. `inferwnode` is not a step
-- here: a node's wildcard child is computed from its edges. Log lines are left out.
use aah.Prelude.{
  ℕ, Bool, true, false, not, ◌||◌, List, [], ◌∷◌, ◌++◌, Option, none, some, if◌then◌else◌, length,
  ◌==◌,
}
use aah.Text.{Text, codes, text_eq, trim_space, is_str_empty}
use aah.Text.Size.{str_to_bytes}
use aah.Config.{
  Config, Forge, string_value, string_default, bool_default, is_exists, get_sub_config,
  keys_by_path, set_profile,
}
use aah.Router.Cors.{Cors, process_base_cors_section}
use aah.Router.Domain.{Route, Domain, add_route, lookup_by_name, infer_key, is_auth_configured}
use aah.Router.Hosts.{Router}
use aah.Router.Load.{
  faulted, Load, loaded, failed, ◌>>=◌, lift, guard, given, ParentRouteInfo, auto_route_name_suffix,
  no_domains, host_missing, catch_all_incomplete, route_refused, auth_not_configured,
}
use aah.Router.Load.Section.{or_zero, cors_section, route_cors, parse_section_routes, is_none}
use aah.Router.Load.Static.{parse_static_section}

-- the schemes of the security manager that bring routes of their own, with their URLs
pub data SchemeRoutes : Type 0 where
  form_auth : Text → SchemeRoutes
  oauth2 : Text → Text → SchemeRoutes
  no_routes : SchemeRoutes

abbrev pub Schemes : Type 0
Schemes = List (Text × SchemeRoutes)

abbrev pub has_scheme : Schemes → Text → Bool
has_scheme [] key = false
has_scheme ((k, _) ∷ ss) key = text_eq k key || has_scheme ss key

-- the loop over AddRoute
unfoldable pub add_routes : Domain → List Route → Load Domain
unfolding add_route
add_routes d [] = loaded d
add_routes d (r ∷ rs) = lift (add_route d r) >>= λ (d', e). elim e [
  | some error ↦ failed (route_refused error)
  | none ↦ add_routes d' rs
]

abbrev pub scheme_route : Text → Text → Text → Text → ℕ → Route
scheme_route name path' method auth max_body_size = record {
  name = name;
  path = path';
  method = method;
  auth = auth;
  is_static = false;
  is_anti_csrf_check = false;
  cors = none;
  constraints = [];
  authorization_info = none;
  target = [];
  action = [];
  parent_name = [];
  max_body_size = max_body_size;
  list_dir = false;
  dir = [];
  file = [];
}

-- `_ = domain.AddRoute(route)`
unfoldable pub add_ignored : Domain → Route → Load Domain
unfolding add_route
add_ignored d r = lift (add_route d r) >>= λ (d', _). loaded d'

unfoldable pub add_scheme : ℕ → Domain → Text → SchemeRoutes → Load Domain
unfolding add_ignored lookup_by_name
add_scheme max_body_size d key (form_auth submit_url) =
    let name = key ++ (codes "_login_submit" ++ auto_route_name_suffix) in
    if is_none (lookup_by_name d name)
    then add_ignored d (scheme_route name submit_url (codes "POST") key max_body_size)
    else loaded d
add_scheme max_body_size d key (oauth2 login_url redirect_url) =
    let login = key ++ (codes "_login" ++ auto_route_name_suffix) in
    let redirect = key ++ (codes "_redirect" ++ auto_route_name_suffix) in
    add_ignored d (scheme_route login login_url (codes "GET") key 0) >>= λ d'.
    add_ignored d' (scheme_route redirect redirect_url (codes "GET") key 0)
add_scheme max_body_size d key no_routes = loaded d

unfoldable pub add_schemes : ℕ → Domain → Schemes → Load Domain
unfolding add_scheme
add_schemes max_body_size d [] = loaded d
add_schemes max_body_size d ((key, s) ∷ ss) =
    add_scheme max_body_size d key s >>= λ d'. add_schemes max_body_size d' ss

-- with no scheme every domain is configured
unfoldable pub check_auth : Schemes → Domain → Load Domain
unfolding is_auth_configured
check_auth [] d = loaded d
check_auth (s ∷ ss) d = elim ((is_auth_configured (has_scheme (s ∷ ss)) d).1) [
  | true ↦ loaded d
  | false ↦ failed (auth_not_configured ((is_auth_configured (has_scheme (s ∷ ss)) d).0))
]

abbrev pub info_of : Domain → Text → ParentRouteInfo
info_of d max_body_size_str = record {
  anti_csrf_check = d.anti_csrf_enabled;
  cors_enabled = d.cors_enabled;
  parent_name = [];
  prefix_path = [];
  target = [];
  auth = d.default_auth;
  max_body_size_str = max_body_size_str;
  cors = d.cors;
  authorization_info = record { satisfy = codes "either"; roles = []; permissions = [] };
}

-- `schemes` is none where there is no security manager
module _ (seconds : Text → Option Text) {S : Type 0} (forge : Forge S) (schemes : Option Schemes)
    (app_config : Config S) where
  unfoldable pub process_static_routes : Domain → Config S → Load Domain
  unfolding get_sub_config parse_static_section add_routes
  process_static_routes d cfg = elim (get_sub_config forge cfg (codes "static")) [
    | none ↦ loaded d
    | some sub ↦ parse_static_section forge sub >>= λ routes. add_routes d routes
  ]

  abbrev pub max_body_size_text : Load Text
  max_body_size_text =
      lift (string_default forge app_config (codes "request.max_body_size") (codes "5mb"))

  unfoldable pub process_schemes : Text → Domain → Load Domain
  unfolding check_auth add_schemes str_to_bytes
  process_schemes size d = elim schemes [
    | none ↦ loaded d
    | some ss ↦ check_auth ss d >>= λ d'. add_schemes (or_zero (str_to_bytes size)) d' ss
  ]

  unfoldable pub process_routes : ℕ → Domain → Config S → Load Domain
  unfolding get_sub_config string_default parse_section_routes add_routes process_schemes
  process_routes fuel d cfg = elim (get_sub_config forge cfg (codes "routes")) [
    | none ↦ loaded d
    | some sub ↦ do
      size ← max_body_size_text
      routes ← parse_section_routes seconds forge fuel sub (info_of d size)
      d' ← add_routes d routes
      process_schemes size d'
  ]

  abbrev pub port_of : Text → Text
  port_of port =
      if text_eq (trim_space port) (codes "80") || text_eq (trim_space port) (codes "443")
      then []
      else trim_space port

  -- the domain with its attributes and without its routes
  unfoldable pub read_domain : Text → Config S → Text → Load Domain
  unfolding string_default bool_default
  read_domain key cfg host = do
    server_port ← lift (string_default forge app_config (codes "server.port") (codes "8080"))
    port ← lift (string_default forge cfg (codes "port") server_port)
    name ← lift (string_default forge cfg (codes "name") key)
    sub_domain ← lift (bool_default forge cfg (codes "subdomain") false)
    not_allowed ← lift (bool_default forge cfg (codes "method_not_allowed") true)
    slash ← lift (bool_default forge cfg (codes "redirect_trailing_slash") true)
    options ← lift (bool_default forge cfg (codes "auto_options") true)
    auth ← lift (string_default forge cfg (codes "default_auth") [])
    anti_csrf ← lift (bool_default forge cfg (codes "anti_csrf_check") true)
    cors_on ← lift (bool_default forge cfg (codes "cors.enable") false)
    loaded (record {
      is_sub_domain = sub_domain;
      method_not_allowed = not_allowed;
      redirect_trailing_slash = slash;
      auto_options = options;
      cors_enabled = cors_on;
      key = [];
      host = host;
      port = port_of port;
      default_auth = auth;
      catch_all_route = none;
      name = name;
      anti_csrf_enabled = anti_csrf;
      cors = none;
      trees = [];
      routes = [];
    })

  -- the policy of the domain; a section that is missing is a nil pointer, which is read
  unfoldable pub with_cors : Domain → Config S → Load Domain
  unfolding get_sub_config cors_section process_base_cors_section
  with_cors d cfg =
      if d.cors_enabled
      then elim (get_sub_config forge cfg (codes "cors")) [
        | none ↦ faulted
        | some sub ↦ cors_section seconds forge sub >>= λ section.
            loaded (record d { cors = some (process_base_cors_section seconds section) })
      ]
      else loaded d

  abbrev pub catch_all_cors : Domain → Config S → Load (Option Cors)
  catch_all_cors d cfg = elim (get_sub_config forge cfg (codes "catch_all.cors")) [
    | none ↦ loaded none
    | some sub ↦ route_cors seconds forge sub d.cors
  ]

  unfoldable pub with_catch_all : Domain → Config S → Load Domain
  unfolding is_exists string_default bool_default str_to_bytes get_sub_config route_cors
  with_catch_all d cfg = if not (is_exists forge cfg (codes "catch_all")) then loaded d else do
    target ← lift (string_default forge cfg (codes "catch_all.controller") [])
    action ← lift (string_default forge cfg (codes "catch_all.action") [])
    auth ← lift (string_default forge cfg (codes "catch_all.auth") [])
    guard catch_all_incomplete (is_str_empty target || is_str_empty action) do
      default_size ← max_body_size_text
      size ← lift (string_default forge cfg (codes "catch_all.max_body_size") default_size)
      check ← lift (bool_default forge cfg (codes "catch_all.anti_csrf_check") false)
      policy ← catch_all_cors d cfg
      let route =
          record (scheme_route [] (codes "*") (codes "*") auth (or_zero (str_to_bytes size))) {
            is_anti_csrf_check = check;
            cors = policy;
            target = target;
            action = action;
          }
      loaded (record d { catch_all_route = some route })

  unfoldable pub process_domain : ℕ → Text → Option (Config S) → Load Domain
  unfolding string_value read_domain with_cors with_catch_all process_static_routes process_routes
      infer_key
  process_domain fuel key none = faulted
  process_domain fuel key (some cfg) = do
    found ← lift (string_value forge cfg (codes "host"))
    host ← given host_missing found
    d₁ ← read_domain key cfg host
    d₂ ← with_cors d₁ cfg
    d₃ ← with_catch_all d₂ cfg
    d₄ ← process_static_routes d₃ cfg
    d₅ ← process_routes fuel d₄ cfg
    loaded (infer_key d₅)

  unfoldable pub process_domains : ℕ → Config S → List Text → Load (List Domain)
  unfolding process_domain get_sub_config
  process_domains fuel cfg [] = loaded []
  process_domains fuel cfg (key ∷ ks) = do
    d ← process_domain fuel key (get_sub_config forge cfg key)
    ds ← process_domains fuel cfg ks
    loaded (d ∷ ds)

  unfoldable pub find_root : List Domain → Option Domain
  find_root [] = none
  find_root (d ∷ ds) = if not d.is_sub_domain then some d else find_root ds

  unfoldable pub process_routes_config : ℕ → Config S → Load Router
  unfolding keys_by_path set_profile process_domains find_root
  process_routes_config fuel cfg =
      let domains = keys_by_path forge cfg (codes "domains") in
      if length domains == 0
      then failed no_domains
      else (process_domains fuel (set_profile forge cfg (codes "domains")).0 domains >>= λ ds.
          loaded (record { domains = ds; root_domain = find_root ds }))
