-- ===== src/Router/Load/Section.antt =====
-- router/router.go: parseSectionRoutes, with the parts of router/util.go and router/route.go that read the
-- configuration. The recursion over nested sections is on fuel, one unit for a level.
use aah.Prelude.{
  ℕ, zero, suc, Bool, true, false, not, ◌&&◌, ◌||◌, List, [], ◌∷◌, ◌++◌, Option, none, some,
  if◌then◌else◌, ◌==◌,
}
use aah.Prelude.Outcome.{Outcome, returns, panics}
use aah.Text.{Text, codes, text_eq, to_upper, trim_space, is_str_empty, split, has_prefix}
use aah.Text.Size.{str_to_bytes}
use aah.Config.{
  Config, Forge, keys, string_value, string_default, bool_default, is_exists, get_sub_config,
  string_list, bool_value,
}
use aah.Router.Cors
use aah.Router.Cors.{Cors, process_cors_section}
use aah.Router.Route.{RouteAuthorization, AuthorizationSection, parse_authorization_info}
use aah.Router.Constraints.{Constraints, parse_route_constraints}
use aah.Router.Paths.{clean, join_path, add_slash_prefix}
use aah.Router.Domain.{Route}
use aah.Router.Load.{
  Load, loaded, failed, out_of_fuel, ◌>>=◌, lift, guard, from_parsed, from_constraints,
  ParentRouteInfo, method_web_socket, path_missing, target_missing, action_missing,
  cors_not_enabled,
}

-- HTTPMethodActionMap
unfoldable pub find_action_by_http_method : Text → Text
find_action_by_http_method method =
    if text_eq method (codes "GET")
    then codes "Index"
    else if text_eq method (codes "POST")
    then codes "Create"
    else if text_eq method (codes "PUT")
    then codes "Update"
    else if text_eq method (codes "PATCH")
    then codes "Update"
    else if text_eq method (codes "DELETE")
    then codes "Delete"
    else if text_eq method (codes "OPTIONS")
    then codes "Options"
    else if text_eq method (codes "HEAD")
    then codes "Head"
    else if text_eq method (codes "TRACE")
    then codes "Trace"
    else []

unfoldable pub occurs : Text → Text → Bool
unfolding has_prefix
occurs [] t = has_prefix [] t
occurs (c ∷ s) t = has_prefix (c ∷ s) t || occurs s t

-- `(POST|PUT|DELETE)`, which is not anchored
unfoldable pub takes_payload : Text → Bool
unfolding occurs
takes_payload method =
    occurs method (codes "POST") || occurs method (codes "PUT") || occurs method (codes "DELETE")

-- the path of a route below its parent's
unfoldable pub placed : Text → Option Text → Outcome Text
unfolding join_path add_slash_prefix
placed prefix none = returns (join_path prefix [])
placed prefix (some []) = panics
placed prefix (some (c ∷ s)) =
    returns (if c == b'^' then add_slash_prefix s else join_path prefix (add_slash_prefix (c ∷ s)))

-- what a route has in place of `none`
abbrev pub constraints_of : Option Constraints → Constraints
constraints_of none = []
constraints_of (some cs) = cs

abbrev pub is_none : {A : Type 0} → Option A → Bool
is_none none = true
is_none (some _) = false

abbrev pub or_zero : Option ℕ → ℕ
or_zero none = 0
or_zero (some n) = n

-- the attributes that routes of one section share, but for the method
pub record Attributes : Type 0 where
  pub name : Text
  pub path : Text
  pub methods : Text
  pub target : Text
  pub action : Text
  pub auth : Text
  pub max_body_size : ℕ
  pub is_anti_csrf_check : Bool
  pub cors : Option Cors
  pub constraints : Constraints
  pub authorization_info : RouteAuthorization

abbrev pub route_of : Text → Attributes → Text → Route
route_of parent a method = record {
  name = a.name;
  path = a.path;
  method = trim_space method;
  auth = a.auth;
  is_static = false;
  is_anti_csrf_check = a.is_anti_csrf_check;
  cors = a.cors;
  constraints = a.constraints;
  authorization_info = some a.authorization_info;
  target = a.target;
  action = a.action;
  parent_name = parent;
  max_body_size = a.max_body_size;
  list_dir = false;
  dir = [];
  file = [];
}

-- the loop over the methods
unfoldable pub routes_of : Text → Attributes → List Text → List Route
routes_of parent a [] = []
routes_of parent a (m ∷ ms) = route_of parent a m ∷ routes_of parent a ms

-- 'anti_csrf_check', 'cors' and 'max_body_size' not applicable for WebSocket
unfoldable pub for_web_socket : Attributes → Attributes
for_web_socket a =
    if text_eq a.methods method_web_socket
    then record a { is_anti_csrf_check = false; cors = none; max_body_size = 0 }
    else a

-- the body size, which is 0 where the size is no size or the method takes no payload
abbrev pub body_size : Text → Text → ℕ
body_size size methods = if takes_payload methods then or_zero (str_to_bytes size) else 0

abbrev pub info_below : ParentRouteInfo → Text → Attributes → ParentRouteInfo
info_below info route_path a = record info {
  parent_name = a.name;
  prefix_path = route_path;
  target = a.target;
  auth = a.auth;
  anti_csrf_check = a.is_anti_csrf_check;
  cors = a.cors;
  authorization_info = a.authorization_info;
}

abbrev pub own_routes : ParentRouteInfo → Attributes → Bool → List Route
own_routes info a false = []
own_routes info a true = routes_of info.parent_name a (split b',' a.methods)

-- a load of a section below another one
abbrev pub Loader : Type 0 → Type 0
Loader S = Config S → ParentRouteInfo → Load (List Route)

module _ (seconds : Text → Option Text) {S : Type 0} (forge : Forge S) where
  unfoldable pub authorization_section : Config S → Text → Load AuthorizationSection
  unfolding string_value string_list
  authorization_section cfg name = do
    satisfy ← lift (string_value forge cfg (name ++ codes ".authorization.satisfy"))
    loaded (record {
      satisfy_value = satisfy;
      roles_list = string_list forge cfg (name ++ codes ".authorization.roles");
      permissions_list = string_list forge cfg (name ++ codes ".authorization.permissions");
    })

  unfoldable pub cors_section : Config S → Load Cors.Section
  unfolding string_value bool_value string_list
  cors_section cfg = do
    credentials ← lift (bool_value forge cfg (codes "allow_credentials"))
    age ← lift (string_value forge cfg (codes "max_age"))
    loaded (record {
      origins = string_list forge cfg (codes "allow_origins");
      headers = string_list forge cfg (codes "allow_headers");
      methods = string_list forge cfg (codes "allow_methods");
      credentials = credentials;
      exposed = string_list forge cfg (codes "expose_headers");
      age = age;
    })

  -- processCORSSection; its error comes before anything is read
  unfoldable pub route_cors : Config S → Option Cors → Load (Option Cors)
  unfolding cors_section process_cors_section
  route_cors cfg none = failed cors_not_enabled
  route_cors cfg (some parent) = do
    section ← cors_section cfg
    loaded (process_cors_section seconds section (some parent))

  -- the policy of a route, before it is dropped for WebSocket
  unfoldable pub inherited_cors : Config S → ParentRouteInfo → Text → Text → Load (Option Cors)
  unfolding bool_default route_cors
  inherited_cors cfg info name method =
      if info.cors_enabled && not (text_eq method method_web_socket)
      then elim (get_sub_config forge cfg (name ++ codes ".cors")) [
        | none ↦ loaded info.cors
        | some sub ↦ lift (bool_default forge sub (codes "enable") true) >>= λ enable.
            if enable then route_cors sub info.cors else loaded none
      ]
      else loaded none

  unfoldable pub path_of : Config S → ParentRouteInfo → Text → Load Text
  unfolding string_value placed
  path_of cfg info name = lift (string_value forge cfg (name ++ codes ".path")) >>= λ found.
      guard (path_missing name) (is_none found && is_str_empty info.prefix_path)
        (lift (placed info.prefix_path found) >>= λ p. loaded (clean (trim_space p)))

  -- what is read for one route: its path, its attributes, and whether it is a route of its own
  unfoldable pub read_route : Config S → ParentRouteInfo → Text → Load (Text × Attributes × Bool)
  unfolding path_of parse_route_constraints string_default is_exists find_action_by_http_method
      bool_default authorization_section parse_authorization_info inherited_cors takes_payload
      str_to_bytes for_web_socket
  read_route cfg info name = do
    route_path ← path_of cfg info name
    actual ← from_constraints name (parse_route_constraints route_path)
    method ← lift (string_default forge cfg (name ++ codes ".method") (codes "GET"))
    socket ← lift (string_default forge cfg (name ++ codes ".websocket") info.target)
    target ← lift (string_default forge cfg (name ++ codes ".controller") socket)
    action ← lift (
        string_default forge cfg (name ++ codes ".action")
          (find_action_by_http_method (to_upper method)))
    let has_routes = is_exists forge cfg (name ++ codes ".routes")
    let not_to_skip = not (has_routes && (is_str_empty target || is_str_empty action))
    guard (target_missing name) (not_to_skip && is_str_empty target) (
        guard (action_missing name) (not_to_skip && is_str_empty action) do
          auth ← lift (string_default forge cfg (name ++ codes ".auth") info.auth)
          size ←
              lift
                (string_default forge cfg (name ++ codes ".max_body_size") info.max_body_size_str)
          check ←
              lift (bool_default forge cfg (name ++ codes ".anti_csrf_check") info.anti_csrf_check)
          section ← authorization_section cfg name
          authorization ←
              from_parsed name (parse_authorization_info section info.authorization_info)
          cors ← inherited_cors cfg info name (to_upper method)
          loaded (
            route_path,
            for_web_socket (record {
              name = name;
              path = actual.0;
              methods = to_upper method;
              target = target;
              action = action;
              auth = trim_space auth;
              max_body_size = body_size size (to_upper method);
              is_anti_csrf_check = check;
              cors = cors;
              constraints = constraints_of actual.1;
              authorization_info = authorization;
            }),
            not_to_skip,
          ))

  unfoldable pub child_routes : Loader S → Config S → Text → ParentRouteInfo → Load (List Route)
  child_routes child cfg name info = elim (get_sub_config forge cfg (name ++ codes ".routes")) [
    | none ↦ loaded []
    | some sub ↦ child sub info
  ]

  unfoldable pub parse_route : Loader S → Config S → ParentRouteInfo → Text → Load (List Route)
  unfolding read_route routes_of child_routes
  parse_route child cfg info name = do
    r ← read_route cfg info name
    below ← child_routes child cfg name (info_below info r.0 r.1)
    loaded (own_routes info r.1 r.2 ++ below)

  unfoldable pub parse_routes :
      Loader S → Config S → ParentRouteInfo → List Text → Load (List Route)
  unfolding parse_route
  parse_routes child cfg info [] = loaded []
  parse_routes child cfg info (name ∷ names) = do
    routes ← parse_route child cfg info name
    more ← parse_routes child cfg info names
    loaded (routes ++ more)

  unfoldable pub parse_section_routes : ℕ → Loader S
  unfolding parse_routes keys
  parse_section_routes zero cfg info = out_of_fuel
  parse_section_routes (suc f) cfg info =
      parse_routes (parse_section_routes f) cfg info (keys forge cfg)
