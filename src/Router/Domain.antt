-- ===== src/Router/Domain.antt =====
-- router/domain.go: the routes of one domain, found by request, by name and for reverse URLs. The
-- logs are left out. A Go map is the list of its entries in the order that a loop visits them.
pub mod Dispatch
pub mod Allowed
pub mod Reverse
pub mod Named
pub mod Bound
pub mod Complete
mod Tests
use aah.Prelude.{
  ℕ, ◌*◌, suc, ◌+◌, Bool, true, false, not, ◌&&◌, ◌||◌, List, [], ◌∷◌, ◌++◌, Option, none, some,
  if◌then◌else◌, ltb, ◌==◌, length, get_elem?,
}
use aah.Prelude.Outcome.{Outcome, returns, panics, ◌>>=◌}
use aah.Text.{Text, codes, text_eq, to_lower, is_nil, is_str_empty, split}
use aah.Router.Tree.{count_params, param_byte, wild_byte}
use aah.Router.Tree.Insert.{Tree, AddError, new_root, add}
use aah.Router.Tree.Lookup.{Found, Result, ok, lookup, is_set}
use aah.Router.Tree.Lookup.Fuel.{height}
use aah.Router.Cors.{Cors}
use aah.Router.Route.{RouteAuthorization}
use aah.Router.Paths.{join_path, suffix_comma_value}

pub record Route : Type 0 where
  pub name : Text
  pub path : Text
  pub method : Text
  pub auth : Text
  pub is_static : Bool
  pub is_anti_csrf_check : Bool
  pub cors : Option Cors
  pub constraints : List (Text × Text)
  pub authorization_info : Option RouteAuthorization
  pub target : Text
  pub action : Text
  pub parent_name : Text
  pub max_body_size : ℕ
  pub list_dir : Bool
  pub dir : Text
  pub file : Text

pub record Domain : Type 0 where
  pub is_sub_domain : Bool
  pub method_not_allowed : Bool
  pub redirect_trailing_slash : Bool
  pub auto_options : Bool
  pub cors_enabled : Bool
  pub key : Text
  pub host : Text
  pub port : Text
  pub default_auth : Text
  pub catch_all_route : Option Route
  pub name : Text
  pub anti_csrf_enabled : Bool
  pub cors : Option Cors
  pub trees : List (Text × Tree Route)
  pub routes : List (Text × Route)

-- of the request: the method, the values of the two headers, and the escaped path
pub record Request : Type 0 where
  pub req_method : Text
  pub method_override : List Text
  pub cors_method : List Text
  pub escaped_path : Text

module _ {A : Type 0} where
  -- reading and writing a map
  unfoldable pub find_entry : List (Text × A) → Text → Option A
  find_entry [] k = none
  find_entry ((n, a) ∷ es) k = if text_eq n k then some a else find_entry es k

  unfoldable pub put_entry : List (Text × A) → Text → A → List (Text × A)
  put_entry [] k a = (k, a) ∷ []
  put_entry ((n, old) ∷ es) k a = if text_eq n k then (n, a) ∷ es else (n, old) ∷ put_entry es k a

-- the tree's `lookup`, with fuel for twice its height
abbrev pub lookup_tree : Tree Route → Text → Result Route
lookup_tree t p = lookup t.traling_slash t.max_params (2 * height t.root) t.root p

abbrev pub first_or : List Text → Text → Text
first_or [] d = d
first_or (h ∷ _) d = h

-- the method after X-HTTP-Method-Override
unfoldable pub override : Request → Text
override req =
    if text_eq req.req_method (codes "POST")
    then first_or req.method_override req.req_method
    else req.req_method

-- the tree of the method, or for a preflight that of the method it asks about
unfoldable pub find_tree : Domain → Request → Option (Tree Route)
unfolding override find_entry
find_tree d req = elim (find_entry d.trees (override req)) [
  | some t ↦ some t
  | none ↦
      if text_eq (override req) (codes "OPTIONS") && d.cors_enabled
      then elim req.cors_method [ [] ↦ none | h ∷ _ ↦ find_entry d.trees h ]
      else none
]

abbrev pub no_route : Found Route
no_route = record { route = none; params = none; rts = false }

-- `Catch All`
unfoldable pub or_catch_all : Option Route → Result Route → Result Route
or_catch_all (some r) (ok f) =
    if not (is_set f.route) && not f.rts
    then ok (record { route = some r; params = none; rts = false })
    else ok f
or_catch_all _ result = result

unfoldable pub domain_lookup : Domain → Request → Result Route
unfolding find_tree or_catch_all
domain_lookup d req = elim (find_tree d req) [
  | none ↦ ok no_route
  | some t ↦ or_catch_all d.catch_all_route (lookup_tree t req.escaped_path)
]

unfoldable pub lookup_by_name : Domain → Text → Option Route
unfolding find_entry
lookup_by_name d name = find_entry d.routes name

pub data AddRouteError : Type 0 where
  method_empty : AddRouteError
  tree_error : AddError → AddRouteError

abbrev pub tree_or_new : Domain → Option (Tree Route) → Tree Route
tree_or_new d (some t) = t
tree_or_new d none = record {
  traling_slash = d.redirect_trailing_slash;
  max_params = 0;
  root = new_root Route;
}

-- The tree is shared by pointer: what `add` did to it stays where it returns an error.
unfoldable pub add_route : Domain → Route → Outcome (Domain × Option AddRouteError)
unfolding find_entry put_entry
add_route d route =
    if is_str_empty route.method
    then returns (d, some method_empty)
    else (add (tree_or_new d (find_entry d.trees route.method)) route.path (some route) >>= λ added.
        let d' = record d { trees = put_entry d.trees route.method (added.0) } in
        elim (added.1) [
          | some e ↦ returns (d', some (tree_error e))
          | none ↦ returns (record d' { routes = put_entry d.routes route.name route }, none)
        ])

-- whether a lookup found a route; a panic of it is one of the caller's
abbrev pub found_route : Result Route → Outcome Bool
found_route (ok f) = returns (is_set f.route)
found_route _ = panics

-- the loop for a specific path
unfoldable pub allowed_from : Text → Text → Text → List (Text × Tree Route) → Outcome Text
allowed_from request_method path' allowed [] = returns allowed
allowed_from request_method path' allowed ((method, t) ∷ trees) =
    if not (text_eq method request_method) && not (text_eq method (codes "OPTIONS"))
    then (found_route (lookup_tree t path') >>= λ is_found.
        allowed_from request_method path'
          (if is_found then suffix_comma_value allowed method else allowed) trees)
    else allowed_from request_method path' allowed trees

-- the loop for `*`
unfoldable pub allowed_anywhere : Text → List (Text × Tree Route) → Text
allowed_anywhere allowed [] = allowed
allowed_anywhere allowed ((method, t) ∷ trees) =
    allowed_anywhere
      (if not (text_eq method (codes "OPTIONS"))
        then suffix_comma_value allowed method
        else allowed)
      trees

unfoldable pub allowed : Domain → Text → Text → Outcome Text
unfolding allowed_from allowed_anywhere
allowed d request_method path' =
    if text_eq path' (codes "*")
    then returns (allowed_anywhere [] d.trees)
    else allowed_from request_method path' [] d.trees

abbrev pub is_parameter : Text → Bool
is_parameter [] = false
is_parameter (c ∷ _) = (c == param_byte) || (c == wild_byte)

-- The loop of `RouteURL`, at index `idx` of the values, which are escaped.
unfoldable pub reverse_from : List Text → ℕ → Text → List Text → Outcome Text
reverse_from values idx reverse_url [] = returns reverse_url
reverse_from values idx reverse_url (segment ∷ segments) =
    let next : Outcome Text = elim (get_elem? values idx) [
      | none ↦ panics
      | some v ↦ reverse_from values (idx + 1) (join_path reverse_url v) segments
    ] in
    let skip = reverse_from values idx reverse_url segments in
    let keep = reverse_from values idx (join_path reverse_url segment) segments in
    if length segment == 0 then skip else if is_parameter segment then next else keep

-- `args` are the arguments as `url.PathEscape` writes them; the empty text is the result of an error.
unfoldable pub route_url : Domain → Text → List Text → Outcome Text
unfolding find_entry reverse_from
route_url d route_name args = elim (find_entry d.routes route_name) [
  | none ↦ returns []
  | some route ↦
      let count = count_params route.path in
      if (count == 0) && (length args == 0)
      then returns route.path
      else if ltb count (length args)
      then returns []
      else if ltb (length args) count
      then returns []
      else reverse_from args 0 (codes "/") (split b'/' route.path)
]

unfoldable pub infer_key : Domain → Domain
infer_key d =
    if length d.port == 0
    then record d { key = to_lower d.host }
    else record d { key = to_lower (d.host ++ (codes ":" ++ d.port)) }

-- `has_scheme` tells whether the security manager has a scheme of a name
module _ (has_scheme : Text → Bool) where
  unfoldable pub without_auth : List (Text × Route) → List Text
  without_auth [] = []
  without_auth ((_, r) ∷ routes) =
      let names = without_auth routes in
      if r.is_static
        || text_eq r.auth (codes "anonymous")
        || text_eq r.auth (codes "authenticated")
        || text_eq r.method (codes "WS")
      then names
      else if text_eq r.auth []
      then r.name ∷ names
      else if not (has_scheme r.auth)
      then r.name ∷ names
      else names

  unfoldable pub is_auth_configured : Domain → List Text × Bool
  unfolding without_auth
  is_auth_configured d =
      if not (is_str_empty d.default_auth) && has_scheme d.default_auth
      then ([], true)
      else (without_auth d.routes, is_nil (without_auth d.routes))
