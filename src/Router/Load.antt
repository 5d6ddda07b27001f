-- ===== src/Router/Load.antt =====
-- router/router.go: the routes of the configuration. What loading comes to is a `Load`: the errors are
-- told apart by what they say, `panics` is a panic of Go and `out_of_fuel` has no counterpart.
pub mod Within
pub mod Section
pub mod Static
pub mod Domains
pub mod Below
pub mod Ready
pub mod Stored
pub mod Rooted
pub mod Reachable
pub mod Served
pub mod Configured
mod Tests
use aah.Prelude.{ℕ, Bool, true, false, List, [], ◌∷◌, ◌++◌, Option, none, some}
use aah.Prelude.Outcome.{Outcome, returns, panics}
use aah.Text.{Text, codes}
use aah.Router.Cors.{Cors}
use aah.Router.Route.{
  RouteAuthorization, Parsed, ValuesError, ok, err, both_incomplete, out_of_range,
}
use aah.Router.Constraints.{RouteConstraints, Constraints}
use aah.Router.Domain.{AddRouteError}

-- the keys that the messages name
pub data LoadError : Type 0 where
  no_domains : LoadError
  host_missing catch_all_incomplete : LoadError
  path_missing target_missing action_missing : Text → LoadError
  constraint_invalid : Text → Text → LoadError
  authorization_invalid : Text → ValuesError → LoadError
  authorization_incomplete : Text → LoadError
  cors_not_enabled : LoadError
  static_path_missing static_path_unrooted static_path_parameters : Text → LoadError
  static_both static_neither static_base_dir_missing : Text → LoadError
  route_refused : AddRouteError → LoadError
  auth_not_configured : List Text → LoadError

pub data Load (A : Type 0) : Type 0 where
  loaded : A → Load A
  failed : LoadError → Load A
  faulted out_of_fuel : Load A

infixl 5 ◌>>=◌
unfoldable pub ◌>>=◌ : {A B : Type 0} → Load A → (A → Load B) → Load B
loaded a >>= f = f a
failed e >>= f = failed e
faulted >>= f = faulted
out_of_fuel >>= f = out_of_fuel

unfoldable pub lift : {A : Type 0} → Outcome A → Load A
lift (returns a) = loaded a
lift panics = faulted

unfoldable pub guard : {A : Type 0} → LoadError → Bool → Load A → Load A
guard e true m = failed e
guard e false m = m

unfoldable pub given : {A : Type 0} → LoadError → Option A → Load A
given e none = failed e
given e (some a) = loaded a

unfoldable pub from_parsed : {A : Type 0} → Text → Parsed A → Load A
from_parsed name (ok a) = loaded a
from_parsed name (err e) = failed (authorization_invalid name e)
from_parsed name both_incomplete = failed (authorization_incomplete name)
from_parsed name out_of_range = faulted

unfoldable pub from_constraints : Text → RouteConstraints → Load (Text × Option Constraints)
from_constraints name (RouteConstraints.ok path constraints) = loaded (path, constraints)
from_constraints name (RouteConstraints.invalid path cs seg) = failed (constraint_invalid name path)
from_constraints name RouteConstraints.panics = faulted

pub record ParentRouteInfo : Type 0 where
  pub anti_csrf_check : Bool
  pub cors_enabled : Bool
  pub parent_name : Text
  pub prefix_path : Text
  pub target : Text
  pub auth : Text
  pub max_body_size_str : Text
  pub cors : Option Cors
  pub authorization_info : RouteAuthorization

abbrev pub method_web_socket : Text
method_web_socket = codes "WS"

abbrev pub auto_route_name_suffix : Text
auto_route_name_suffix = codes "__aah"
