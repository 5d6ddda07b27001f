-- ===== src/Router/Route/Tests.antt =====
-- Runs of router/route.go on small inputs, and the theorems about it at such inputs.
use aah.Prelude.{◌≡◌, ◌≢◌, refl, true, [], ◌∷◌, none, some}
use aah.Prelude.Outcome.{returns}
use aah.Text.{Text, codes}
use aah.Authz.Permission.{Permission}
use aah.Authz.Info.{AuthorizationInfo}
use aah.Router.Route.{
  RouteAuthorization, AuthorizationSection, ok, err, out_of_range, no_input, one_input, has_access,
  parse_authorization_values, parse_authorization_info,
}
use aah.Router.Route.Calls.{Callable}
use aah.Router.Route.Loops.{Concludes}
use aah.Router.Route.Access.{Granted, has_access_iff, has_access-Unknown}
use aah.Router.Route.Parse.{parse_authorization_info-Callable}

parse_roles :
    parse_authorization_values
      (codes "hasrole(manager)" ∷ codes "hasanyrole(user, admin)" ∷ [])
      b','
    ≡ ok (
        (codes "hasrole", codes "manager" ∷ [])
        ∷ (codes "hasanyrole", codes "user" ∷ codes "admin" ∷ [])
        ∷ [])
unfolding parse_authorization_values aah.Text.count aah.Text.index_byte aah.Text.split
    aah.Text.trim_space aah.Text.text_eq
parse_roles = refl

parse_two_inputs :
    parse_authorization_values (codes "hasrole(a, b)" ∷ []) b','
    ≡ err (one_input 1 (codes "hasrole"))
unfolding parse_authorization_values aah.Text.count aah.Text.index_byte aah.Text.split
    aah.Text.trim_space aah.Text.text_eq
parse_two_inputs = refl

parse_no_input :
    parse_authorization_values (codes "hasrole( )" ∷ []) b','
    ≡ err (no_input 1 (codes "hasrole( )"))
unfolding parse_authorization_values aah.Text.count aah.Text.index_byte aah.Text.split
    aah.Text.trim_space
parse_no_input = refl

-- brackets in the wrong order pass the count, and the slice between them is out of range
parse_swapped : parse_authorization_values (codes "hasrole)a(" ∷ []) b',' ≡ out_of_range
unfolding parse_authorization_values aah.Text.count aah.Text.index_byte
parse_swapped = refl

abbrev pat : AuthorizationInfo
pat = record {
  roles = codes "user" ∷ [];
  permissions = some (record { parts = (codes "news" ∷ []) ∷ [] }) ∷ [];
}

abbrev news : Permission
news = record { parts = (codes "news" ∷ []) ∷ [] }

abbrev either_rule : RouteAuthorization
either_rule = record {
  satisfy = codes "either";
  roles = (codes "hasanyrole", codes "admin" ∷ codes "editor" ∷ []) ∷ [];
  permissions = (codes "ispermitted", codes "news:read" ∷ []) ∷ [];
}

pat_granted :
    has_access (some either_rule) pat
    ≡ returns (
      true,
      record { func = codes "hasanyrole"; expected = codes "admin, editor"; got = codes "user" }
          ∷ [],
    )
unfolding has_access aah.Text.text_eq aah.Authz.Info.has_any_role aah.Authz.Permission.contains_any
    aah.Authz.Permission.contains aah.Authz.Info.is_permitted aah.Authz.Permission.new_permission
    aah.Text.is_str_empty aah.Text.split aah.Text.lower_byte aah.Authz.Permission.implies
    aah.Authz.Permission.contains_all aah.Text.join aah.Authz.Info.roles_text
pat_granted = refl

has_access_iff_example :
    Concludes (has_access (some either_rule) pat) (Granted either_rule pat (news ∷ []))
has_access_iff_example = has_access_iff either_rule pat (news ∷ []) refl tt tt

abbrev misspelt : RouteAuthorization
misspelt = record {
  satisfy = codes "either";
  roles = (codes "hasroles", codes "admin" ∷ []) ∷ [];
  permissions = [];
}

parse_misspelt :
    parse_authorization_values (codes "hasroles(admin)" ∷ []) b',' ≡ ok (misspelt.roles)
unfolding parse_authorization_values aah.Text.count aah.Text.index_byte aah.Text.split
    aah.Text.trim_space aah.Text.text_eq
parse_misspelt = refl

has_access-Unknown_example : has_access (some misspelt) pat ≡ returns (true, [])
has_access-Unknown_example =
    has_access-Unknown misspelt pat (((λ e. cc e), (λ e. cc e), (λ e. cc e)), tt) refl

abbrev own_section : AuthorizationSection
own_section = record {
  satisfy_value = some (codes "both");
  roles_list = some (codes "hasrole(manager)" ∷ []);
  permissions_list = none;
}

abbrev own_rule : RouteAuthorization
own_rule = record {
  satisfy = codes "both";
  roles = (codes "hasrole", codes "manager" ∷ []) ∷ [];
  permissions = (codes "ispermitted", codes "news:read" ∷ []) ∷ [];
}

parse_own : parse_authorization_info own_section either_rule ≡ ok own_rule
unfolding parse_authorization_info aah.Text.count aah.Text.index_byte aah.Text.split
    aah.Text.trim_space aah.Text.text_eq
parse_own = refl

parse_authorization_info-Callable_example :
    Callable own_rule.roles
    × Callable own_rule.permissions
    × (own_rule.satisfy ≡ codes "both" → (own_rule.roles ≢ []) × (own_rule.permissions ≢ []))
parse_authorization_info-Callable_example =
    parse_authorization_info-Callable own_section either_rule own_rule tt tt parse_own
