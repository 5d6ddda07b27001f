-- ===== src/Authz/Info/Roles.antt =====
-- Role checks of security/authz/authorization_info.go, and the order in which roles are kept.
use aah.Prelude.{
  ◌≡◌, ◌↔◌, ◌⊎◌, inl, inr, true, List, [], ◌∷◌, ◌++◌, arith, In, In-append_left, In-append_right,
  In-append,
}
use aah.Text.{Text}
use aah.Text.Equality.{text_eq_iff}
use aah.Authz.Permission.{Parts}
use aah.Authz.Permission.Contains.{Covers, contains_all_iff, contains_any_iff}
use aah.Authz.Info.{AuthorizationInfo, add_role, has_role, has_role_in, has_any_role, has_all_roles}

has_role_in_iff : (rs : Parts) (role : Text) → (has_role_in rs role ≡ true) ↔ In role rs
has_role_in_iff [] role = ground arith
has_role_in_iff (r ∷ rs) role = ground (arith, has_role_in_iff rs role, text_eq_iff r role)

-- `HasRole`, `HasAnyRole` and `HasAllRoles` ask for one role, for some of those given, and for all.
pub has_roles_iff :
    (a : AuthorizationInfo) (role : Text) (roles : List Text)
    → ((has_role a role ≡ true) ↔ In role a.roles)
      × ((has_any_role a roles ≡ true) ↔ ((v : Text) × In v roles × In v a.roles))
      × ((has_all_roles a roles ≡ true) ↔ Covers a.roles roles)
unfolding has_role has_any_role has_all_roles
has_roles_iff a role roles =
    (has_role_in_iff a.roles role, contains_any_iff a.roles roles, contains_all_iff a.roles roles)

In-add : (role : Text) (rs added : List Text) → In role (rs ++ added) ↔ (In role rs ⊎ In role added)
In-add role rs added = (
  In-append role rs added,
  λ e. elim e [ inl m ↦ In-append_left role rs added m | inr m ↦ In-append_right role rs added m ],
)

-- After `AddRole` the subject has the roles it had and those that were added, and no other.
pub has_role-add_role :
    (a : AuthorizationInfo) (added : List Text) (role : Text)
    → (has_role (add_role a added) role ≡ true) ↔ ((has_role a role ≡ true) ⊎ In role added)
unfolding has_role add_role
has_role-add_role a added role = ground (
  arith,
  has_role_in_iff (a.roles ++ added) role,
  has_role_in_iff a.roles role,
  In-add role a.roles added,
)
