-- ===== src/Authz/Info.antt =====
-- security/authz/authorization_info.go: the roles and permissions of a subject. A permission is
-- held by pointer, and `none` is a nil pointer: a method call through it panics.
pub mod Permitted
pub mod Remove
pub mod Roles
use aah.Prelude.{ℕ, Bool, true, false, not, List, [], ◌∷◌, ◌++◌, Option, none, some, if◌then◌else◌}
use aah.Prelude.Outcome.{Outcome, returns, panics, ◌>>=◌}
use aah.Text.{Text, codes, text_eq, join}
use aah.Authz.Permission.{
  Parts, Permission, Parsed, ok, err, contains_all, contains_any, implies, equals, string,
  new_permission,
}

abbrev pub Pointer : Type 0
Pointer = Option Permission

pub record AuthorizationInfo : Type 0 where
  pub roles : Parts
  pub permissions : List Pointer

unfoldable pub new_authorization_info : AuthorizationInfo
new_authorization_info = record { roles = []; permissions = [] }

-- one loop of `Merge`: a new permission for each, with the parts of the old one
unfoldable pub copy_permissions : List Pointer → Outcome (List Pointer)
copy_permissions [] = returns []
copy_permissions (none ∷ ps) = panics
copy_permissions (some p ∷ ps) = do
  rest ← copy_permissions ps
  returns (some (record { parts = p.parts }) ∷ rest)

unfoldable pub merge : AuthorizationInfo → AuthorizationInfo → Outcome AuthorizationInfo
unfolding copy_permissions
merge a auth_info = do
  mine ← copy_permissions a.permissions
  theirs ← copy_permissions auth_info.permissions
  returns (record { roles = a.roles ++ auth_info.roles; permissions = mine ++ theirs })

unfoldable pub add_role : AuthorizationInfo → List Text → AuthorizationInfo
add_role a roles = record a { roles = a.roles ++ roles }

unfoldable pub add_permission : AuthorizationInfo → List Pointer → AuthorizationInfo
add_permission a permissions = record a { permissions = a.permissions ++ permissions }

abbrev pub kept : Permission → Permission → List Pointer → List Pointer
kept p stored rest = if not (equals p stored) then some stored ∷ rest else rest

-- the inner loop of `RemovePermission`, for one stored permission
unfoldable pub keep_each : List Pointer → Pointer → Outcome (List Pointer)
keep_each [] stored = returns []
keep_each (none ∷ ps) stored = panics
keep_each (some p ∷ ps) none = panics
keep_each (some p ∷ ps) (some stored) = do
  rest ← keep_each ps (some stored)
  returns (kept p stored rest)

-- its outer loop
unfoldable pub keep_all : List Pointer → List Pointer → Outcome (List Pointer)
unfolding keep_each
keep_all permissions [] = returns []
keep_all permissions (stored ∷ rest) = do
  here ← keep_each permissions stored
  later ← keep_all permissions rest
  returns (here ++ later)

unfoldable pub remove_permission : AuthorizationInfo → List Pointer → Outcome AuthorizationInfo
unfolding keep_all
remove_permission a permissions = do
  n ← keep_all permissions a.permissions
  returns (record a { permissions = n })

-- `p, _ := NewPermission(ps)`: the error is dropped, and the pointer is nil
abbrev pub pointer : Parsed → Pointer
pointer (ok p) = some p
pointer (err _) = none

unfoldable pub add_permission_string : AuthorizationInfo → List Text → AuthorizationInfo
unfolding add_permission
add_permission_string a [] = a
add_permission_string a (ps ∷ rest) =
    add_permission_string (add_permission a (pointer (new_permission ps) ∷ [])) rest

unfoldable pub remove_permission_string : AuthorizationInfo → List Text → Outcome AuthorizationInfo
unfolding remove_permission
remove_permission_string a [] = returns a
remove_permission_string a (ps ∷ rest) = do
  next ← remove_permission a (pointer (new_permission ps) ∷ [])
  remove_permission_string next rest

abbrev has_role_in : Parts → Text → Bool
has_role_in [] role = false
has_role_in (r ∷ rs) role = if text_eq r role then true else has_role_in rs role

unfoldable pub has_role : AuthorizationInfo → Text → Bool
has_role a role = has_role_in a.roles role

unfoldable pub has_any_role : AuthorizationInfo → List Text → Bool
has_any_role a roles = contains_any a.roles roles

unfoldable pub has_all_roles : AuthorizationInfo → List Text → Bool
has_all_roles a roles = contains_all a.roles roles

-- the loop of `IsPermittedp`
unfoldable pub permitted_by : List Pointer → Permission → Outcome Bool
permitted_by [] permission = returns false
permitted_by (none ∷ ps) permission = panics
permitted_by (some p ∷ ps) permission =
    if implies p permission then returns true else permitted_by ps permission

unfoldable pub is_permitted_p : AuthorizationInfo → Pointer → Outcome Bool
unfolding permitted_by
is_permitted_p a none = returns false
is_permitted_p a (some permission) = permitted_by a.permissions permission

unfoldable pub is_permitted : AuthorizationInfo → Text → Outcome Bool
unfolding is_permitted_p
is_permitted a permission = is_permitted_p a (pointer (new_permission permission))

unfoldable pub is_permitted_all_p : AuthorizationInfo → List Pointer → Outcome Bool
unfolding is_permitted_p
is_permitted_all_p a [] = returns true
is_permitted_all_p a (permission ∷ rest) = do
  yes' ← is_permitted_p a permission
  if not yes' then returns false else is_permitted_all_p a rest

unfoldable pub is_permitted_all : AuthorizationInfo → List Text → Outcome Bool
unfolding is_permitted_p
is_permitted_all a [] = returns true
is_permitted_all a (permission ∷ rest) = do
  yes' ← is_permitted_p a (pointer (new_permission permission))
  if not yes' then returns false else is_permitted_all a rest

unfoldable pub roles_text : AuthorizationInfo → Text
roles_text a = join (codes ", ") a.roles

unfoldable pub permission_strings : List Pointer → Outcome (List Text)
permission_strings [] = returns []
permission_strings (none ∷ ps) = panics
permission_strings (some p ∷ ps) = do rest ← permission_strings ps; returns (string p ∷ rest)

unfoldable pub permissions_text : AuthorizationInfo → Outcome Text
unfolding permission_strings
permissions_text a = do
  strings ← permission_strings a.permissions
  returns (join (codes "|") strings)
