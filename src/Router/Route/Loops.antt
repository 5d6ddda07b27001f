-- ===== src/Router/Route/Loops.antt =====
-- What the two loops of `HasAccess` find out of the subject.
use aah.Prelude.{◌≡◌, refl, ◌↔◌, Bool, true, false, List, [], ◌∷◌, map, some, All}
use aah.Prelude.Outcome.{Outcome, returns}
use aah.Text.{Text}
use aah.Authz.Permission.{Permission}
use aah.Authz.Info.{AuthorizationInfo, permissions_text, permission_strings}
use aah.Authz.Info.Permitted.{Holds}
use aah.Router.Route.{Entries, Reason, call_role, call_permission, check_roles, check_permissions}
use aah.Router.Route.Calls.{
  call_role-Decides, call_permission-Decides, Callable, HasRoles, Decides, HasPermissions,
}

-- a check of entries returns with reasons, and tells whether P holds
abbrev pub Concludes : Outcome (Bool × List Reason) → Type 0 → Type 0
Concludes m P = (b : Bool) × (reasons : List Reason) × (m ≡ returns (b, reasons)) × ((b ≡ true) ↔ P)

abbrev pub AllRoles : AuthorizationInfo → Entries → Type 0
AllRoles a = All (λ e. HasRoles a (e.0) (e.1))

abbrev pub AllPermissions : List Permission → Entries → Type 0
AllPermissions ps = All (λ e. HasPermissions ps (e.0) (e.1))

pub check_roles-Concludes :
    (a : AuthorizationInfo) (es : Entries)
    → Callable es
    → Concludes (check_roles a true es) (AllRoles a es)
unfolding check_roles
check_roles-Concludes a [] c = (true, [], refl, (λ _. tt, λ _. refl))
check_roles-Concludes a ((fn, v ∷ inputs) ∷ es) c =
    go (call_role-Decides a fn v inputs) (check_roles-Concludes a es c)
  where
    go :
        Decides (call_role a true fn (v ∷ inputs)) (HasRoles a fn (v ∷ inputs))
        → Concludes (check_roles a true es) (AllRoles a es)
        → Concludes
            (check_roles a true ((fn, v ∷ inputs) ∷ es))
            (AllRoles a ((fn, v ∷ inputs) ∷ es))
    go (true, e, f) (b, rs, e', g) = rw e (b, rs, e', (λ k. (f.0 refl, g.0 k), λ (p, q). g.1 q))
    go (false, e, f) _ = rw e (false, _, refl, (λ k. cc, λ (p, q). f.1 p))
check_roles-Concludes a ((fn, []) ∷ es) c = elim c [ ]

permission_strings-returns :
    (ps : List Permission) → (ss : List Text) × (permission_strings (map some ps) ≡ returns ss)
unfolding permission_strings
permission_strings-returns [] = ([], refl)
permission_strings-returns (p ∷ ps) = let (ss, e) = permission_strings-returns ps in rw e (_, refl)

permissions_text-returns :
    (a : AuthorizationInfo) (ps : List Permission)
    → Holds a ps
    → (t : Text) × (permissions_text a ≡ returns t)
unfolding permissions_text
permissions_text-returns a ps h = let (ss, e) = permission_strings-returns ps in rw (h, e) (_, refl)

pub check_permissions-Concludes :
    (a : AuthorizationInfo) (ps : List Permission) (es : Entries)
    → Holds a ps
    → Callable es
    → Concludes (check_permissions a true es) (AllPermissions ps es)
unfolding check_permissions
check_permissions-Concludes a ps [] h c = (true, [], refl, (λ _. tt, λ _. refl))
check_permissions-Concludes a ps ((fn, v ∷ inputs) ∷ es) h c =
    go (call_permission-Decides a ps fn v inputs h) (check_permissions-Concludes a ps es h c)
      (permissions_text-returns a ps h)
  where
    go :
        Decides (call_permission a true fn (v ∷ inputs)) (HasPermissions ps fn (v ∷ inputs))
        → Concludes (check_permissions a true es) (AllPermissions ps es)
        → ((t : Text) × (permissions_text a ≡ returns t))
        → Concludes
            (check_permissions a true ((fn, v ∷ inputs) ∷ es))
            (AllPermissions ps ((fn, v ∷ inputs) ∷ es))
    go (true, e, f) (b, rs, e', g) _ = rw e (b, rs, e', (λ k. (f.0 refl, g.0 k), λ (p, q). g.1 q))
    go (false, e, f) _ (t, w) = rw (e, w) (false, _, refl, (λ k. cc, λ (p, q). f.1 p))
check_permissions-Concludes a ps ((fn, []) ∷ es) h c = elim c [ ]
