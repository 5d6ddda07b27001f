-- ===== src/Router/Route/Access.antt =====
-- What `HasAccess` grants, whatever order the maps are visited in.
use mathlib.Core.Path.{subst}
use aah.Prelude.{
  ◌≡◌, ◌≢◌, refl, sym, ◌↔◌, ◌⊎◌, inl, inr, Bool, true, false, not, ◌&&◌, ◌||◌, List, [], ◌∷◌, ◌++◌,
  arith, some, if◌then◌else◌, Bool-cases, and_true, All,
}
use aah.Prelude.Outcome.{returns, ◌>>=◌}
use aah.Text.{Text, codes, is_nil}
use aah.Text.Equality.{text_eq_iff}
use aah.Authz.Permission.{Permission}
use aah.Authz.Info.{AuthorizationInfo}
use aah.Authz.Info.Permitted.{Holds}
use aah.Router.Route.{
  Entries, RouteAuthorization, call_role, check_roles, check_permissions, satisfy_either, decide,
  has_access,
}
use aah.Router.Route.Calls.{Callable}
use aah.Router.Route.Loops.{
  Concludes, AllRoles, AllPermissions, check_roles-Concludes, check_permissions-Concludes,
}

-- all that the route asks for, or one of its two lists where it asks for either and has both
abbrev pub Granted : RouteAuthorization → AuthorizationInfo → List Permission → Type 0
Granted i a ps =
    (AllRoles a i.roles × AllPermissions ps i.permissions)
    ⊎ ((i.satisfy ≡ codes "either")
        × (i.roles ≢ [])
        × (i.permissions ≢ [])
        × (AllRoles a i.roles ⊎ AllPermissions ps i.permissions))

satisfy_either_iff :
    (i : RouteAuthorization) → (satisfy_either i ≡ true) ↔ (i.satisfy ≡ codes "either")
unfolding satisfy_either
satisfy_either_iff i = text_eq_iff i.satisfy (codes "either")

is_nil_iff : (es : Entries) → (is_nil es ≡ true) ↔ (es ≡ [])
is_nil_iff [] = ground arith
is_nil_iff (e ∷ es) = ground arith

decided :
    {P Q N M S : Type 0} (s n m b c : Bool)
    → ((s ≡ true) ↔ S)
    → ((n ≡ true) ↔ N)
    → ((m ≡ true) ↔ M)
    → ((b ≡ true) ↔ P)
    → ((c ≡ true) ↔ Q)
    → (N → P)
    → (M → Q)
    → ((if s then (if n then c else if m then b else b || c) else b && c) ≡ true)
      ↔ ((P × Q) ⊎ (S × (N → ⊥) × (M → ⊥) × (P ⊎ Q)))
decided s n m b c hs hn hm hb hc np mq = ground arith

decide_iff :
    (i : RouteAuthorization) (a : AuthorizationInfo) (ps : List Permission) (b c : Bool)
    → ((b ≡ true) ↔ AllRoles a i.roles)
    → ((c ≡ true) ↔ AllPermissions ps i.permissions)
    → (decide i b c ≡ true) ↔ Granted i a ps
unfolding decide
decide_iff i a ps b c f g =
    decided (satisfy_either i) (is_nil i.roles) (is_nil i.permissions) b c (satisfy_either_iff i)
      (is_nil_iff i.roles) (is_nil_iff i.permissions) f g (λ e. subst (AllRoles a) (sym e) tt)
      (λ e. subst (AllPermissions ps) (sym e) tt)

nothing_asked :
    (i : RouteAuthorization) (a : AuthorizationInfo) (ps : List Permission)
    → (is_nil i.roles && is_nil i.permissions) ≡ true
    → Granted i a ps
nothing_asked i a ps e =
    let (r, p) = and_true (is_nil i.roles) (is_nil i.permissions) e in
    inl (
      subst (AllRoles a) (sym ((is_nil_iff i.roles).0 r)) tt,
      subst (AllPermissions ps) (sym ((is_nil_iff i.permissions).0 p)) tt,
    )

refused :
    (i : RouteAuthorization) (b c : Bool)
    → (not (satisfy_either i) && not b) ≡ true
    → decide i b c ≡ true
    → false ≡ true
unfolding decide
refused i b c q k = ground arith

-- both loops, where the first fails fast or not
checked :
    (i : RouteAuthorization) (a : AuthorizationInfo) (ps : List Permission)
    → Concludes (check_roles a true i.roles) (AllRoles a i.roles)
    → Concludes (check_permissions a true i.permissions) (AllPermissions ps i.permissions)
    → Concludes
        (check_roles a true i.roles >>= λ x.
          if not (satisfy_either i) && not (x.0)
          then returns (false, x.1)
          else (check_permissions a true i.permissions >>= λ y.
              returns (decide i (x.0) (y.0), x.1 ++ y.1)))
        (Granted i a ps)
checked i a ps (b, rs, e, f) (c, rs', e', g) = elim (Bool-cases (not (satisfy_either i) && not b)) [
  | inl q ↦
      rw (e, q) (false, rs, refl, (λ k. cc, λ k. refused i b c q ((decide_iff i a ps b c f g).1 k)))
  | inr q ↦ rw (e, q, e') (decide i b c, rs ++ rs', refl, decide_iff i a ps b c f g)
]

-- For a subject without nil permissions, and entries that all have an input, `HasAccess` returns: it
-- grants exactly where the subject has all the roles and permissions asked for, or all of one of the
-- two lists where both are given and the route asks for either. A function that is not one of the
-- five asks for nothing.
pub has_access_iff :
    (i : RouteAuthorization) (a : AuthorizationInfo) (ps : List Permission)
    → Holds a ps
    → Callable i.roles
    → Callable i.permissions
    → Concludes (has_access (some i) a) (Granted i a ps)
unfolding has_access
has_access_iff i a ps h c d = elim (Bool-cases (is_nil i.roles && is_nil i.permissions)) [
  | inl e ↦ rw e (true, [], refl, (λ _. nothing_asked i a ps e, λ _. refl))
  | inr e ↦ rw e (
      checked i a ps (check_roles-Concludes a i.roles c)
        (check_permissions-Concludes a ps i.permissions h d))
]

abbrev pub Unknown : Text → Type 0
Unknown fn = (fn ≢ codes "hasrole") × (fn ≢ codes "hasanyrole") × (fn ≢ codes "hasallroles")

Unknown-check_roles :
    (a : AuthorizationInfo) (es : Entries)
    → All (λ e. Unknown (e.0)) es
    → check_roles a true es ≡ returns (true, [])
unfolding check_roles call_role
Unknown-check_roles a [] u = refl
Unknown-check_roles a ((fn, inputs) ∷ es) ((p, q, r), u) = ground (
  arith,
  text_eq_iff fn (codes "hasrole"),
  text_eq_iff fn (codes "hasanyrole"),
  text_eq_iff fn (codes "hasallroles"),
  Unknown-check_roles a es u,
)

-- A route whose roles name no function of the three, as under a misspelt name, and that lists no
-- permissions is open to every subject.
pub has_access-Unknown :
    (i : RouteAuthorization) (a : AuthorizationInfo)
    → All (λ e. Unknown (e.0)) i.roles
    → i.permissions ≡ []
    → has_access (some i) a ≡ returns (true, [])
unfolding has_access check_permissions decide
has_access-Unknown i a u h = rw (Unknown-check_roles a i.roles u, h) (ground arith)
