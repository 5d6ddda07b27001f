-- ===== src/Authz/Info/Permitted.antt =====
-- What `IsPermittedp`, `IsPermittedAll` and `Merge` answer, and how a nil pointer shows.
use aah.Prelude.{
  ◌≡◌, refl, sym, ap, ◌∙◌, ◌↔◌, inl, inr, Bool, true, false, List, [], ◌∷◌, ◌++◌, map, none, some,
  arith, if◌then◌else◌, Bool-cases, any, All,
}
use aah.Prelude.Outcome.{returns, panics, ◌>>=◌, >>=-returns}
use aah.Text.{Text}
use aah.Authz.Permission.{Permission, err, PermissionError, implies, new_permission}
use aah.Authz.Permission.Order.{implies_trans}
use aah.Authz.Info.{
  Pointer, AuthorizationInfo, copy_permissions, merge, add_permission, add_permission_string,
  permitted_by, is_permitted_p, is_permitted_all, is_permitted,
}

-- The subject holds these permissions and no nil pointer.
abbrev pub Holds : AuthorizationInfo → List Permission → Type 0
Holds a ps = a.permissions ≡ map some ps

permitted_by-any :
    (ps : List Permission) (q : Permission)
    → permitted_by (map some ps) q ≡ returns (any (λ p. implies p q) ps)
unfolding permitted_by
permitted_by-any [] q = refl
permitted_by-any (p ∷ ps) q = ground (arith, permitted_by-any ps q)

-- A subject with no nil pointer is permitted exactly what one of its permissions implies.
pub is_permitted_p-any :
    (a : AuthorizationInfo) (ps : List Permission) (q : Permission)
    → Holds a ps
    → is_permitted_p a (some q) ≡ returns (any (λ p. implies p q) ps)
unfolding is_permitted_p
is_permitted_p-any a ps q h = rw h (permitted_by-any ps q)

any-implies_trans :
    (ps : List Permission) (q r : Permission)
    → implies q r ≡ true
    → any (λ p. implies p q) ps ≡ true
    → any (λ p. implies p r) ps ≡ true
any-implies_trans [] q r h k = cc
any-implies_trans (p ∷ ps) q r h k = elim (Bool-cases (implies p q)) [
  | inl e ↦ rw (implies_trans p q r e h) refl
  | inr e ↦ ground (arith, any-implies_trans ps q r h (rw e at k))
]

-- A subject that is permitted something is permitted all that this implies.
pub is_permitted_p-implies :
    (a : AuthorizationInfo) (ps : List Permission) (q r : Permission)
    → Holds a ps
    → implies q r ≡ true
    → is_permitted_p a (some q) ≡ returns true
    → is_permitted_p a (some r) ≡ returns true
is_permitted_p-implies a ps q r h i k =
    is_permitted_p-any a ps r h
    ∙ ap returns (any-implies_trans ps q r i (returned (sym (is_permitted_p-any a ps q h) ∙ k)))
  where
    returned : {b c : Bool} → returns b ≡ returns c → b ≡ c
    returned e = cc

permitted_by-append :
    (ps qs : List Pointer) (q : Permission)
    → permitted_by (ps ++ qs) q
      ≡ (permitted_by ps q >>= λ b. if b then returns true else permitted_by qs q)
unfolding permitted_by
permitted_by-append [] qs q = refl
permitted_by-append (none ∷ ps) qs q = refl
permitted_by-append (some p ∷ ps) qs q = ground (arith, permitted_by-append ps qs q)

copy_permissions-eq : (ps cs : List Pointer) → copy_permissions ps ≡ returns cs → cs ≡ ps
unfolding copy_permissions
copy_permissions-eq [] cs h = ground arith
copy_permissions-eq (none ∷ ps) cs h = cc
copy_permissions-eq (some p ∷ ps) cs h =
    let (rest, e, f) = >>=-returns (copy_permissions ps) _ h in
    ground (arith, copy_permissions-eq ps rest e)

-- The merge of two infos permits what the first permits and, where the first denies, what the
-- second permits; its roles are those of the first and then those of the second.
pub is_permitted_p-merge :
    (a b m : AuthorizationInfo) (q : Permission)
    → merge a b ≡ returns m
    → (is_permitted_p m (some q) ≡ (
        is_permitted_p a (some q) >>= λ granted.
        if granted then returns true else is_permitted_p b (some q)))
      × (m.roles ≡ a.roles ++ b.roles)
unfolding merge is_permitted_p
is_permitted_p-merge a b m q h =
    let (mine, e, h') = >>=-returns (copy_permissions a.permissions) _ h in
    let (theirs, f, h'') = >>=-returns (copy_permissions b.permissions) _ h' in
    let same_mine = copy_permissions-eq a.permissions mine e in
    let same_theirs = copy_permissions-eq b.permissions theirs f in
    ground (arith, permitted_by-append a.permissions b.permissions q)

-- Adding permissions, by pointer and nil among them, takes nothing away.
pub is_permitted_p-add_permission :
    (a : AuthorizationInfo) (ps : List Pointer) (q : Permission)
    → is_permitted_p a (some q) ≡ returns true
    → is_permitted_p (add_permission a ps) (some q) ≡ returns true
unfolding is_permitted_p add_permission
is_permitted_p-add_permission a ps q h = rw (permitted_by-append a.permissions ps q, h) refl

-- `AddPermissionString` of a string that does not parse leaves a nil pointer behind: any later
-- check that the permissions before it do not grant panics.
pub add_permission_string_invalid :
    (a : AuthorizationInfo) (s : Text) (e : PermissionError) (q : Permission)
    → new_permission s ≡ err e
    → is_permitted_p a (some q) ≡ returns false
    → is_permitted_p (add_permission_string a (s ∷ [])) (some q) ≡ panics
unfolding is_permitted_p add_permission_string add_permission
add_permission_string_invalid a s e q h k =
    rw h (permitted_by-append a.permissions (none ∷ []) q ∙ rw k refl)

-- `IsPermittedAll` of strings is `IsPermitted` of each, up to the first that is denied or panics.
pub is_permitted_all_iff :
    (a : AuthorizationInfo) (ss : List Text)
    → (is_permitted_all a ss ≡ returns true) ↔ All (λ s. is_permitted a s ≡ returns true) ss
unfolding is_permitted_all is_permitted
is_permitted_all_iff a [] = ground arith
is_permitted_all_iff a (s ∷ ss) = ground (arith, is_permitted_all_iff a ss)
