-- ===== src/Router/Route/Calls.antt =====
-- What the calls of `HasAccess` find out of the subject.
use mathlib.Core.Path.{subst}
use aah.Prelude.{
  ◌≡◌, refl, sym, ◌∙◌, ◌↔◌, inl, inr, Bool, true, false, not, List, [], ◌∷◌, if◌then◌else◌,
  Bool-cases, All, any, In,
}
use aah.Prelude.Outcome.{Outcome, returns, ◌>>=◌}
use aah.Text.{Text, codes, text_eq}
use aah.Text.Equality.{text_eq_iff}
use aah.Authz.Permission.{Permission, Parsed, ok, err, implies, new_permission}
use aah.Authz.Permission.Contains.{Covers}
use aah.Authz.Info.{
  AuthorizationInfo, is_permitted, is_permitted_all, permissions_text, permission_strings, has_role,
  has_any_role, has_all_roles,
}
use aah.Authz.Info.Permitted.{Holds, is_permitted_p-any}
use aah.Authz.Info.Roles.{has_roles_iff}
use aah.Router.Route.{Entries, call_role, call_permission}

-- every entry has an input
abbrev pub Callable : Entries → Type 0
Callable [] = Unit
Callable ((fn, []) ∷ rest) = ⊥
Callable ((fn, _ ∷ _) ∷ rest) = Callable rest

abbrev pub HasFirst : AuthorizationInfo → List Text → Type 0
HasFirst a [] = ⊥
HasFirst a (v ∷ _) = In v a.roles

-- the subject has the roles that an entry asks for; a name that is none of the three asks for none
abbrev pub HasRoles : AuthorizationInfo → Text → List Text → Type 0
HasRoles a fn inputs =
    (fn ≡ codes "hasrole" → HasFirst a inputs)
    × (fn ≡ codes "hasanyrole" → (v : Text) × In v inputs × In v a.roles)
    × (fn ≡ codes "hasallroles" → Covers a.roles inputs)

-- one of the permissions implies what the text says
abbrev pub Permits : List Permission → Text → Type 0
Permits ps s = (q : Permission) × (new_permission s ≡ ok q) × (any (λ p. implies p q) ps ≡ true)

abbrev pub PermitsFirst : List Permission → List Text → Type 0
PermitsFirst ps [] = ⊥
PermitsFirst ps (v ∷ _) = Permits ps v

-- a call returns, and tells whether P holds
abbrev pub Decides : Outcome Bool → Type 0 → Type 0
Decides m P = (b : Bool) × (m ≡ returns b) × ((b ≡ true) ↔ P)

is_permitted-Decides :
    (a : AuthorizationInfo) (ps : List Permission) (s : Text)
    → Holds a ps
    → Decides (is_permitted a s) (Permits ps s)
unfolding is_permitted aah.Authz.Info.is_permitted_p
is_permitted-Decides a ps s h = go (new_permission s) refl
  where
    moved :
        (q q' : Permission)
        → ok q ≡ ok q'
        → any (λ p. implies p q') ps ≡ true
        → any (λ p. implies p q) ps ≡ true
    moved q q' e k = subst (λ x. any (λ p. implies p x) ps ≡ true) (sym (the_ok e)) k
      where
        the_ok : {x y : Permission} → ok x ≡ ok y → x ≡ y
        the_ok f = cc

    go : (r : Parsed) → new_permission s ≡ r → Decides (is_permitted a s) (Permits ps s)
    go (ok q) e = rw e (
      any (λ p. implies p q) ps,
      is_permitted_p-any a ps q h,
      (λ k. (q, refl, k), λ (q', e', k). moved q q' e' k),
    )
    go (err x) e = rw e (false, refl, (λ k. cc, λ (q', e', k). cc))

Decides-both :
    {P Q : Type 0} (m n : Outcome Bool)
    → Decides m P
    → Decides n Q
    → Decides (m >>= λ b. if not b then returns false else n) (P × Q)
Decides-both m n (true, e, f) (c, e', g) = rw e (c, e', (λ k. (f.0 refl, g.0 k), λ (p, q). g.1 q))
Decides-both m n (false, e, f) d = rw e (false, refl, (λ k. cc, λ (p, q). f.1 p))

is_permitted_all-Decides :
    (a : AuthorizationInfo) (ps : List Permission) (ss : List Text)
    → Holds a ps
    → Decides (is_permitted_all a ss) (All (Permits ps) ss)
unfolding is_permitted_all is_permitted
is_permitted_all-Decides a ps [] h = (true, refl, (λ _. tt, λ _. refl))
is_permitted_all-Decides a ps (s ∷ ss) h =
    Decides-both (is_permitted a s) (is_permitted_all a ss) (is_permitted-Decides a ps s h)
      (is_permitted_all-Decides a ps ss h)

Decides-iff : {P Q : Type 0} (m : Outcome Bool) → (P → Q) → (Q → P) → Decides m P → Decides m Q
Decides-iff m f g (b, e, h) = (b, e, (λ k. f (h.0 k), λ q. h.1 (g q)))

-- no text is two texts
named_twice : {P : Type 0} (fn s t : Text) → text_eq s t ≡ false → fn ≡ s → fn ≡ t → P
named_twice fn s t h e f =
    let k = (text_eq_iff s t).1 (sym e ∙ f) in let x : ⊥ = cc (h, k) in elim x [ ]

named_not : {P : Type 0} (fn s : Text) → text_eq fn s ≡ false → fn ≡ s → P
named_not fn s h e = let k = (text_eq_iff fn s).1 e in let x : ⊥ = cc (h, k) in elim x [ ]

pub call_role-Decides :
    (a : AuthorizationInfo) (fn : Text) (v : Text) (inputs : List Text)
    → Decides (call_role a true fn (v ∷ inputs)) (HasRoles a fn (v ∷ inputs))
unfolding call_role text_eq
call_role-Decides a fn v inputs = elim (Bool-cases (text_eq fn (codes "hasrole"))) [
  | inl e ↦
      let f = (text_eq_iff fn (codes "hasrole")).0 e in
      rw e (
        has_role a v,
        refl,
        (
          λ k. (
            λ _. (has_roles_iff a v []).0.0 k,
            named_twice fn (codes "hasrole") (codes "hasanyrole") refl f,
            named_twice fn (codes "hasrole") (codes "hasallroles") refl f,
          ),
          λ h. (has_roles_iff a v []).0.1 (h.0 f),
        ),
      )
  | inr e ↦ elim (Bool-cases (text_eq fn (codes "hasanyrole"))) [
    | inl e' ↦
        let f = (text_eq_iff fn (codes "hasanyrole")).0 e' in
        rw (e, e')
          (
            has_any_role a (v ∷ inputs),
            refl,
            (
              λ k. (
                named_not fn (codes "hasrole") e,
                λ _. (has_roles_iff a v (v ∷ inputs)).1.0 k,
                named_twice fn (codes "hasanyrole") (codes "hasallroles") refl f,
              ),
              λ h. (has_roles_iff a v (v ∷ inputs)).1.1 (h.1 f),
            ),
          )
    | inr e' ↦ elim (Bool-cases (text_eq fn (codes "hasallroles"))) [
      | inl e'' ↦
          let f = (text_eq_iff fn (codes "hasallroles")).0 e'' in
          rw (e, e', e'')
            (
              has_all_roles a (v ∷ inputs),
              refl,
              (
                λ k. (
                  named_not fn (codes "hasrole") e,
                  named_not fn (codes "hasanyrole") e',
                  λ _. (has_roles_iff a v (v ∷ inputs)).2.0 k,
                ),
                λ h. (has_roles_iff a v (v ∷ inputs)).2.1 (h.2 f),
              ),
            )
      | inr e'' ↦
          rw (e, e', e'')
            (
              true,
              refl,
              (
                λ _. (
                  named_not fn (codes "hasrole") e,
                  named_not fn (codes "hasanyrole") e',
                  named_not fn (codes "hasallroles") e'',
                ),
                λ _. refl,
              ),
            )
    ]
  ]
]

-- the same for a permission entry
abbrev pub HasPermissions : List Permission → Text → List Text → Type 0
HasPermissions ps fn inputs =
    (fn ≡ codes "ispermitted" → PermitsFirst ps inputs)
    × (fn ≡ codes "ispermittedall" → All (Permits ps) inputs)

pub call_permission-Decides :
    (a : AuthorizationInfo) (ps : List Permission) (fn : Text) (v : Text) (inputs : List Text)
    → Holds a ps
    → Decides (call_permission a true fn (v ∷ inputs)) (HasPermissions ps fn (v ∷ inputs))
unfolding call_permission text_eq
call_permission-Decides a ps fn v inputs h = elim (Bool-cases (text_eq fn (codes "ispermitted"))) [
  | inl e ↦
      let f = (text_eq_iff fn (codes "ispermitted")).0 e in
      rw e (
        Decides-iff (is_permitted a v)
          (λ k. (λ _. k, named_twice fn (codes "ispermitted") (codes "ispermittedall") refl f))
          (λ k. k.0 f) (is_permitted-Decides a ps v h))
  | inr e ↦ elim (Bool-cases (text_eq fn (codes "ispermittedall"))) [
    | inl e' ↦
        let f = (text_eq_iff fn (codes "ispermittedall")).0 e' in
        rw (e, e')
          (Decides-iff (is_permitted_all a (v ∷ inputs))
            (λ k. (named_not fn (codes "ispermitted") e, λ _. k)) (λ k. k.1 f)
            (is_permitted_all-Decides a ps (v ∷ inputs) h))
    | inr e' ↦
        rw (e, e')
          (
            true,
            refl,
            (
              λ _. (named_not fn (codes "ispermitted") e, named_not fn (codes "ispermittedall") e'),
              λ _. refl,
            ),
          )
  ]
]
