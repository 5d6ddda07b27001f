-- ===== src/Router/Route/Parse.antt =====
-- What the parser of a route's authorization promises to `HasAccess`.
use mathlib.Core.Path.{subst}
use aah.Prelude.{
  ℕ, ◌+◌, ◌≡◌, ◌≢◌, refl, ap, inl, inr, false, not, ◌&&◌, ◌||◌, List, [], ◌∷◌, arith, Option, none,
  some, if◌then◌else◌, Bool-cases, Option-cases, ◌==◌,
}
use aah.Text.{Text, codes, text_eq, is_nil, count, index_byte}
use aah.Text.Equality.{text_eq_iff}
use aah.Router.Route.{
  Entries, RouteAuthorization, AuthorizationSection, Parsed, ok, err, out_of_range, both_incomplete,
  put, entry_values, parse_entry, parse_values_from, parse_authorization_values, entries_or,
  text_or, parse_authorization_info, ◌then◌,
}
use aah.Router.Route.Calls.{Callable}

then-ok :
    {A B : Type 0} (m : Parsed A) (f : A → Parsed B) {b : B}
    → (m then f) ≡ ok b
    → (a : A) × (m ≡ ok a) × (f a ≡ ok b)
then-ok (ok a) f h = (a, refl, h)
then-ok (err e) f h = cc
then-ok both_incomplete f h = cc
then-ok out_of_range f h = cc

ok_inj : {A : Type 0} {x y : A} → ok x ≡ ok y → x ≡ y
ok_inj h = cc

entry_values-ne-nil :
    (pos delim : ℕ) (src : Text) (start end : ℕ) (values : List Text)
    → entry_values pos delim src start end ≡ ok values
    → values ≢ []
unfolding entry_values
entry_values-ne-nil pos delim src start end values h e = ground arith

Callable-put :
    (fn : Text) (values : List Text) (es : Entries)
    → values ≢ []
    → Callable es
    → Callable (put fn values es)
Callable-put fn [] es v c = elim (v refl) [ ]
Callable-put fn (x ∷ values) [] v c = tt
Callable-put fn (x ∷ values) ((g, y ∷ old) ∷ es) v c = elim (Bool-cases (text_eq g fn)) [
  | inl e ↦ rw e c
  | inr e ↦ rw e (Callable-put fn (x ∷ values) es v c)
]
Callable-put fn (x ∷ values) ((g, []) ∷ es) v c = elim c [ ]

parse_entry-ne-nil :
    (pos delim : ℕ) (src fn : Text) (values : List Text)
    → parse_entry pos delim src ≡ ok (fn, values)
    → values ≢ []
unfolding parse_entry
parse_entry-ne-nil pos delim src fn values h =
    elim (Bool-cases (not (count b'(' src == 1) || not (count b')' src == 1))) [
      | inl e ↦ cc (rw e at h)
      | inr e ↦ elim (Option-cases (index_byte src b'(')) [
        | inl n ↦ cc (rw (e, n) at h)
        | inr (start, p) ↦ elim (Option-cases (index_byte src b')')) [
          | inl n ↦ cc (rw (e, p, n) at h)
          | inr (end, q) ↦
              let (vs, f, g) =
                then-ok (entry_values pos delim src start end) _ (rw (e, p, q) at h) in
              subst (λ l. l ≢ []) (ap (λ x. x.1) (ok_inj g))
                (entry_values-ne-nil pos delim src start end vs f)
        ]
      ]
    ]

parse_values_from-Callable :
    (pos delim : ℕ) (info : Entries) (srcs : List Text) (es : Entries)
    → Callable info
    → parse_values_from pos delim info srcs ≡ ok es
    → Callable es
unfolding parse_values_from
parse_values_from-Callable pos delim info [] es c h = subst Callable (ok_inj h) c
parse_values_from-Callable pos delim info (src ∷ srcs) es c h =
    let ((fn, values), e, f) = then-ok (parse_entry pos delim src) _ h in
    parse_values_from-Callable (pos + 1) delim (put fn values info) srcs es
      (Callable-put fn values info (parse_entry-ne-nil pos delim src fn values e) c) f

entries_or-Callable :
    (o : Option (List Text)) (delim : ℕ) (parent es : Entries)
    → Callable parent
    → entries_or o delim parent ≡ ok es
    → Callable es
unfolding parse_authorization_values
entries_or-Callable none delim parent es c h = subst Callable (ok_inj h) c
entries_or-Callable (some []) delim parent es c h = subst Callable (ok_inj h) c
entries_or-Callable (some (v ∷ vs)) delim parent es c h =
    parse_values_from-Callable 0 delim [] (v ∷ vs) es tt h

ne_nil : {A : Type 0} (xs : List A) → is_nil xs ≡ false → xs ≢ []
ne_nil [] h e = cc
ne_nil (x ∷ xs) h e = cc

both_given :
    (s : Text) (rs ps : Entries)
    → (text_eq s (codes "both") && (is_nil rs || is_nil ps)) ≡ false
    → s ≡ codes "both"
    → (rs ≢ []) × (ps ≢ [])
both_given s rs ps h e = ground (arith, text_eq_iff s (codes "both"), ne_nil rs, ne_nil ps)

-- An authorization that is read below a parent whose entries all have an input has an input in every
-- entry of its own, so that `HasAccess` never reads beyond the inputs; where it asks for both, it
-- lists roles and permissions.
pub parse_authorization_info-Callable :
    (cfg : AuthorizationSection) (parent i : RouteAuthorization)
    → Callable parent.roles
    → Callable parent.permissions
    → parse_authorization_info cfg parent ≡ ok i
    → Callable i.roles
      × Callable i.permissions
      × (i.satisfy ≡ codes "both" → (i.roles ≢ []) × (i.permissions ≢ []))
unfolding parse_authorization_info
parse_authorization_info-Callable cfg parent i c d h =
    let (rs, e, h') = then-ok (entries_or cfg.roles_list b',' parent.roles) _ h in
    let (ps, f, h'') = then-ok (entries_or cfg.permissions_list b'|' parent.permissions) _ h' in
    elim (Bool-cases (
      text_eq (text_or cfg.satisfy_value parent.satisfy) (codes "both")
      && (is_nil rs || is_nil ps))) [
        | inl b ↦ cc (rw b at h'')
        | inr b ↦
            let same = ok_inj (rw b at h'') in
            subst
              (λ x.
                Callable x.roles
                × Callable x.permissions
                × (x.satisfy ≡ codes "both" → (x.roles ≢ []) × (x.permissions ≢ [])))
              same
              (
                entries_or-Callable cfg.roles_list b',' parent.roles rs c e,
                entries_or-Callable cfg.permissions_list b'|' parent.permissions ps d f,
                both_given (text_or cfg.satisfy_value parent.satisfy) rs ps b,
              )
      ]
