-- ===== src/Router/Tree/Insert/Built.antt =====
-- The trees that calls of `add` build, for paths that start with a slash, as every path of a route.
use mathlib.Core.Path.{subst, ap₂}
use mathlib.Core.List.{append_cancel_left}
use aah.Prelude.{
  ◌≡◌, refl, sym, ap, ◌∙◌, ◌↔◌, ◌⊎◌, inl, inr, List, [], ◌∷◌, Option, none, some, Bool, In,
  some_inj,
}
use aah.Prelude.Outcome.{Outcome, returns}
use aah.Text.{Text, to_lower}
use aah.Router.Tree.{Node, node, Edges, nil, cons, info, slash_byte}
use aah.Router.Tree.Insert.{AddError, Tree, new_root, add, scan}
use aah.Router.Tree.Insert.Binds.{
  Binds, BindsIn, Keyed, KeyedEdges, IsRoot, IsEdge-first, BindsIn-nil, NoneAt-BindsIn,
}
use aah.Router.Tree.Insert.Steps.{append_self}
use aah.Router.Tree.Insert.Adds.{key, scan-Grows}

module _ {R : Type 0} where
  -- a node that starts with the byte, among edges that do not
  apart-BindsIn :
      (k : Text) (v w : R) (n : Node R) (es : Edges R)
      → KeyedEdges (cons n es)
      → Binds k v n
      → BindsIn k w es
      → ⊥
  apart-BindsIn k v w n es (g, _, apart, ks) a b =
      let (k', e) = IsEdge-first k v n g a in
      NoneAt-BindsIn (info n).idx k' w es ks apart (subst (λ (x : Text). BindsIn x w es) e b)

  -- the add-as-a-step theorem below is about trees that satisfy this
  abbrev pub IsMap : Tree R → Type 0
  IsMap t = Keyed t.root × IsRoot t.root

  -- For a tree with its invariant and a path that starts with a slash, `add` returns, and the tree keeps
  -- its invariant. Without an error the path's text had no route and now has the new one; with an
  -- error nothing is bound. All other texts keep their routes.
  pub add_refines :
      (t : Tree R) (p : Text) (r : R)
      → IsMap t
      → (t' : Tree R) × (e : Option AddError) × (add t (slash_byte ∷ p) (some r) ≡ returns (t', e))
        × IsMap t'
        × ((k : Text) (v : R)
            → Binds k v t'.root
              ↔ (Binds k v t.root ⊎ ((e ≡ none) × (k ≡ slash_byte ∷ key p) × (r ≡ v))))
        × (e ≡ none → (v : R) → Binds (slash_byte ∷ key p) v t.root → ⊥)
  unfolding add scan aah.Text.lower_byte
  add_refines t p r (ks, i) =
      let (n, e, f, m) = scan-Grows (some r) [] p (key p) t.root ks i refl in
      rw f (
        _,
        e,
        refl,
        (m.keyed, m.root),
        (λ k v. (
          (λ b. elim ((m.binds k v).0 b) [
            | inl o ↦ inl o
            | inr (x, y, z) ↦ inr (x, y, some_inj z)
          ]),
          (λ b. elim b [
            | inl o ↦ (m.binds k v).1 (inl o)
            | inr (x, y, z) ↦ (m.binds k v).1 (inr (x, y, ap some z))
          ]),
        )),
        (λ x v b. m.fresh x r v refl b),
      )

  mutual
    one_route : (k : Text) (v w : R) (n : Node R) → Keyed n → Binds k v n → Binds k w n → v ≡ w
    one_route k v w (node inf es) ks (inl (_, a)) (inl (_, b)) = some_inj (sym a ∙ b)
    one_route k v w (node inf es) ks (inl (a, _)) (inr (k', b, x)) =
        elim (BindsIn-nil w es ks
          (subst (λ (y : Text). BindsIn y w es) (append_self inf.label k' (sym a ∙ b)) x)) [ ]
    one_route k v w (node inf es) ks (inr (k', b, x)) (inl (a, _)) =
        elim (BindsIn-nil v es ks
          (subst (λ (y : Text). BindsIn y v es) (append_self inf.label k' (sym a ∙ b)) x)) [ ]
    one_route k v w (node inf es) ks (inr (k', a, x)) (inr (k'', b, y)) =
        one_route_in k' v w es ks x
          (subst (λ (z : Text). BindsIn z w es) (append_cancel_left inf.label k'' k' (sym b ∙ a)) y)

    one_route_in :
        (k : Text) (v w : R) (es : Edges R)
        → KeyedEdges es
        → BindsIn k v es
        → BindsIn k w es
        → v ≡ w
    one_route_in k v w nil ks a b = elim a [ ]
    one_route_in k v w (cons n es) (_, kn, _, _) (inl a) (inl b) = one_route k v w n kn a b
    one_route_in k v w (cons n es) (g, kn, apart, ks) (inl a) (inr b) =
        elim (apart-BindsIn k v w n es (g, kn, apart, ks) a b) [ ]
    one_route_in k v w (cons n es) (g, kn, apart, ks) (inr a) (inl b) =
        elim (apart-BindsIn k w v n es (g, kn, apart, ks) b a) [ ]
    one_route_in k v w (cons n es) (_, _, _, ks) (inr a) (inr b) = one_route_in k v w es ks a b

  -- the calls of `add` on a new tree, with what those without an error bound
  pub data Built : Tree R → List (Text × R) → Type 0 where
    start :
        (slash : Bool)
        → Built (record { traling_slash = slash; max_params = 0; root = new_root R }) []
    accepted :
        {t t' : Tree R} {kvs : List (Text × R)} (p : Text) (r : R)
        → Built t kvs
        → add t (slash_byte ∷ p) (some r) ≡ returns (t', none)
        → Built t' ((slash_byte ∷ key p, r) ∷ kvs)
    rejected :
        {t t' : Tree R} {kvs : List (Text × R)} (p : Text) (r : R) (e : AddError)
        → Built t kvs
        → add t (slash_byte ∷ p) (some r) ≡ returns (t', some e)
        → Built t' kvs

  same_step :
      {t1 t2 : Tree R} {e1 e2 : Option AddError} {m : Outcome (Tree R × Option AddError)}
      → m ≡ returns (t1, e1)
      → m ≡ returns (t2, e2)
      → (t1 ≡ t2) × (e1 ≡ e2)
  same_step a b = (cc (a, b), cc (a, b))

  bound_by :
      (t : Tree R) (kvs : List (Text × R))
      → Built t kvs
      → IsMap t × ((k : Text) (v : R) → Binds k v t.root ↔ In (k, v) kvs)
  bound_by t kvs (start slash) = (
    (tt, inl (refl, refl, refl)),
    λ k v. ((λ b. elim b [ inl (_, h) ↦ absurd (cc h) | inr (_, _, x) ↦ x ]), (λ b. elim b [ ])),
  )
  bound_by t' kvs' (accepted {t = t} {kvs = kvs} p r b f) =
      let (i, h) = bound_by t kvs b in
      let (t1, e, g, i1, binds, _) = add_refines t p r i in
      let (same, ok) = same_step f g in
      (
        subst IsMap (sym same) i1,
        λ k v. (
          (λ x. elim ((binds k v).0 (subst (λ (y : Tree R). Binds k v y.root) same x)) [
            | inl o ↦ inr ((h k v).0 o)
            | inr (_, a, c) ↦ inl (ap₂ (λ (x : Text) (y : R). (x, y)) (sym a) c)
          ]),
          (λ x.
              subst (λ (y : Tree R). Binds k v y.root) (sym same)
                ((binds k v).1 (elim x [
                  | inl a ↦
                      inr (sym ok, ap (λ (z : Text × R). z.0) (sym a), ap (λ (z : Text × R). z.1) a)
                  | inr o ↦ inl ((h k v).1 o)
                ]))),
        ),
      )
  bound_by t' kvs (rejected {t = t} p r e' b f) =
      let (i, h) = bound_by t kvs b in
      let (t1, e, g, i1, binds, _) = add_refines t p r i in
      let (same, failed) = same_step f g in
      (
        subst IsMap (sym same) i1,
        λ k v. (
          (λ x. elim ((binds k v).0 (subst (λ (y : Tree R). Binds k v y.root) same x)) [
            | inl o ↦ (h k v).0 o
            | inr (a, _, _) ↦ absurd (cc (a, failed))
          ]),
          (λ x.
              subst (λ (y : Tree R). Binds k v y.root) (sym same)
                ((binds k v).1 (inl ((h k v).1 x)))),
        ),
      )

  -- After any calls of `add` on a new tree, the tree keeps its invariant and binds exactly the texts and
  -- routes of the calls that ended without an error, and no text has two routes.
  pub Built-Binds :
      (t : Tree R) (kvs : List (Text × R))
      → Built t kvs
      → IsMap t
        × ((k : Text) (v : R) → Binds k v t.root ↔ In (k, v) kvs)
        × ((k : Text) (v w : R) → Binds k v t.root → Binds k w t.root → v ≡ w)
  Built-Binds t kvs b =
      let (i, h) = bound_by t kvs b in (i, h, λ k v w x y. one_route k v w t.root (i.0) x y)
