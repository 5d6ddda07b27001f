-- ===== src/Router/Tree/Insert/Lift.antt =====
-- What an edge binds after `insertEdge` is bound by the edges and by the node above them.
use mathlib.Core.List.{append_cancel_left}
use aah.Prelude.{
  ℕ, ◌≢◌, refl, sym, ap, ◌∙◌, inl, inr, ◌∷◌, ◌++◌, Option, none, some, arith, length, length-append,
}
use aah.Text.{Text}
use aah.Router.Tree.{Info, Node, node, Edges, nil, cons, info, NodeType}
use aah.Router.Tree.Insert.{first, AddError, new_node}
use aah.Router.Tree.Insert.Binds.{KeyedEdges, Inserted, InsertedIn, NoneAt-BindsIn, IsEdge-first}

module _ {R : Type 0} where
  -- the call binds nothing, and the edges stay
  pub same-InsertedIn :
      (es : Edges R) (s : Text) (r : Option R) (e : AddError)
      → KeyedEdges es
      → InsertedIn es s r es (some e)
  same-InsertedIn es s r e ks = record {
    keyed = ks;
    none_at = λ i d h. h;
    binds = λ k v. (inl, λ x. elim x [ inl b ↦ b | inr (f, _, _) ↦ absurd (cc f) ]);
    fresh = λ f x v _. absurd (cc f);
  }

  pub new_edge-InsertedIn :
      (typ : NodeType) (arg : Text) (r : Option R) (c : ℕ) (s : Text)
      → InsertedIn nil (c ∷ s) r (cons (new_node typ (c ∷ s) arg r nil) nil) none
  new_edge-InsertedIn typ arg r c s = record {
    keyed = ((s, refl), tt, tt, tt);
    none_at = λ i d h. ((λ f. d (sym f)), tt);
    binds = λ k v. (
      (λ b. elim b [
        | inl (inl (e, q)) ↦ inr (refl, e, q)
        | inl (inr (_, _, b')) ↦ elim b' [ ]
        | inr b' ↦ elim b' [ ]
      ]),
      (λ b. elim b [ inl b' ↦ elim b' [ ] | inr (_, e, q) ↦ inl (inl (e, q)) ]),
    );
    fresh = λ _ x v _ b. elim b [ ];
  }

  pub lift_here :
      (n n' : Node R) (es : Edges R) (s : Text) (r : Option R) (e : Option AddError)
      → KeyedEdges (cons n es)
      → Inserted n ((info n).idx ∷ s) r n' e
      → InsertedIn (cons n es) ((info n).idx ∷ s) r (cons n' es) e
  lift_here n n' es s r e (edge, k, apart, ks) m =
      let (edge', idx) = m.edge edge in
      record {
        keyed = (edge', m.keyed, rw idx apart, ks);
        none_at = λ i d (h, hs). ((λ f. h (sym idx ∙ f)), hs);
        binds = λ k v. (
          (λ b. elim b [
            | inl b' ↦ elim ((m.binds k v).0 b') [ inl o ↦ inl (inl o) | inr a ↦ inr a ]
            | inr b' ↦ inl (inr b')
          ]),
          (λ b. elim b [
            | inl (inl o) ↦ inl ((m.binds k v).1 (inl o))
            | inl (inr o) ↦ inr o
            | inr a ↦ inl ((m.binds k v).1 (inr a))
          ]),
        );
        fresh = λ f x v g b. elim b [
          | inl b' ↦ m.fresh f x v g b'
          | inr b' ↦ NoneAt-BindsIn (info n).idx s v es ks apart b'
        ];
      }

  pub lift_later :
      (n : Node R) (es es' : Edges R) (c : ℕ) (s : Text) (r : Option R) (e : Option AddError)
      → (info n).idx ≢ c
      → KeyedEdges (cons n es)
      → InsertedIn es (c ∷ s) r es' e
      → InsertedIn (cons n es) (c ∷ s) r (cons n es') e
  lift_later n es es' c s r e d (edge, k, apart, ks) m = record {
    keyed = (edge, k, m.none_at (info n).idx d apart, m.keyed);
    none_at = λ i d' (h, hs). (h, m.none_at i d' hs);
    binds = λ k v. (
      (λ b. elim b [
        | inl b' ↦ inl (inl b')
        | inr b' ↦ elim ((m.binds k v).0 b') [ inl o ↦ inl (inr o) | inr a ↦ inr a ]
      ]),
      (λ b. elim b [
        | inl (inl o) ↦ inl o
        | inl (inr o) ↦ inr ((m.binds k v).1 (inl o))
        | inr a ↦ inr ((m.binds k v).1 (inr a))
      ]),
    );
    fresh = λ f x v g b. elim b [
      | inl b' ↦ let (k', h) = IsEdge-first (c ∷ s) v n edge b' in d (sym (ap first h))
      | inr b' ↦ m.fresh f x v g b'
    ];
  }

  pub lift_below :
      (inf : Info R) (es es' : Edges R) (a : ℕ) (s : Text) (r : Option R) (e : Option AddError)
      → InsertedIn es (a ∷ s) r es' e
      → Inserted (node inf es) (inf.label ++ a ∷ s) r (node inf es') e
  lift_below inf es es' a s r e m = record {
    keyed = m.keyed;
    edge = λ g. (g, refl);
    binds = λ k v. (
      (λ b. elim b [
        | inl o ↦ inl (inl o)
        | inr (k', f, b') ↦ elim ((m.binds k' v).0 b') [
          | inl o ↦ inl (inr (k', f, o))
          | inr (z, g, q) ↦ inr (z, f ∙ ap (◌++◌ inf.label) g, q)
        ]
      ]),
      (λ b. elim b [
        | inl (inl o) ↦ inl o
        | inl (inr (k', f, o)) ↦ inr (k', f, (m.binds k' v).1 (inl o))
        | inr (z, g, q) ↦ inr (a ∷ s, g, (m.binds (a ∷ s) v).1 (inr (z, refl, q)))
      ]),
    );
    fresh = λ f x v g b. elim b [
      | inl (h, _) ↦ absurd (omega (arith, ap length h, length-append inf.label (a ∷ s)))
      | inr (k', h, b') ↦ m.fresh f x v g (rw (append_cancel_left inf.label (a ∷ s) k' h) b')
    ];
  }
