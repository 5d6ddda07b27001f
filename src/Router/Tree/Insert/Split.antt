-- ===== src/Router/Tree/Insert/Split.antt =====
-- A node of the tree that is split in two.
use mathlib.Core.List.{append_cancel_left}
use aah.Prelude.{
  ℕ, ◌≡◌, ◌≢◌, refl, sym, ap, ◌∙◌, ◌↔◌, inl, inr, false, [], ◌∷◌, ◌++◌, append_assoc, append-nil,
  Option, none, some, arith, length, length-append, ==_iff, ne-test, Bool-cases, ◌==◌,
}
use aah.Text.{Text}
use aah.Text.Index.{take-append, drop-append}
use aah.Router.Tree.{Info, node, Edges, nil, cons, NodeType, static_node}
use aah.Router.Tree.Insert.{first, split_node, new_node, refused, edge_exists}
use aah.Router.Tree.Insert.Binds.{Binds, KeyedEdges, Inserted, Inserts, Binds-prefix}
use aah.Router.Tree.Insert.Steps.{Apart}

module _ {R : Type 0} (typ : NodeType) (arg : Text) where
  -- What the two halves of a split node bind together is what the node bound.
  halves :
      (inf : Info R) (es : Edges R) (p t : Text)
      → inf.label ≡ p ++ t
      → (k : Text) (v : R)
      → ((k' : Text) × (k ≡ p ++ k') × Binds k' v (new_node inf.typ t inf.arg inf.value es))
        ↔ Binds k v (node inf es)
  halves inf es p t l k v = (
    (λ (k', e, b). elim b [
      | inl (f, q) ↦ inl (e ∙ ap (◌++◌ p) f ∙ sym l, q)
      | inr (k'', f, b') ↦ inr (
        k'',
        e ∙ ap (◌++◌ p) f ∙ sym (append_assoc p t k'') ∙ ap (λ (x : Text). x ++ k'') (sym l),
        b',
      )
    ]),
    (λ b. elim b [
      | inl (e, q) ↦ (t, e ∙ l, inl (refl, q))
      | inr (k'', e, b') ↦
          (t ++ k'', e ∙ ap (λ (x : Text). x ++ k'') l ∙ append_assoc p t k'', inr (k'', refl, b'))
    ]),
  )

  unbound :
      (inf : Info R) (es : Edges R) (p s : Text) (c : ℕ) (t : Text)
      → inf.label ≡ p ++ c ∷ t
      → Apart s (c ∷ t)
      → (v : R) → Binds (p ++ s) v (node inf es)
      → ⊥
  unbound inf es p [] c t l a v b =
      let (k', e) = Binds-prefix (p ++ []) v (node inf es) b in
      cc (
        append_cancel_left p [] (c ∷ t ++ k')
          (e ∙ ap (λ (x : Text). x ++ k') l ∙ append_assoc p (c ∷ t) k'))
  unbound inf es p (d ∷ s) c t l a v b =
      let (k', e) = Binds-prefix (p ++ d ∷ s) v (node inf es) b in
      a (
        ap first (
          append_cancel_left p (d ∷ s) (c ∷ t ++ k')
            (e ∙ ap (λ (x : Text). x ++ k') l ∙ append_assoc p (c ∷ t) k')))

  module _ (inf : Info R) (es : Edges R) (d : ℕ) (p : Text) (c : ℕ) (t : Text) where
    -- the node is split, and the text ends where it is
    ended_here :
        (r : Option R)
        → inf.label ≡ d ∷ p ++ c ∷ t
        → KeyedEdges es
        → Inserted
            (node inf es)
            ((d ∷ p) ++ [])
            r
            (node
              (record { idx = first inf.label; typ = typ; label = d ∷ p; arg = arg; value = r })
              (cons (new_node inf.typ (c ∷ t) inf.arg inf.value es) nil))
            none
    ended_here r l ks = record {
      keyed = ((t, refl), ks, tt, tt);
      edge = λ (m, g). ((p, ap (λ (x : ℕ). x ∷ p) (sym (ap first l))), ap first g);
      binds = λ k v. (
        (λ b. elim b [
          | inl (e, q) ↦ inr (refl, e ∙ sym (append-nil (d ∷ p)), q)
          | inr (k', e, inl b') ↦ inl ((halves inf es (d ∷ p) (c ∷ t) l k v).0 (k', e, b'))
          | inr (k', e, inr b') ↦ elim b' [ ]
        ]),
        (λ b. elim b [
          | inl b' ↦
              let (k', e, b'') = (halves inf es (d ∷ p) (c ∷ t) l k v).1 b' in inr (k', e, inl b'')
          | inr (_, e, q) ↦ inl (e ∙ append-nil (d ∷ p), q)
        ]),
      );
      fresh = λ _ x v _ b. unbound inf es (d ∷ p) [] c t l tt v b;
    }

    -- the node is split, and nothing else is stored
    split_only :
        (r : Option R) (s : Text)
        → inf.label ≡ d ∷ p ++ c ∷ t
        → KeyedEdges es
        → Inserted
            (node inf es)
            s
            r
            (node
              (record {
                idx = first inf.label;
                typ = static_node;
                label = d ∷ p;
                arg = [];
                value = none;
              })
              (cons (new_node inf.typ (c ∷ t) inf.arg inf.value es) nil))
            (some edge_exists)
    split_only r s l ks = record {
      keyed = ((t, refl), ks, tt, tt);
      edge = λ (m, g). ((p, ap (λ (x : ℕ). x ∷ p) (sym (ap first l))), ap first g);
      binds = λ k v. (
        (λ b. elim b [
          | inl (e, q) ↦ cc q
          | inr (k', e, inl b') ↦ inl ((halves inf es (d ∷ p) (c ∷ t) l k v).0 (k', e, b'))
          | inr (k', e, inr b') ↦ elim b' [ ]
        ]),
        (λ b. elim b [
          | inl b' ↦
              let (k', e, b'') = (halves inf es (d ∷ p) (c ∷ t) l k v).1 b' in inr (k', e, inl b'')
          | inr (f, _, _) ↦ absurd (cc f)
        ]),
      );
      fresh = λ f x v _ b. absurd (cc f);
    }

    -- the node is split, and the rest of the text is a second edge
    two_edges :
        (r : Option R) (a : ℕ) (s : Text)
        → a ≢ c
        → inf.label ≡ d ∷ p ++ c ∷ t
        → KeyedEdges es
        → Inserted
            (node inf es)
            ((d ∷ p) ++ a ∷ s)
            r
            (node
              (record {
                idx = first inf.label;
                typ = static_node;
                label = d ∷ p;
                arg = [];
                value = none;
              })
              (cons
                (new_node inf.typ (c ∷ t) inf.arg inf.value es)
                (cons (new_node typ (a ∷ s) arg r nil) nil)))
            none
    two_edges r a s n l ks = record {
      keyed = ((t, refl), ks, (n, tt), ((s, refl), tt, tt, tt));
      edge = λ (m, g). ((p, ap (λ (x : ℕ). x ∷ p) (sym (ap first l))), ap first g);
      binds = λ k v. (
        (λ b. elim b [
          | inl (e, q) ↦ cc q
          | inr (k', e, inl b') ↦ inl ((halves inf es (d ∷ p) (c ∷ t) l k v).0 (k', e, b'))
          | inr (k', e, inr (inl (inl (f, q)))) ↦ inr (refl, e ∙ ap (◌++◌ (d ∷ p)) f, q)
          | inr (k', e, inr (inl (inr (_, _, b')))) ↦ elim b' [ ]
          | inr (k', e, inr (inr b')) ↦ elim b' [ ]
        ]),
        (λ b. elim b [
          | inl b' ↦
              let (k', e, b'') = (halves inf es (d ∷ p) (c ∷ t) l k v).1 b' in inr (k', e, inl b'')
          | inr (_, e, q) ↦ inr (a ∷ s, e, inr (inl (inl (refl, q))))
        ]),
      );
      fresh = λ _ x v _ b. unbound inf es (d ∷ p) (a ∷ s) c t l n v b;
    }

  pub split_node-Inserts :
      (inf : Info R) (es : Edges R) (d : ℕ) (p : Text) (c : ℕ) (t : Text) (r : Option R) (s : Text)
      → Apart s (c ∷ t)
      → KeyedEdges es
      → Inserts
          (split_node typ arg r
            (length (d ∷ p))
            ((d ∷ p) ++ s)
            (record inf { label = d ∷ p ++ c ∷ t })
            es)
          (node (record inf { label = d ∷ p ++ c ∷ t }) es)
          ((d ∷ p) ++ s)
          r
  unfolding split_node
  split_node-Inserts inf es d p c t r [] n ks =
      rw
        (
          (==_iff (length (d ∷ p)) (length (d ∷ p ++ []))).1 (ap length (sym (append-nil (d ∷ p)))),
          drop-append p (c ∷ t),
          take-append p (c ∷ t),
        )
        (_, none, refl, ended_here (record inf { label = d ∷ p ++ c ∷ t }) es d p c t r refl ks)
  split_node-Inserts inf es d p c t r (a ∷ s) n ks =
      elim (Bool-cases (refused typ (cons (new_node inf.typ (c ∷ t) inf.arg inf.value es) nil))) [
        | inl e ↦
            rw (longer, drop-append p (c ∷ t), take-append p (c ∷ t), drop-append p (a ∷ s), e)
              (
                _,
                some edge_exists,
                refl,
                split_only (record inf { label = d ∷ p ++ c ∷ t }) es d p c t r (d ∷ p ++ a ∷ s)
                    refl ks,
              )
        | inr e ↦
            rw (longer, drop-append p (c ∷ t), take-append p (c ∷ t), drop-append p (a ∷ s), e)
              (
                _,
                none,
                refl,
                two_edges (record inf { label = d ∷ p ++ c ∷ t }) es d p c t r a s n refl ks,
              )
      ]
    where
      longer : (length (d ∷ p) == length (d ∷ p ++ a ∷ s)) ≡ false
      longer =
          ne-test (length (d ∷ p)) (length (d ∷ p ++ a ∷ s))
            (omega (arith, length-append (d ∷ p) (a ∷ s)))
