-- ===== src/Router/Tree/Insert/Refines.antt =====
-- `insertEdge` of router/tree.go on the texts that a tree binds, with its errors.
use mathlib.Core.Path.{subst, ap₂}
use aah.Prelude.{
  ℕ, ◌≡◌, refl, sym, ap, ◌∙◌, inl, inr, [], ◌∷◌, ◌++◌, append-nil, Option, none, some, arith,
  length, length-append, ◌==◌, ==_iff, ltb, ne-test, ◌<◌, Bool-cases, true, false,
}
use aah.Text.{Text}
use aah.Text.Index.{drop-append}
use aah.Router.Tree.{Info, Node, node, Edges, nil, cons, info, common, NodeType}
use aah.Router.Tree.Insert.{first, insert_node, insert_edges, refused, other_param, edge_exists}
use aah.Router.Tree.Insert.Binds.{
  IsEdge, Keyed, KeyedEdges, Inserts, InsertsIn, Inserted, InsertedIn,
}
use aah.Router.Tree.Insert.Steps.{Apart, Shared, common-Shared, set_value-Inserts}
use aah.Router.Tree.Insert.Split.{split_node-Inserts}
use aah.Router.Tree.Insert.Lift.{
  same-InsertedIn, new_edge-InsertedIn, lift_here, lift_later, lift_below,
}

lt-ltb : (a b : ℕ) → a < b → ltb a b ≡ true
lt-ltb a b h = ground arith

self-ltb : (a : ℕ) → ltb a a ≡ false
self-ltb a = ground arith

longer : (s : Text) (c : ℕ) (t : Text) → ltb (length s) (length (s ++ c ∷ t)) ≡ true
longer s c t = lt-ltb (length s) (length (s ++ c ∷ t)) (omega (arith, length-append s (c ∷ t)))

as_long : (s : Text) → ltb (length s) (length (s ++ [])) ≡ false
as_long s = rw (append-nil s) (self-ltb (length s))

module _ {R : Type 0} (typ : NodeType) (arg : Text) (r : Option R) where
  -- the text and the label share `d ∷ p`
  shared-Inserts :
      (inf : Info R) (es : Edges R) (d : ℕ) (p s l : Text)
      → common (d ∷ p ++ s) (d ∷ p ++ l) ≡ length (d ∷ p)
      → Apart s l
      → KeyedEdges es
      → ((a : ℕ) (t : Text) → InsertsIn (insert_edges typ arg r (a ∷ t) es es) es (a ∷ t) r)
      → Inserts
          (insert_node typ arg r (d ∷ p ++ s) (node (record inf { label = d ∷ p ++ l }) es))
          (node (record inf { label = d ∷ p ++ l }) es)
          (d ∷ p ++ s)
          r
  unfolding insert_node
  shared-Inserts inf es d p s (c ∷ t) h a ks ih =
      rw (h, ne-test (length (d ∷ p)) 0 (λ e. omega (arith, e)), longer (d ∷ p) c t)
        (split_node-Inserts typ arg inf es d p c t r s a ks)
  shared-Inserts inf es d p [] [] h a ks ih =
      rw (h, ne-test (length (d ∷ p)) 0 (λ e. omega (arith, e)), as_long (d ∷ p), append-nil p)
        (set_value-Inserts typ arg r (record inf { label = d ∷ p }) es ks)
  shared-Inserts inf es d p (b ∷ s) [] h a ks ih =
      let (es', e, f, m) = ih b s in
      rw
        (
          h,
          ne-test (length (d ∷ p)) 0 (λ g. omega (arith, g)),
          as_long (d ∷ p),
          longer (d ∷ p) b s,
          drop-append p (b ∷ s),
          f,
          append-nil p,
        )
        (_, e, refl, lift_below (record inf { label = d ∷ p }) es es' b s r e m)

  -- the text and the label start with the same byte
  edge-Inserts :
      (c : ℕ) (s : Text) (inf : Info R) (es : Edges R)
      → (l : Text) → inf.label ≡ c ∷ l
      → KeyedEdges es
      → ((a : ℕ) (t : Text) → InsertsIn (insert_edges typ arg r (a ∷ t) es es) es (a ∷ t) r)
      → Inserts (insert_node typ arg r (c ∷ s) (node inf es)) (node inf es) (c ∷ s) r
  edge-Inserts c s inf es l h ks ih = at_prefix m.prefix m.s_eq m.l_eq m.size
    where
      m : Shared (c ∷ s) inf.label
      m = common-Shared (c ∷ s) inf.label

      at_prefix :
          (p : Text)
          → c ∷ s ≡ p ++ m.s_rest
          → inf.label ≡ p ++ m.l_rest
          → common (c ∷ s) inf.label ≡ length p
          → Inserts (insert_node typ arg r (c ∷ s) (node inf es)) (node inf es) (c ∷ s) r
      at_prefix [] f g k = absurd (differ m.s_rest m.l_rest m.apart f (sym h ∙ g))
        where
          differ : (x y : Text) → Apart x y → c ∷ s ≡ x → c ∷ l ≡ y → ⊥
          differ (a ∷ x) (b ∷ y) n f' g' = n (sym (ap first f') ∙ ap first g')
          differ [] y n f' g' = cc f'
          differ (a ∷ x) [] n f' g' = cc g'
      at_prefix (d ∷ p) f g k =
          let k' = ap₂ common (sym f) (sym g) ∙ k in
          subst (λ (x : Text). Inserts (insert_node typ arg r x (node inf es)) (node inf es) x r)
            (sym f)
            (subst
              (λ (x : Text).
                Inserts
                  (insert_node typ arg r (d ∷ p ++ m.s_rest) (node (record inf { label = x }) es))
                  (node (record inf { label = x }) es) (d ∷ p ++ m.s_rest) r)
              (sym g) (shared-Inserts inf es d p m.s_rest m.l_rest k' m.apart ks ih))

  mutual
    unfolding insert_edges

    pub insert_node-Inserts :
        (c : ℕ) (s : Text) (n : Node R)
        → Keyed n
        → IsEdge n
        → (info n).idx ≡ c
        → Inserts (insert_node typ arg r (c ∷ s) n) n (c ∷ s) r
    insert_node-Inserts c s (node inf es) ks (l, h) f =
        edge-Inserts c s inf es l (rw f at h) ks λ a t. insert_edges-InsertsIn a t es es ks

    insert_edges-InsertsIn :
        (c : ℕ) (s : Text) (whole es : Edges R)
        → KeyedEdges es
        → InsertsIn (insert_edges typ arg r (c ∷ s) whole es) es (c ∷ s) r
    insert_edges-InsertsIn c s whole nil ks = elim (Bool-cases (refused typ whole)) [
      | inl e ↦ rw e (nil, some edge_exists, refl, same-InsertedIn nil (c ∷ s) r edge_exists tt)
      | inr e ↦ rw e (_, none, refl, new_edge-InsertedIn typ arg r c s)
    ]
    insert_edges-InsertsIn c s whole (cons n es) (g, k, apart, ks) =
        elim (Bool-cases ((info n).idx == c)) [
          | inl e ↦ elim (Bool-cases (other_param arg (c ∷ s) (info n).arg)) [
            | inl o ↦
                rw (e, o)
                  (
                    cons n es,
                    some edge_exists,
                    refl,
                    same-InsertedIn (cons n es) (c ∷ s) r edge_exists (g, k, apart, ks),
                  )
            | inr o ↦
                let i = (==_iff (info n).idx c).0 e in
                let (n', e', f, m) = insert_node-Inserts c s n k g i in
                rw (e, o, f)
                  (
                    cons n' es,
                    e',
                    refl,
                    subst (λ (x : ℕ). InsertedIn (cons n es) (x ∷ s) r (cons n' es) e') i
                        (lift_here n n' es s r e' (g, k, apart, ks)
                          (subst (λ (x : ℕ). Inserted n (x ∷ s) r n' e') (sym i) m)),
                  )
          ]
          | inr e ↦
              let (es', e', f, m) = insert_edges-InsertsIn c s whole es ks in
              rw (e, f)
                (
                  cons n es',
                  e',
                  refl,
                  lift_later n es es' c s r e' (λ h. cc (e, (==_iff (info n).idx c).1 h))
                      (g, k, apart, ks) m,
                )
        ]
