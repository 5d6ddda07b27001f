-- ===== src/Router/Tree/Insert/Adds.antt =====
-- `add` of router/tree.go on a tree that stands for texts bound to routes. The text of a path is the
-- path in lower case without the names of its parameters.
use mathlib.Core.Path.{subst}
use aah.Prelude.{
  ◌≡◌, refl, sym, ◌∙◌, ◌↔◌, ◌⊎◌, inl, inr, [], ◌∷◌, ◌++◌, append_assoc, append-nil, Option, none,
  some, ◌==◌, if◌then◌else◌, Bool-cases,
}
use aah.Prelude.Outcome.{Outcome, returns}
use aah.Text.{Text, lower_byte, index_byte}
use aah.Router.Tree.{
  common, Node, node, nil, cons, NodeType, static_node, param_node, wildcard_node, slash_byte,
  param_byte, wild_byte,
}
use aah.Router.Tree.Insert.{
  AddError, insert_edge, assign, scan, in_parameter, add_wildcard, check_parameter, checked,
  regardless, and_then, occurs_later, wildcard_misplaced,
}
use aah.Router.Tree.Insert.Binds.{Binds, Keyed, IsRoot, Added}
use aah.Router.Tree.Insert.Steps.{assign-Inserted}
use aah.Router.Tree.Insert.Refines.{insert_node-Inserts}

-- the text that `add` binds to a route for a path
unfoldable mutual
  pub key : Text → Text
  key [] = []
  key (c ∷ rest) =
      let parameter = param_byte ∷ key_after rest in
      let plain = lower_byte c ∷ key rest in
      if lower_byte c == param_byte
      then parameter
      else if lower_byte c == wild_byte
      then wild_byte ∷ []
      else plain

  -- behind the name of a parameter
  pub key_after : Text → Text
  key_after [] = []
  key_after (c ∷ rest) =
      let ended = slash_byte ∷ key rest in
      let longer = key_after rest in if lower_byte c == slash_byte then ended else longer

common-nil : (s l : Text) → l ≡ [] → common s l ≡ 0
unfolding common
common-nil [] [] h = refl
common-nil (_ ∷ _) [] h = refl
common-nil _ (c ∷ l) h = cc h

module _ {R : Type 0} where
  pub record Grown (n : Node R) (s : Text) (r : Option R) (n' : Node R) (e : Option AddError)
      : Type 0 where
    pub keyed : Keyed n'
    pub root : IsRoot n'
    pub binds : (k : Text) (v : R) → Binds k v n' ↔ (Binds k v n ⊎ Added e s r k v)
    pub fresh : e ≡ none → (x v : R) → r ≡ some x → Binds s v n → ⊥

  abbrev pub Grows : Outcome (Node R × Option AddError) → Node R → Text → Option R → Type 0
  Grows m n s r = (n' : Node R) × (e : Option AddError) × (m ≡ returns (n', e)) × Grown n s r n' e

  insert_edge-Grows :
      (typ : NodeType) (arg : Text) (r : Option R) (s : Text) (n : Node R)
      → Keyed n
      → IsRoot n
      → Grows (insert_edge typ (slash_byte ∷ s) arg r n) n (slash_byte ∷ s) r
  unfolding insert_edge assign
  insert_edge-Grows typ arg r s (node inf nil) ks (inl (l, v, _)) =
      let m = assign-Inserted typ arg r slash_byte s inf v l in
      rw (common-nil (slash_byte ∷ s) inf.label l) (
        _,
        none,
        refl,
        record { keyed = tt; root = inr ((s, refl), refl); binds = m.binds; fresh = m.fresh },
      )
  insert_edge-Grows typ arg r s (node inf (cons _ _)) ks (inl (_, _, h)) = cc h
  insert_edge-Grows typ arg r s n ks (inr (g, i)) =
      let (n', e, f, m) = insert_node-Inserts typ arg r slash_byte s n ks g i in
      let (g', i') = m.edge g in
      (
        n',
        e,
        f,
        record { keyed = m.keyed; root = inr (g', i' ∙ i); binds = m.binds; fresh = m.fresh },
      )

  -- a first call without a route, and the rest
  after_first :
      (n n1 n2 : Node R) (s0 s : Text) (r : Option R) (e1 e2 : Option AddError)
      → Grown n s0 none n1 e1
      → Grown n1 s r n2 e2
      → Grown n s r n2 e2
  after_first n n1 n2 s0 s r e1 e2 a b = record {
    keyed = b.keyed;
    root = b.root;
    binds = λ k v. (
      (λ x. elim ((b.binds k v).0 x) [
        | inl y ↦ elim ((a.binds k v).0 y) [ inl z ↦ inl z | inr (_, _, h) ↦ absurd (cc h) ]
        | inr y ↦ inr y
      ]),
      (λ x. elim x [
        | inl y ↦ (b.binds k v).1 (inl ((a.binds k v).1 (inl y)))
        | inr y ↦ (b.binds k v).1 (inr y)
      ]),
    );
    fresh = λ f x v g y. b.fresh f x v g ((a.binds s v).1 (inl y));
  }

  -- a call that ends in an error, after a first one without a route
  ended_early :
      (n n1 : Node R) (s0 s : Text) (r : Option R) (e e' : AddError)
      → Grown n s0 none n1 (some e)
      → Grown n s r n1 (some e')
  ended_early n n1 s0 s r e e' a = record {
    keyed = a.keyed;
    root = a.root;
    binds = λ k v. (
      (λ y. elim ((a.binds k v).0 y) [ inl z ↦ inl z | inr (h, _, _) ↦ absurd (cc h) ]),
      (λ x. elim x [ inl y ↦ (a.binds k v).1 (inl y) | inr (h, _, _) ↦ absurd (cc h) ]),
    );
    fresh = λ f x v g y. absurd (cc f);
  }

  same-Grown :
      (n : Node R) (s : Text) (r : Option R) (e : AddError)
      → Keyed n
      → IsRoot n
      → Grown n s r n (some e)
  same-Grown n s r e k i = record {
    keyed = k;
    root = i;
    binds = λ k v. (inl, λ x. elim x [ inl y ↦ y | inr (h, _, _) ↦ absurd (cc h) ]);
    fresh = λ f x v g y. absurd (cc f);
  }

  regardless-Grows :
      (m : Outcome (Node R × Option AddError)) (k : Node R → Outcome (Node R × Option AddError))
      (n : Node R) (s0 s : Text) (r : Option R)
      → Grows m n s0 none
      → ((n1 : Node R) → Keyed n1 → IsRoot n1 → Grows (k n1) n1 s r)
      → Grows (regardless m k) n s r
  regardless-Grows m k n s0 s r (n1, e1, f, a) h =
      let (n2, e2, g, b) = h n1 a.keyed a.root in
      rw f (n2, e2, g, after_first n n1 n2 s0 s r e1 e2 a b)

  and_then-Grows :
      (m : Outcome (Node R × Option AddError)) (k : Node R → Outcome (Node R × Option AddError))
      (n : Node R) (s0 s : Text) (r : Option R)
      → Grows m n s0 none
      → ((n1 : Node R) → Keyed n1 → IsRoot n1 → Grows (k n1) n1 s r)
      → Grows (and_then m k) n s r
  and_then-Grows m k n s0 s r (n1, none, f, a) h =
      let (n2, e2, g, b) = h n1 a.keyed a.root in
      rw f (n2, e2, g, after_first n n1 n2 s0 s r none e2 a b)
  and_then-Grows m k n s0 s r (n1, some e, f, a) h =
      rw f (n1, some e, refl, ended_early n n1 s0 s r e e a)

  checked-Grows :
      (o : Option AddError) (m : Outcome (Node R × Option AddError)) (n : Node R) (s : Text)
      (r : Option R)
      → Keyed n
      → IsRoot n
      → Grows m n s r
      → Grows (checked o n m) n s r
  checked-Grows none m n s r k i g = g
  checked-Grows (some e) m n s r k i g = (n, some e, refl, same-Grown n s r e k i)

  add_wildcard-Grows :
      (r : Option R) (p rest : Text) (n : Node R)
      → Keyed n
      → IsRoot n
      → Grows (add_wildcard r (slash_byte ∷ p) rest n) n (slash_byte ∷ p ++ wild_byte ∷ []) r
  unfolding add_wildcard
  add_wildcard-Grows r p rest n k i =
      elim (Bool-cases (occurs_later (index_byte rest slash_byte))) [
        | inl e ↦ rw e (n, _, refl, same-Grown n _ r wildcard_misplaced k i)
        | inr e ↦ rw e (
            checked-Grows (check_parameter rest) _ n _ r k i (
              regardless-Grows _ _ n (slash_byte ∷ p) _ r
                (insert_edge-Grows static_node [] none p n k i)
                λ n1 k1 i1. insert_edge-Grows wildcard_node rest r (p ++ wild_byte ∷ []) n1 k1 i1))
      ]

  mutual
    unfolding scan key

    pub scan-Grows :
        (r : Option R) (p rest t : Text) (n : Node R)
        → Keyed n
        → IsRoot n
        → p ++ key rest ≡ t
        → Grows (scan r (slash_byte ∷ p) rest n) n (slash_byte ∷ t) r
    scan-Grows r p [] t n k i h =
        subst
          (λ (x : Text).
            Grows (insert_edge static_node (slash_byte ∷ p) [] r n) n (slash_byte ∷ x) r)
          (sym (append-nil p) ∙ h) (insert_edge-Grows static_node [] r p n k i)
    scan-Grows r p (c ∷ rest) t n k i h = elim (Bool-cases (lower_byte c == param_byte)) [
      | inl e ↦ rw e (
          regardless-Grows _ _ n (slash_byte ∷ p) _ r
            (insert_edge-Grows static_node [] none p n k i)
            λ n1 k1 i1. in_parameter-Grows r p [] rest t n1 k1 i1 (rw e at h))
      | inr e ↦ elim (Bool-cases (lower_byte c == wild_byte)) [
        | inl w ↦
            rw (e, w)
              (subst
                (λ (x : Text). Grows (add_wildcard r (slash_byte ∷ p) rest n) n (slash_byte ∷ x) r)
                (rw (e, w) at h) (add_wildcard-Grows r p rest n k i))
        | inr w ↦
            rw (e, w)
              (scan-Grows r (p ++ lower_byte c ∷ []) rest t n k i
                (append_assoc p (lower_byte c ∷ []) (key rest) ∙ (rw (e, w) at h)))
      ]
    ]

    in_parameter-Grows :
        (r : Option R) (p arg rest t : Text) (n : Node R)
        → Keyed n
        → IsRoot n
        → p ++ param_byte ∷ key_after rest ≡ t
        → Grows (in_parameter r (slash_byte ∷ p) arg rest n) n (slash_byte ∷ t) r
    in_parameter-Grows r p arg [] t n k i h = checked-Grows (check_parameter arg) _ n _ r k i (
        subst
          (λ (x : Text).
            Grows (insert_edge param_node (slash_byte ∷ p ++ param_byte ∷ []) arg r n) n
              (slash_byte ∷ x) r)
          h (insert_edge-Grows param_node arg r (p ++ param_byte ∷ []) n k i))
    in_parameter-Grows r p arg (c ∷ rest) t n k i h =
        elim (Bool-cases (lower_byte c == slash_byte)) [
          | inl e ↦ rw e (
              checked-Grows (check_parameter arg) _ n _ r k i (
                and_then-Grows _ _ n (slash_byte ∷ p ++ param_byte ∷ []) _ r
                  (insert_edge-Grows param_node arg none (p ++ param_byte ∷ []) n k i)
                  λ n1 k1 i1.
                    scan-Grows r (p ++ param_byte ∷ slash_byte ∷ []) rest t n1 k1 i1
                      (append_assoc p (param_byte ∷ slash_byte ∷ []) (key rest) ∙ (rw e at h))))
          | inr e ↦ rw e (in_parameter-Grows r p (arg ++ c ∷ []) rest t n k i (rw e at h))
        ]
