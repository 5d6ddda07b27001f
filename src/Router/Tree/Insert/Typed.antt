-- ===== src/Router/Tree/Insert/Typed.antt =====
-- The types of the nodes that `insertEdge` of router/tree.go makes: a parameter or wildcard node has a
-- label that ends with the byte `:` or `*`.
use mathlib.Core.Path.{subst, ap₂}
use aah.Prelude.{
  ℕ, zero, suc, ◌≡◌, ◌<◌, ◌≤◌, refl, ◌⊎◌, inl, inr, Bool-cases, false, [], ◌∷◌, ◌++◌, Option,
  if_cases, if_known, ltb, ltb→lt, sym, ◌==◌, ==_iff, length, arith,
}
use aah.Prelude.Outcome.{Outcome, Ensures, >>=-Ensures}
use aah.Text.{Text, drop, take}
use aah.Router.Tree.{
  NodeType, static_node, param_node, wildcard_node, param_byte, wild_byte, Info, Node, node, Edges,
  nil, cons, info, common,
}
use aah.Router.Tree.Lookup.{is_set}
use aah.Router.Tree.Insert.{
  AddError, insert_node, insert_edges, insert_edge, assign, split_node, set_value, refused,
  other_param, lower_half, first,
}

abbrev pub EndsMarked : Text → Type 0
EndsMarked [] = ⊥
EndsMarked (c ∷ []) = (c ≡ param_byte) ⊎ (c ≡ wild_byte)
EndsMarked (c ∷ d ∷ s) = EndsMarked (d ∷ s)

abbrev pub Marked : NodeType → Text → Type 0
Marked static_node s = Unit
Marked param_node s = EndsMarked s
Marked wildcard_node s = EndsMarked s

EndsMarked-drop : (i : ℕ) (s : Text) → i < length s → EndsMarked s → EndsMarked (drop i s)
EndsMarked-drop zero s h m = m
EndsMarked-drop (suc i) [] h m = m
EndsMarked-drop (suc i) (c ∷ []) h m = absurd (omega (arith, h))
EndsMarked-drop (suc i) (c ∷ d ∷ s) h m = EndsMarked-drop i (d ∷ s) (omega (arith, h)) m

Marked-drop :
    (typ : NodeType) (i : ℕ) (s : Text) → i < length s → Marked typ s → Marked typ (drop i s)
Marked-drop static_node i s h m = tt
Marked-drop param_node i s h m = EndsMarked-drop i s h m
Marked-drop wildcard_node i s h m = EndsMarked-drop i s h m

pub EndsMarked-append :
    (s : Text) (c : ℕ) → (c ≡ param_byte) ⊎ (c ≡ wild_byte) → EndsMarked (s ++ c ∷ [])
EndsMarked-append [] c h = h
EndsMarked-append (d ∷ []) c h = h
EndsMarked-append (d ∷ e ∷ s) c h = EndsMarked-append (e ∷ s) c h

-- a text that is a prefix of the label is what the upper half keeps
take-common : (s l : Text) → common s l ≡ length s → take (common s l) l ≡ s
unfolding common
take-common [] l h = refl
take-common (c ∷ s) [] h = absurd (omega (arith, h))
take-common (c ∷ s) (d ∷ l) h = elim (Bool-cases (c == d)) [
  | inl e ↦
      let below : common s l ≡ length s = omega (arith, rw e at h) in
      rw e (ap₂ (λ (x : ℕ) (y : Text). x ∷ y) (sym ((==_iff c d).0 e)) (take-common s l below))
  | inr e ↦ absurd (omega (arith, rw e at h))
]

common_short : (s l : Text) → common s l ≤ length s
unfolding common
common_short [] l = omega arith
common_short (c ∷ s) [] = omega arith
common_short (c ∷ s) (d ∷ l) = ground (arith, common_short s l)

module _ {R : Type 0} where
  abbrev mutual
    pub Typed : Node R → Type 0
    Typed (node inf es) = Marked inf.typ inf.label × TypedEdges es

    pub TypedEdges : Edges R → Type 0
    TypedEdges nil = Unit
    TypedEdges (cons n es) = Typed n × TypedEdges es

  abbrev pub LeavesTyped : Outcome (Node R × Option AddError) → Type 0
  LeavesTyped = Ensures (λ (x : Node R × Option AddError). Typed (x.0))

  abbrev LeavesTypedEdges : Outcome (Edges R × Option AddError) → Type 0
  LeavesTypedEdges = Ensures (λ (x : Edges R × Option AddError). TypedEdges (x.0))

  module _ (typ : NodeType) (arg : Text) (r : Option R) where
    assign-Typed :
        (s : Text) (inf : Info R) (es : Edges R)
        → Marked typ s
        → TypedEdges es
        → LeavesTyped (assign typ arg r s inf es)
    unfolding assign
    assign-Typed [] inf es m t = tt
    assign-Typed (c ∷ s) inf es m t = (m, t)

    set_value-Typed :
        (inf : Info R) (es : Edges R)
        → Typed (node inf es)
        → LeavesTyped (set_value typ arg r inf es)
    unfolding set_value
    set_value-Typed inf es t =
        if_cases LeavesTyped (is_set r) _ _ (if_cases LeavesTyped (is_set inf.value) _ _ t t) t

    split_node-Typed :
        (s : Text) (inf : Info R) (es : Edges R)
        → common s inf.label < length inf.label
        → Marked typ s
        → Typed (node inf es)
        → LeavesTyped (split_node typ arg r (common s inf.label) s inf es)
    unfolding split_node
    split_node-Typed s inf es h m (mi, t) =
        let lower = Marked-drop inf.typ (common s inf.label) inf.label h mi in
        if_known LeavesTyped (common s inf.label == length s) _ _
          (λ e. (
            subst (Marked typ) (sym (take-common s inf.label ((==_iff _ _).0 e))) m,
            ((lower, t), tt),
          ))
          λ e.
            if_cases LeavesTyped (refused typ (cons (lower_half inf (common s inf.label) es) nil)) _
              _ (tt, ((lower, t), tt))
              (tt, ((lower, t), ((Marked-drop typ (common s inf.label) s (proper e) m, tt), tt)))
      where
        proper : (common s inf.label == length s) ≡ false → common s inf.label < length s
        proper e = ground (arith, common_short s inf.label)

    mutual
      unfolding insert_node insert_edges

      insert_node-Typed :
          (s : Text) (n : Node R) → Marked typ s → Typed n → LeavesTyped (insert_node typ arg r s n)
      insert_node-Typed s (node inf es) m (mi, t) =
          let i = common s inf.label in
          if_cases LeavesTyped (i == 0) _ _ (assign-Typed s inf es m t) (
            if_known LeavesTyped (ltb i (length inf.label)) _ _
              (λ e. split_node-Typed s inf es (ltb→lt i (length inf.label) e) m (mi, t))
              λ e.
                if_known LeavesTyped (ltb i (length s)) _ _
                  (λ f.
                    >>=-Ensures (λ (x : Edges R × Option AddError). TypedEdges (x.0))
                      (λ (x : Node R × Option AddError). Typed (x.0)) _ _
                      (insert_edges-Typed (drop i s) es es
                        (Marked-drop typ i s (ltb→lt i (length s) f) m) t)
                      λ x h. (mi, h))
                  λ f. set_value-Typed inf es (mi, t))

      insert_edges-Typed :
          (s : Text) (whole es : Edges R)
          → Marked typ s
          → TypedEdges es
          → LeavesTypedEdges (insert_edges typ arg r s whole es)
      insert_edges-Typed s whole nil m t = elim (Bool-cases (refused typ whole)) [
        | inl e ↦ rw e tt
        | inr e ↦ rw e ((m, tt), tt)
      ]
      insert_edges-Typed s whole (cons n es) m (tn, t) =
          if_cases LeavesTypedEdges ((info n).idx == first s) _ _
            (if_cases LeavesTypedEdges (other_param arg s (info n).arg) _ _ (tn, t)
              (>>=-Ensures (λ (x : Node R × Option AddError). Typed (x.0))
                (λ (x : Edges R × Option AddError). TypedEdges (x.0)) _ _
                (insert_node-Typed s n m tn) λ x h. (h, t)))
            (>>=-Ensures (λ (x : Edges R × Option AddError). TypedEdges (x.0))
              (λ (x : Edges R × Option AddError). TypedEdges (x.0)) _ _
              (insert_edges-Typed s whole es m t) λ x h. (tn, h))

  pub insert_edge-Typed :
      (typ : NodeType) (arg : Text) (r : Option R) (p : Text) (n : Node R)
      → Marked typ p
      → Typed n
      → LeavesTyped (insert_edge typ p arg r n)
  unfolding insert_edge
  insert_edge-Typed typ arg r p n m t = insert_node-Typed typ arg r p n m t
