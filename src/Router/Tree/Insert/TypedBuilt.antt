-- ===== src/Router/Tree/Insert/TypedBuilt.antt =====
-- The types of the nodes in the trees that calls of `add` of router/tree.go build.
use aah.Prelude.{refl, inl, inr, List, [], ◌∷◌, ◌++◌, Option, none, some, if_cases, ◌==◌}
use aah.Prelude.Outcome.{returns, panics, Ensures, >>=-Ensures, Ensures-returns}
use aah.Text.{Text, lower_byte, index_byte}
use aah.Router.Tree.{
  static_node, param_node, wildcard_node, slash_byte, param_byte, wild_byte, Node,
}
use aah.Router.Tree.Insert.Built.{Built, start, accepted, rejected}
use aah.Router.Tree.Insert.{
  AddError, Added, Tree, add, occurs_later, scan, in_parameter, add_wildcard, check_parameter,
  checked, regardless, and_then,
}
use aah.Router.Tree.Insert.Typed.{Typed, LeavesTyped, insert_edge-Typed, EndsMarked-append}

module _ {R : Type 0} where
  regardless-Typed :
      (m : Added R) (k : Node R → Added R)
      → LeavesTyped m
      → ((n : Node R) → Typed n → LeavesTyped (k n))
      → LeavesTyped (regardless m k)
  regardless-Typed m k t h =
      >>=-Ensures (λ (x : Node R × Option AddError). Typed (x.0))
        (λ (x : Node R × Option AddError). Typed (x.0)) m _ t λ x u. h (x.0) u

  and_then-Typed :
      (m : Added R) (k : Node R → Added R)
      → LeavesTyped m
      → ((n : Node R) → Typed n → LeavesTyped (k n))
      → LeavesTyped (and_then m k)
  and_then-Typed (returns (n, none)) k t h = h n t
  and_then-Typed (returns (n, some e)) k t h = t
  and_then-Typed panics k t h = tt

  checked-Typed :
      (o : Option AddError) (n : Node R) (m : Added R)
      → Typed n
      → LeavesTyped m
      → LeavesTyped (checked o n m)
  checked-Typed none n m t h = h
  checked-Typed (some e) n m t h = t

  add_wildcard-Typed :
      (r : Option R) (p rest : Text) (n : Node R) → Typed n → LeavesTyped (add_wildcard r p rest n)
  unfolding add_wildcard
  add_wildcard-Typed r p rest n t =
      if_cases LeavesTyped (occurs_later (index_byte rest slash_byte)) _ _ t (
        checked-Typed (check_parameter rest) n _ t (
          regardless-Typed _ _ (insert_edge-Typed static_node [] none p n tt t) λ n' t'.
            insert_edge-Typed wildcard_node rest r (p ++ wild_byte ∷ []) n'
              (EndsMarked-append p wild_byte (inr refl)) t'))

  mutual
    unfolding scan

    scan-Typed :
        (r : Option R) (p rest : Text) (n : Node R) → Typed n → LeavesTyped (scan r p rest n)
    scan-Typed r p [] n t = insert_edge-Typed static_node [] r p n tt t
    scan-Typed r p (c ∷ rest) n t =
        if_cases LeavesTyped (lower_byte c == param_byte) _ _
          (regardless-Typed _ _ (insert_edge-Typed static_node [] none p n tt t)
            λ n' t'. in_parameter-Typed r p [] rest n' t')
          (if_cases LeavesTyped (lower_byte c == wild_byte) _ _ (add_wildcard-Typed r p rest n t)
            (scan-Typed r (p ++ lower_byte c ∷ []) rest n t))

    in_parameter-Typed :
        (r : Option R) (p arg rest : Text) (n : Node R)
        → Typed n
        → LeavesTyped (in_parameter r p arg rest n)
    in_parameter-Typed r p arg [] n t = checked-Typed (check_parameter arg) n _ t (
        insert_edge-Typed param_node arg r (p ++ param_byte ∷ []) n
          (EndsMarked-append p param_byte (inl refl)) t)
    in_parameter-Typed r p arg (c ∷ rest) n t =
        if_cases LeavesTyped (lower_byte c == slash_byte) _ _
          (checked-Typed (check_parameter arg) n _ t (
            and_then-Typed _ _
              (insert_edge-Typed param_node arg none (p ++ param_byte ∷ []) n
                (EndsMarked-append p param_byte (inl refl)) t)
              λ n' t'. scan-Typed r (p ++ param_byte ∷ slash_byte ∷ []) rest n' t'))
          (in_parameter-Typed r p (arg ++ c ∷ []) rest n t)

  pub add-Typed :
      (t : Tree R) (p : Text) (r : Option R)
      → Typed t.root
      → Ensures (λ (x : Tree R × Option AddError). Typed ((x.0).root)) (add t p r)
  unfolding add
  add-Typed t p r h =
      >>=-Ensures (λ (x : Node R × Option AddError). Typed (x.0))
        (λ (x : Tree R × Option AddError). Typed ((x.0).root)) _ _ (scan-Typed r [] p t.root h)
        λ x u. u

  -- every parameter or wildcard node of a tree that `add` built has a label that ends with `:` or `*`
  pub Built-Typed : (t : Tree R) (kvs : List (Text × R)) → Built t kvs → Typed t.root
  Built-Typed t kvs (start slash) = (tt, tt)
  Built-Typed t kvs (accepted {t = t0} p r b f) =
      Ensures-returns (λ (x : Tree R × Option AddError). Typed ((x.0).root)) _ _
        (add-Typed t0 (slash_byte ∷ p) (some r) (Built-Typed t0 _ b)) f
  Built-Typed t kvs (rejected {t = t0} p r e b f) =
      Ensures-returns (λ (x : Tree R × Option AddError). Typed ((x.0).root)) _ _
        (add-Typed t0 (slash_byte ∷ p) (some r) (Built-Typed t0 _ b)) f
