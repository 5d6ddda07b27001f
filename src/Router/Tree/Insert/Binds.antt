-- ===== src/Router/Tree/Insert/Binds.antt =====
-- What the tree of router/tree.go stands for: texts bound to routes. A node binds the texts that
-- start with its label. The edges of a node start with different bytes, which `idx` repeats.
use aah.Prelude.{
  ℕ, ◌≡◌, ◌≢◌, sym, ap, ◌∙◌, ◌↔◌, ◌⊎◌, inl, inr, [], ◌∷◌, ◌++◌, append-nil, Option, none, some,
}
use aah.Text.{Text}
use aah.Router.Tree.{Node, node, Edges, nil, cons, info, edges, slash_byte}
use aah.Router.Tree.Insert.{first, AddError}
use aah.Prelude.Outcome.{Outcome, returns}

module _ {R : Type 0} where
  abbrev mutual
    pub Binds : Text → R → Node R → Type 0
    Binds k v (node inf es) =
        ((k ≡ inf.label) × (inf.value ≡ some v))
        ⊎ ((k' : Text) × (k ≡ inf.label ++ k') × BindsIn k' v es)

    pub BindsIn : Text → R → Edges R → Type 0
    BindsIn k v nil = ⊥
    BindsIn k v (cons n es) = Binds k v n ⊎ BindsIn k v es

  -- an edge: its label is not empty, and `idx` is the first byte
  abbrev pub IsEdge : Node R → Type 0
  IsEdge n = (l : Text) × ((info n).label ≡ (info n).idx ∷ l)

  abbrev pub NoneAt : ℕ → Edges R → Type 0
  NoneAt i nil = Unit
  NoneAt i (cons n es) = ((info n).idx ≢ i) × NoneAt i es

  abbrev mutual
    pub Keyed : Node R → Type 0
    Keyed (node inf es) = KeyedEdges es

    pub KeyedEdges : Edges R → Type 0
    KeyedEdges nil = Unit
    KeyedEdges (cons n es) = IsEdge n × Keyed n × NoneAt (info n).idx es × KeyedEdges es

  -- the root before the first `add`, and after it
  abbrev pub IsRoot : Node R → Type 0
  IsRoot n =
      (((info n).label ≡ []) × ((info n).value ≡ none) × (edges n ≡ nil))
      ⊎ (IsEdge n × ((info n).idx ≡ slash_byte))

  -- what a call with the text `s`, the route `r` and the result `e` binds
  abbrev pub Added : Option AddError → Text → Option R → Text → R → Type 0
  Added e s r k v = (e ≡ none) × (k ≡ s) × (r ≡ some v)

  -- the node `n` became `n'`
  pub record Inserted (n : Node R) (s : Text) (r : Option R) (n' : Node R) (e : Option AddError)
      : Type 0 where
    pub keyed : Keyed n'
    pub edge : IsEdge n → IsEdge n' × ((info n').idx ≡ (info n).idx)
    pub binds : (k : Text) (v : R) → Binds k v n' ↔ (Binds k v n ⊎ Added e s r k v)
    pub fresh : e ≡ none → (x v : R) → r ≡ some x → Binds s v n → ⊥

  pub record InsertedIn (es : Edges R) (s : Text) (r : Option R) (es' : Edges R)
      (e : Option AddError) : Type 0 where
    pub keyed : KeyedEdges es'
    pub none_at : (i : ℕ) → i ≢ first s → NoneAt i es → NoneAt i es'
    pub binds : (k : Text) (v : R) → BindsIn k v es' ↔ (BindsIn k v es ⊎ Added e s r k v)
    pub fresh : e ≡ none → (x v : R) → r ≡ some x → BindsIn s v es → ⊥

  abbrev pub Inserts : Outcome (Node R × Option AddError) → Node R → Text → Option R → Type 0
  Inserts m n s r =
      (n' : Node R) × (e : Option AddError) × (m ≡ returns (n', e)) × Inserted n s r n' e

  abbrev pub InsertsIn : Outcome (Edges R × Option AddError) → Edges R → Text → Option R → Type 0
  InsertsIn m es s r =
      (es' : Edges R) × (e : Option AddError) × (m ≡ returns (es', e)) × InsertedIn es s r es' e

  pub Binds-prefix :
      (k : Text) (v : R) (n : Node R) → Binds k v n → (k' : Text) × (k ≡ (info n).label ++ k')
  Binds-prefix k v (node inf es) (inl (e, _)) = ([], e ∙ sym (append-nil inf.label))
  Binds-prefix k v (node inf es) (inr (k', e, _)) = (k', e)

  -- an edge binds only what starts with its byte
  pub IsEdge-first :
      (k : Text) (v : R) (n : Node R)
      → IsEdge n
      → Binds k v n
      → (k' : Text) × (k ≡ (info n).idx ∷ k')
  IsEdge-first k v n (l, e) b =
      let (k', f) = Binds-prefix k v n b in (l ++ k', f ∙ ap (λ (x : Text). x ++ k') e)

  pub NoneAt-BindsIn :
      (c : ℕ) (s : Text) (v : R) (es : Edges R)
      → KeyedEdges es
      → NoneAt c es
      → BindsIn (c ∷ s) v es
      → ⊥
  NoneAt-BindsIn c s v nil _ _ b = elim b [ ]
  NoneAt-BindsIn c s v (cons n es) (e, _, _, _) (d, _) (inl b) =
      let (k', f) = IsEdge-first (c ∷ s) v n e b in d (sym (ap first f))
  NoneAt-BindsIn c s v (cons n es) (_, _, _, ks) (_, ds) (inr b) = NoneAt-BindsIn c s v es ks ds b

  pub BindsIn-nil : (v : R) (es : Edges R) → KeyedEdges es → BindsIn [] v es → ⊥
  BindsIn-nil v nil _ b = elim b [ ]
  BindsIn-nil v (cons n es) (e, _, _, _) (inl b) = let (k', f) = IsEdge-first [] v n e b in cc f
  BindsIn-nil v (cons n es) (_, _, _, ks) (inr b) = BindsIn-nil v es ks b
