-- ===== src/Router/Tree/Insert/Steps.antt =====
-- The cases of a round of `insertEdge` but the one that goes down to an edge.
use aah.Prelude.{
  ℕ, suc, ◌≡◌, ◌≢◌, refl, sym, ap, ◌↔◌, ◌⊎◌, inl, inr, [], ◌∷◌, ◌++◌, Option, none, some, arith,
  length, length-append, ==_refl, ==_iff, ◌==◌, Bool-cases, if◌then◌else◌,
}
use aah.Text.{Text}
use aah.Router.Tree.{Info, Node, node, Edges, nil, common, NodeType}
use aah.Router.Tree.Lookup.{is_set}
use aah.Router.Tree.Insert.{AddError, set_value, same_path}
use aah.Router.Tree.Insert.Binds.{Keyed, KeyedEdges, Added, Inserted, Inserts, BindsIn-nil}

-- the rests behind a common prefix
abbrev pub Apart : Text → Text → Type 0
Apart (c ∷ _) (d ∷ _) = c ≢ d
Apart _ _ = Unit

pub record Shared (s l : Text) : Type 0 where
  pub prefix : Text
  pub s_rest : Text
  pub l_rest : Text
  pub s_eq : s ≡ prefix ++ s_rest
  pub l_eq : l ≡ prefix ++ l_rest
  pub size : common s l ≡ length prefix
  pub apart : Apart s_rest l_rest

pub common-Shared : (s l : Text) → Shared s l
unfolding common
common-Shared [] l = record {
  prefix = [];
  s_rest = [];
  l_rest = l;
  s_eq = refl;
  l_eq = refl;
  size = refl;
  apart = tt;
}
common-Shared (c ∷ s) [] = record {
  prefix = [];
  s_rest = c ∷ s;
  l_rest = [];
  s_eq = refl;
  l_eq = refl;
  size = refl;
  apart = tt;
}
common-Shared (c ∷ s) (d ∷ l) = elim (Bool-cases (c == d)) [
  | inl e ↦
      let m = common-Shared s l in
      record {
        prefix = c ∷ m.prefix;
        s_rest = m.s_rest;
        l_rest = m.l_rest;
        s_eq = ap (◌∷◌ c) m.s_eq;
        l_eq = rw (sym ((==_iff c d).0 e)) (ap (◌∷◌ c) m.l_eq);
        size = rw e (ap suc m.size);
        apart = m.apart;
      }
  | inr e ↦ record {
    prefix = [];
    s_rest = c ∷ s;
    l_rest = d ∷ l;
    s_eq = refl;
    l_eq = refl;
    size = rw e refl;
    apart = λ f. cc (rw f at e, ==_refl d);
  }
]

pub append_self : (l k : Text) → l ≡ l ++ k → k ≡ []
append_self l [] h = refl
append_self l (c ∷ k) h = absurd (omega (arith, ap length h, length-append l (c ∷ k)))

module _ {R : Type 0} where
  -- the call binds nothing, and the node stays
  pub same-Inserted :
      (n : Node R) (s : Text) (r : Option R) (e : Option AddError)
      → Keyed n
      → (e ≡ none → r ≡ none)
      → Inserted n s r n e
  same-Inserted n s r e k h = record {
    keyed = k;
    edge = λ g. (g, refl);
    binds = λ k' v. (inl, λ x. elim x [ inl b ↦ b | inr (a, _, c) ↦ absurd (cc (h a, c)) ]);
    fresh = λ a x v c. absurd (cc (h a, c));
  }

  valued-Inserted :
      (inf : Info R) (es : Edges R) (x : R)
      → KeyedEdges es
      → inf.value ≡ none
      → Inserted (node inf es) inf.label (some x) (node (record inf { value = some x }) es) none
  valued-Inserted inf es x ks h = record {
    keyed = ks;
    edge = λ g. (g, refl);
    binds = λ k v. (
      (λ b. elim b [ inl (p, q) ↦ inr (refl, p, q) | inr t ↦ inl (inr t) ]),
      (λ b. elim b [
        | inl (inl (p, q)) ↦ absurd (cc (h, q))
        | inl (inr t) ↦ inr t
        | inr (_, p, q) ↦ inl (p, q)
      ]),
    );
    fresh = λ _ y v _ b. elim b [
      | inl (_, q) ↦ absurd (cc (h, q))
      | inr (k', p, t) ↦ BindsIn-nil v es ks (rw (append_self inf.label k' p) at t)
    ];
  }

module _ {R : Type 0} (typ : NodeType) (arg : Text) where
  -- the text is the label of the node
  set_value-cases :
      (o r : Option R) (inf : Info R) (es : Edges R)
      → KeyedEdges es
      → Inserts
          (set_value typ arg r (record inf { value = o }) es)
          (node (record inf { value = o }) es)
          inf.label
          r
  unfolding set_value
  set_value-cases o none inf es ks =
      (_, none, refl, same-Inserted _ inf.label none none ks λ _. refl)
  set_value-cases none (some x) inf es ks =
      (_, none, refl, valued-Inserted (record inf { value = none }) es x ks refl)
  set_value-cases (some y) (some x) inf es ks =
      (_, some same_path, refl, same-Inserted _ inf.label (some x) _ ks λ h. cc h)

  pub set_value-Inserts :
      (r : Option R) (inf : Info R) (es : Edges R)
      → KeyedEdges es
      → Inserts (set_value typ arg r inf es) (node inf es) inf.label r
  set_value-Inserts r inf es ks = set_value-cases inf.value r inf es ks

  abbrev pub assigned : Option R → ℕ → Text → Info R → Info R
  assigned r c s inf = record inf {
    idx = c;
    typ = typ;
    label = c ∷ s;
    value = if is_set r then r else inf.value;
    arg = if is_set r then arg else inf.arg;
  }

  -- the first text of a tree
  pub assign-Inserted :
      (r : Option R) (c : ℕ) (s : Text) (inf : Info R)
      → inf.value ≡ none
      → inf.label ≡ []
      → Inserted (node inf nil) (c ∷ s) r (node (assigned r c s inf) nil) none
  assign-Inserted r c s inf h l = record {
    keyed = tt;
    edge = λ (x, g). absurd (cc (l, g));
    binds = binds r;
    fresh = λ _ x v _ b. elim b [ inl (_, q) ↦ absurd (cc (h, q)) | inr (_, _, t) ↦ t ];
  }
    where
      binds :
          (o : Option R) (k : Text) (v : R)
          → (((k ≡ c ∷ s) × ((if is_set o then o else inf.value) ≡ some v))
              ⊎ ((k' : Text) × (k ≡ (c ∷ s) ++ k') × ⊥))
            ↔ ((((k ≡ inf.label) × (inf.value ≡ some v))
                  ⊎ ((k' : Text) × (k ≡ inf.label ++ k') × ⊥))
                ⊎ Added none (c ∷ s) o k v)
      binds none k v = (
        (λ b. elim b [ inl (_, q) ↦ absurd (cc (h, q)) | inr (_, _, t) ↦ elim t [ ] ]),
        (λ b. elim b [
          | inl (inl (_, q)) ↦ absurd (cc (h, q))
          | inl (inr (_, _, t)) ↦ elim t [ ]
          | inr (_, _, q) ↦ cc q
        ]),
      )
      binds (some x) k v = (
        (λ b. elim b [ inl (p, q) ↦ inr (refl, p, q) | inr (_, _, t) ↦ elim t [ ] ]),
        (λ b. elim b [
          | inl (inl (_, q)) ↦ absurd (cc (h, q))
          | inl (inr (_, _, t)) ↦ elim t [ ]
          | inr (_, p, q) ↦ inl (p, q)
        ]),
      )
