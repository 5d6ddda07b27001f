-- ===== src/Router/Tree/Lookup/Reached.antt =====
-- What a round of `lookup` may reach, and the rounds that read a static node.
use aah.Prelude.{
  ℕ, ◌≡◌, ◌≤◌, ◌<◌, refl, ◌⊎◌, inl, inr, Bool, true, false, ◌&&◌, [], ◌∷◌, ◌++◌, append-nil, Option,
  some, arith, if◌then◌else◌, Bool-cases, length, ◌==◌, ==_iff,
}
use aah.Text.{drop, Text, codes, to_lower, text_eq}
use aah.Router.Tree.{static_node, Node, info, edges, wnode, no_edges, common}
use aah.Router.Tree.Lookup.{
  Params, Result, ok, done, next, params_so_far, is_set, nothing, redirect, next_node, push_param,
  advance, shorter, resume,
}
use aah.Router.Tree.Lookup.Pattern.{
  Pattern, Matches, pieces, Stores, here, below, InEdges, wnode-InEdges, next_node-InEdges,
  finish_route, common_whole, common_end, common_next, drop-to_lower, Matches-lits, Matches-label,
}

abbrev pub Walk : Type 0 → Type 0
Walk R = Node R → Option (Node R) → Text → Text → Option Params → Result R

pub length-zero : (s : Text) → length s ≡ 0 → s ≡ []
length-zero [] h = refl
length-zero (c ∷ s) h = absurd (omega arith)

pub push_param_eq :
    (max_params : ℕ) (params : Option Params) (key value : Text) (ps : Params)
    → push_param max_params params key value ≡ some ps
    → ps ≡ params_so_far params ++ (key, value) ∷ []
push_param_eq max_params params key value ps h = ground arith

module _ {R : Type 0} where
  abbrev pub hit : R → Option Params → Bool → Result R
  hit r out b = ok (record { route = some r; params = out; rts = b })

  -- A node stores the route under a pattern that the rest of the path matches, and the values of
  -- the match come after those that were collected.
  pub record Sound (n : Node R) (p : Text) (params out : Option Params) (r : R) : Type 0 where
    pub pattern : Pattern
    pub values : Params
    pub stores : Stores n pattern r
    pub matches : Matches pattern p values
    pub collected : params_so_far out ≡ params_so_far params ++ values

  -- the node of the round, or the parameter child of its parent
  abbrev pub Reached : Node R → Option (Node R) → Text → Option Params → Option Params → R → Type 0
  Reached pn sn p params out r =
      (m : Node R) × ((sn ≡ some m) ⊎ (wnode (edges pn) ≡ some m)) × Sound m p params out r

  abbrev pub SoundWalk : Walk R → Type 0
  SoundWalk k =
      (pn : Node R) (sn : Option (Node R)) (p : Text) (params out : Option Params) (r : R)
      (b : Bool)
      → k pn sn (to_lower p) p params ≡ hit r out b
      → Reached pn sn p params out r

  pub advance_more :
      (k : Walk R) (sn : Node R) (i : ℕ) (s p : Text) (params out : Option Params) (r : R)
      (b : Bool)
      → resume k (
          if (length (drop i s) == 1) && text_eq (drop i s) (codes "/") && no_edges (edges sn)
          then done (ok (if is_set (info sn).value then redirect else nothing))
          else next sn (next_node sn (drop i s)) (drop i s) (drop i p) params)
        ≡ hit r out b
      → k sn (next_node sn (drop i s)) (drop i s) (drop i p) params ≡ hit r out b
  advance_more k sn i s p params out r b h =
      elim (Bool-cases
        ((length (drop i s) == 1) && text_eq (drop i s) (codes "/") && no_edges (edges sn))) [
          | inl e ↦ absurd (no_hit (is_set (info sn).value) (rw e at h))
          | inr e ↦ rw e at h
        ]
    where
      no_hit : (v : Bool) → ok (if v then redirect else nothing) ≡ hit r out b → ⊥
      no_hit true e = cc e
      no_hit false e = cc e

  -- where the rest of a round comes to a hit: at the node, whose label is read, or further down
  pub advance_cases :
      (k : Walk R) (pn sn : Node R) (i : ℕ) (s p : Text) (params out : Option Params) (r : R)
      (b : Bool)
      → resume k (advance true pn sn i s p params) ≡ hit r out b
      → ((length (drop i s) ≡ 0)
          × (length (info sn).label ≤ i)
          × ((info sn).value ≡ some r)
          × (out ≡ params))
        ⊎ ((0 < length (drop i s))
            × (k sn (next_node sn (drop i s)) (drop i s) (drop i p) params ≡ hit r out b))
  unfolding advance
  advance_cases k pn sn i s p params out r b h = elim (Bool-cases (length (drop i s) == 0)) [
    | inl e ↦
        let (far, value, same) = finish_route pn sn i params out r b (rw e at h) in
        inl ((==_iff _ _).0 e, far, value, same)
    | inr e ↦ inr (ground arith, advance_more k sn i s p params out r b (rw e at h))
  ]

  -- what a hit further down says of the node above
  pub deeper :
      (k : Walk R)
      → SoundWalk k
      → (sn : Node R) (i : ℕ) (p : Text) (params out : Option Params) (r : R) (b : Bool)
      → k sn (next_node sn (drop i (to_lower p))) (drop i (to_lower p)) (drop i p) params
        ≡ hit r out b
      → (m : Node R) × InEdges m (edges sn) × Sound m (drop i p) params out r
  deeper k ih sn i p params out r b h =
      place (
        ih sn (next_node sn (to_lower (drop i p))) (drop i p) params out r b
          (rw drop-to_lower at h))
    where
      place :
          Reached sn (next_node sn (to_lower (drop i p))) (drop i p) params out r
          → (m : Node R) × InEdges m (edges sn) × Sound m (drop i p) params out r
      place (m, inl e, sound) = (m, next_node-InEdges sn m (to_lower (drop i p)) e, sound)
      place (m, inr e, sound) = (m, wnode-InEdges (edges sn) m e, sound)

  -- the label of a static node is read: the route is stored at the node or below
  pub static_read :
      (k : Walk R)
      → SoundWalk k
      → (pn sn : Node R) (p : Text) (params out : Option Params) (r : R) (b : Bool)
      → (info sn).typ ≡ static_node
      → common (to_lower p) (info sn).label ≡ shorter (to_lower p) (info sn).label
      → resume k (advance true pn sn (common (to_lower p) (info sn).label) (to_lower p) p params)
        ≡ hit r out b
      → Sound sn p params out r
  static_read k ih pn sn p params out r b t c h =
      place (advance_cases k pn sn (common (to_lower p) l) (to_lower p) p params out r b h)
    where
      l : Text
      l = (info sn).label

      place :
          ((length (drop (common (to_lower p) l) (to_lower p)) ≡ 0)
              × (length l ≤ common (to_lower p) l)
              × ((info sn).value ≡ some r)
              × (out ≡ params))
            ⊎ ((0 < length (drop (common (to_lower p) l) (to_lower p)))
                × (k sn
                      (next_node sn (drop (common (to_lower p) l) (to_lower p)))
                      (drop (common (to_lower p) l) (to_lower p))
                      (drop (common (to_lower p) l) p)
                      params
                    ≡ hit r out b))
          → Sound sn p params out r
      place (inl (z, far, value, same)) = record {
        pattern = pieces (info sn);
        values = [];
        stores = here value;
        matches = rw t (Matches-label l p (common_end (to_lower p) l z far));
        collected = rw (same, append-nil) refl;
      }
      place (inr (more, e)) =
          let (m, inside, sound) = deeper k ih sn (common (to_lower p) l) p params out r b e in
          record {
            pattern = pieces (info sn) ++ sound.pattern;
            values = sound.values;
            stores = below inside sound.stores;
            matches = rw t (
                Matches-lits l p (drop (length l) (to_lower p))
                  (common_whole (to_lower p) l (common_next (to_lower p) l c more))
                  (rw (← common_next (to_lower p) l c more) sound.matches));
            collected = sound.collected;
          }
