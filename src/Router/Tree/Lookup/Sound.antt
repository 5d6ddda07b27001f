-- ===== src/Router/Tree/Lookup/Sound.antt =====
-- Where a route that `lookup` of router/tree.go finds is stored.
use mathlib.Core.Path.{subst}
use aah.Prelude.{
  ℕ, zero, suc, ◌≡◌, ◌≤◌, ◌<◌, refl, sym, ap, ◌∙◌, ◌⊎◌, inl, inr, Bool, true, [], ◌∷◌, ◌++◌,
  append_assoc, Option, none, some, some_inj, arith, Bool-cases, length, ◌==◌, ==_iff,
}
use aah.Text.{drop, take, Text, to_lower}
use aah.Router.Escape.{path_unescape}
use aah.Router.Tree.{
  NodeType, static_node, param_node, wildcard_node, Node, info, edges, wnode, common,
}
use aah.Router.Tree.Lookup.{
  Params, ok, done, segment, params_so_far, found, next_node, push_param, advance, shorter,
  with_params, fall_back, visit, round, resume, walk, lookup,
}
use aah.Router.Tree.Lookup.Pattern.{
  Pattern, Matches, end, segment_of, rest_of, pieces, Stores, here, below, segment-to_lower,
  drop-to_lower, length-to_lower, segment-no_slash, take-append-drop,
}
use aah.Router.Tree.Lookup.Reached.{
  Walk, length-zero, push_param_eq, hit, Sound, Reached, SoundWalk, advance_cases, deeper,
  static_read,
}

module _ {R : Type 0} where
  visit_static :
      (k : Walk R)
      → SoundWalk k
      → (max_params : ℕ) (pn sn : Node R) (p : Text) (params out : Option Params) (r : R) (b : Bool)
      → (info sn).typ ≡ static_node
      → resume k (visit static_node true max_params pn sn (to_lower p) p params) ≡ hit r out b
      → Reached pn (some sn) p params out r
  unfolding visit
  visit_static k ih max_params pn sn p params out r b t h =
      elim (Bool-cases
        (common (to_lower p) (info sn).label == shorter (to_lower p) (info sn).label)) [
          | inl e ↦ (
            sn,
            inl refl,
            static_read k ih pn sn p params out r b t ((==_iff _ _).0 e) (rw e at h),
          )
          | inr e ↦ fallen (wnode (edges pn)) refl (rw e at h)
        ]
    where
      fallen :
          (o : Option (Node R))
          → wnode (edges pn) ≡ o
          → resume k (fall_back o pn (to_lower p) p params) ≡ hit r out b
          → Reached pn (some sn) p params out r
      fallen none e h' = absurd (cc h')
      fallen (some w) e h' = beside (ih pn (some w) p params out r b h')
        where
          beside : Reached pn (some w) p params out r → Reached pn (some sn) p params out r
          beside (m, inl f, sound) = (m, inr (e ∙ f), sound)
          beside (m, inr f, sound) = (m, inr f, sound)

  -- a segment is read: the route is stored at the parameter node or below
  param_read :
      (k : Walk R)
      → SoundWalk k
      → (pn sn : Node R) (p : Text) (params out : Option Params) (ps : Params) (r : R) (b : Bool)
      → (info sn).typ ≡ param_node
      → ps ≡ params_so_far params ++ ((info sn).arg, path_unescape (take (segment p) p)) ∷ []
      → resume k (advance true pn sn (segment p) (to_lower p) p (some ps)) ≡ hit r out b
      → Sound sn p params out r
  param_read k ih pn sn p params out ps r b t same h =
      place (advance_cases k pn sn (segment p) (to_lower p) p (some ps) out r b h)
    where
      v : Text
      v = take (segment p) p

      place :
          ((length (drop (segment p) (to_lower p)) ≡ 0)
              × (length (info sn).label ≤ segment p)
              × ((info sn).value ≡ some r)
              × (out ≡ some ps))
            ⊎ ((0 < length (drop (segment p) (to_lower p)))
                × (k sn
                      (next_node sn (drop (segment p) (to_lower p)))
                      (drop (segment p) (to_lower p))
                      (drop (segment p) p)
                      (some ps)
                    ≡ hit r out b))
          → Sound sn p params out r
      place (inl (z, far, value, e)) = record {
        pattern = pieces (info sn);
        values = ((info sn).arg, path_unescape v) ∷ [];
        stores = here value;
        matches = rw t (
            segment_of v (drop (segment p) p) (take-append-drop (segment p) p) (segment-no_slash p)
              (rw (length-zero (drop (segment p) p) (rw (drop-to_lower, length-to_lower) at z))
                end));
        collected = rw e same;
      }
      place (inr (more, e)) =
          let (m, inside, sound) = deeper k ih sn (segment p) p (some ps) out r b e in
          record {
            pattern = pieces (info sn) ++ sound.pattern;
            values = ((info sn).arg, path_unescape v) ∷ sound.values;
            stores = below inside sound.stores;
            matches = rw t (
                segment_of v (drop (segment p) p) (take-append-drop (segment p) p)
                  (segment-no_slash p) sound.matches);
            collected =
                sound.collected
                ∙ ap (λ (x : Params). x ++ sound.values) same
                ∙ append_assoc (params_so_far params) (((info sn).arg, path_unescape v) ∷ [])
                    sound.values;
          }

  visit_param :
      (k : Walk R)
      → SoundWalk k
      → (max_params : ℕ) (pn sn : Node R) (p : Text) (params out : Option Params) (r : R) (b : Bool)
      → (info sn).typ ≡ param_node
      → resume k (visit param_node true max_params pn sn (to_lower p) p params) ≡ hit r out b
      → Sound sn p params out r
  unfolding visit
  visit_param k ih max_params pn sn p params out r b t h =
      collected_with (push_param max_params params (info sn).arg v) refl (rw segment-to_lower at h)
    where
      v : Text
      v = path_unescape (take (segment p) p)

      collected_with :
          (o : Option Params)
          → push_param max_params params (info sn).arg v ≡ o
          → resume k (with_params o (advance true pn sn (segment p) (to_lower p) p)) ≡ hit r out b
          → Sound sn p params out r
      collected_with none e h' = absurd (cc h')
      collected_with (some ps) e h' =
          param_read k ih pn sn p params out ps r b t
            (push_param_eq max_params params (info sn).arg v ps e) h'

  visit_wildcard :
      (k : Walk R) (max_params : ℕ) (pn sn : Node R) (p : Text) (params out : Option Params) (r : R)
      (b : Bool)
      → (info sn).typ ≡ wildcard_node
      → resume k (visit wildcard_node true max_params pn sn (to_lower p) p params) ≡ hit r out b
      → Sound sn p params out r
  unfolding visit
  visit_wildcard k max_params pn sn p params out r b t h =
      collected_with (push_param max_params params (info sn).arg (path_unescape p)) refl h
    where
      collected_with :
          (o : Option Params)
          → push_param max_params params (info sn).arg (path_unescape p) ≡ o
          → resume k (with_params o (λ ps. done (ok (found (info sn).value ps)))) ≡ hit r out b
          → Sound sn p params out r
      collected_with none e h' = absurd (cc h')
      collected_with (some ps) e h' = record {
        pattern = pieces (info sn);
        values = ((info sn).arg, path_unescape p) ∷ [];
        stores = here (ground arith);
        matches = rw t rest_of;
        collected =
            ground (arith, push_param_eq max_params params (info sn).arg (path_unescape p) ps e);
      }

  visit-Reached :
      (k : Walk R)
      → SoundWalk k
      → (typ : NodeType) (max_params : ℕ) (pn sn : Node R) (p : Text) (params out : Option Params)
        (r : R) (b : Bool)
      → (info sn).typ ≡ typ
      → resume k (visit typ true max_params pn sn (to_lower p) p params) ≡ hit r out b
      → Reached pn (some sn) p params out r
  visit-Reached k ih static_node max_params pn sn p params out r b t h =
      visit_static k ih max_params pn sn p params out r b t h
  visit-Reached k ih param_node max_params pn sn p params out r b t h =
      (sn, inl refl, visit_param k ih max_params pn sn p params out r b t h)
  visit-Reached k ih wildcard_node max_params pn sn p params out r b t h =
      (sn, inl refl, visit_wildcard k max_params pn sn p params out r b t h)

  walk-SoundWalk : (max_params fuel : ℕ) → SoundWalk {R = R} (walk true max_params fuel)
  unfolding walk round
  walk-SoundWalk max_params zero pn sn p params out r b h = absurd (cc h)
  walk-SoundWalk max_params (suc fuel) pn none p params out r b h = absurd (cc h)
  walk-SoundWalk max_params (suc fuel) pn (some sn) p params out r b h =
      visit-Reached (walk true max_params fuel) (walk-SoundWalk max_params fuel) (info sn).typ
        max_params pn sn p params out r b refl h

  -- Where the tree redirects trailing slashes, a route that `lookup` finds is stored, under a
  -- pattern that the path matches with the parameters returned, below the root, or, where the path
  -- parts from the root's label, below the parameter child of the root.
  pub lookup_sound :
      (max_params fuel : ℕ) (root : Node R) (p : Text) (r : R) (out : Option Params) (b : Bool)
      → lookup true max_params fuel root p ≡ hit r out b
      → (m : Node R) × ((m ≡ root) ⊎ (wnode (edges root) ≡ some m))
        × (q : Pattern) × Stores m q r
        × Matches q p (params_so_far out)
  unfolding lookup
  lookup_sound max_params fuel root p r out b h =
      unpack (walk-SoundWalk max_params fuel root (some root) p none out r b h)
    where
      unpack :
          Reached root (some root) p none out r
          → (m : Node R) × ((m ≡ root) ⊎ (wnode (edges root) ≡ some m))
            × (q : Pattern) × Stores m q r
            × Matches q p (params_so_far out)
      unpack (m, inl e, sound) = (
        m,
        inl (sym (some_inj e)),
        sound.pattern,
        sound.stores,
        subst (Matches sound.pattern p) (sym sound.collected) sound.matches,
      )
      unpack (m, inr e, sound) = (
        m,
        inr e,
        sound.pattern,
        sound.stores,
        subst (Matches sound.pattern p) (sym sound.collected) sound.matches,
      )
