-- ===== src/Router/Tree/Lookup.antt =====
-- `lookup` of router/tree.go. A round of its loop goes to a child, or from a static child to the
-- parameter child beside it, so twice the height of the tree bounds the rounds.
pub mod Fuel
pub mod Pattern
pub mod Reached
pub mod Sound
pub mod Faults
pub mod Complete
use mathlib.Core.List.{tail}
use aah.Prelude.{
  ℕ, zero, suc, ◌+◌, ◌*◌, ◌-◌, Bool, true, false, not, ◌&&◌, ◌||◌, List, [], ◌∷◌, ◌++◌, Option,
  none, some, if◌then◌else◌, ltb, leb, ◌==◌, length,
}
use aah.Text.{Text, codes, text_eq, to_lower, drop, take}
use aah.Router.Escape.{path_unescape}
use aah.Router.Tree.{
  NodeType, static_node, param_node, wildcard_node, slash_byte, Info, Node, node, Edges, nil, cons,
  info, edges, wnode, find_by_idx, find_static, no_edges, common,
}

abbrev pub Params : Type 0
Params = List (Text × Text)

pub record Found (R : Type 0) : Type 0 where
  pub route : Option R
  pub params : Option Params
  pub rts : Bool

-- `panics` is an index or a slice out of range; `out_of_fuel` belongs to the model only.
pub data Result (R : Type 0) : Type 0 where
  ok : Found R → Result R
  panics out_of_fuel : Result R

-- what a round of the loop comes to: a result, or the variables of the next round
pub data Round (R : Type 0) : Type 0 where
  done : Result R → Round R
  next : Node R → Option (Node R) → Text → Text → Option Params → Round R

-- the length of the segment at the start of the path
unfoldable pub segment : Text → ℕ
segment [] = 0
segment (c ∷ s) = if c == slash_byte then 0 else suc (segment s)

abbrev pub last_is_slash : Text → Option Bool
last_is_slash [] = none
last_is_slash (c ∷ []) = some (c == slash_byte)
last_is_slash (c ∷ d ∷ s) = last_is_slash (d ∷ s)

abbrev pub params_so_far : Option Params → Params
params_so_far none = []
params_so_far (some ps) = ps

-- `params = params[:j+1]` and the two assignments: out of range beyond the capacity
abbrev pub push_param : ℕ → Option Params → Text → Text → Option Params
push_param max_params params key value =
    if ltb (length (params_so_far params)) max_params
    then some (params_so_far params ++ (key, value) ∷ [])
    else none

-- the bytes that a static node is compared on
abbrev pub shorter : Text → Text → ℕ
shorter s label = if leb (length s) (length label) then length s else length label

module _ {R : Type 0} where
  abbrev pub is_set : Option R → Bool
  is_set none = false
  is_set (some _) = true

  abbrev pub has_value : Option (Node R) → Bool
  has_value none = false
  has_value (some n) = is_set (info n).value

  abbrev pub nothing : Found R
  nothing = record { route = none; params = none; rts = false }

  abbrev pub redirect : Found R
  redirect = record { route = none; params = none; rts = true }

  abbrev pub found : Option R → Option Params → Found R
  found r params = record { route = r; params = params; rts = false }

  -- the path is read: `i` is how far the label of `sn` was read, and `pn` is its parent
  unfoldable pub finish : Bool → Node R → Node R → ℕ → Option Params → Result R
  finish traling_slash pn sn i params =
      if (ltb i (length (info sn).label) || not (is_set (info sn).value)) && traling_slash
      then elim (last_is_slash (info sn).label) [
        | none ↦ panics
        | some ends ↦ ok (
            if ends && is_set (info sn).value
            then redirect
            else if has_value (find_by_idx slash_byte (edges sn))
            then redirect
            else if is_set (info pn).value
            then redirect
            else found none params)
      ]
      else if is_set (info sn).value
      then ok (found (info sn).value params)
      else ok nothing

  abbrev pub or_else : Option (Node R) → Option (Node R) → Option (Node R)
  or_else none other = other
  or_else (some e) other = some e

  -- the child that a round ends with, for the byte that comes next
  abbrev pub next_node : Node R → Text → Option (Node R)
  next_node sn [] = none
  next_node sn (c ∷ s) = or_else (find_static c (edges sn)) (wnode (edges sn))

  -- the part of a round after `i` bytes of the path are read
  unfoldable pub advance : Bool → Node R → Node R → ℕ → Text → Text → Option Params → Round R
  unfolding finish
  advance traling_slash pn sn i s p params =
      let s' = drop i s in
      if length s' == 0
      then done (finish traling_slash pn sn i params)
      else if (length s' == 1) && text_eq s' (codes "/") && no_edges (edges sn)
      then done (ok (if is_set (info sn).value then redirect else nothing))
      else next sn (next_node sn s') s' (drop i p) params

  abbrev pub fall_back : Option (Node R) → Node R → Text → Text → Option Params → Round R
  fall_back none pn s p params = done (ok nothing)
  fall_back (some w) pn s p params = next pn (some w) s p params

  -- the rest of a round with the slice of parameters made longer
  abbrev pub with_params : Option Params → (Option Params → Round R) → Round R
  with_params none f = done panics
  with_params (some params) f = f (some params)

  unfoldable pub visit :
      NodeType → Bool → ℕ → Node R → Node R → Text → Text → Option Params → Round R
  unfolding advance
  visit static_node traling_slash max_params pn sn s p params =
      let i = common s (info sn).label in
      if not (i == shorter s (info sn).label)
      then fall_back (wnode (edges pn)) pn s p params
      else advance traling_slash pn sn i s p params
  visit param_node traling_slash max_params pn sn s p params =
      let i = segment s in
      with_params (push_param max_params params (info sn).arg (path_unescape (take i p)))
        (advance traling_slash pn sn i s p)
  visit wildcard_node traling_slash max_params pn sn s p params =
      with_params (push_param max_params params (info sn).arg (path_unescape p))
        (λ params'. done (ok (found (info sn).value params')))

  -- one round of the loop; `none` for `sn` is nil
  unfoldable pub round : Bool → ℕ → Node R → Option (Node R) → Text → Text → Option Params → Round R
  unfolding visit
  round traling_slash max_params pn none s p params = done (ok nothing)
  round traling_slash max_params pn (some sn) s p params =
      visit (info sn).typ traling_slash max_params pn sn s p params

  -- `continue walk`, or the return
  abbrev pub resume :
      (Node R → Option (Node R) → Text → Text → Option Params → Result R) → Round R → Result R
  resume k (done result) = result
  resume k (next pn sn s p params) = k pn sn s p params

  -- the loop `walk`, on fuel
  unfoldable pub walk :
      Bool → ℕ → ℕ → Node R → Option (Node R) → Text → Text → Option Params → Result R
  unfolding round
  walk traling_slash max_params zero pn sn s p params = out_of_fuel
  walk traling_slash max_params (suc fuel) pn sn s p params =
      resume (walk traling_slash max_params fuel) (round traling_slash max_params pn sn s p params)

  -- the arguments are the fields of the tree, the root and the path
  unfoldable pub lookup : Bool → ℕ → ℕ → Node R → Text → Result R
  unfolding walk
  lookup traling_slash max_params fuel root p =
      walk traling_slash max_params fuel root (some root) (to_lower p) p none
