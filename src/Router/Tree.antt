-- ===== src/Router/Tree.antt =====
-- router/tree.go: the radix tree that a domain keeps for each HTTP method. `R` is what a node
-- stores, a route. The field `wnode` is set once, by `inferwnode`, after the last route was added:
-- here it is computed from the edges.
pub mod Insert
pub mod Lookup
mod Tests
use aah.Prelude.{
  ℕ, zero, suc, ◌+◌, ◌≡◌, Bool, true, false, ◌&&◌, ◌||◌, List, [], ◌∷◌, Option, none, some,
  if◌then◌else◌, ltb, leb, ◌==◌, length,
}
use aah.Text.{Text}

pub data NodeType : Type 0 where
  static_node param_node wildcard_node : NodeType

abbrev pub is_static : NodeType → Bool
is_static static_node = true
is_static _ = false

abbrev pub slash_byte : ℕ
slash_byte = b'/'

abbrev pub param_byte : ℕ
param_byte = b':'

abbrev pub wild_byte : ℕ
wild_byte = b'*'

-- the fields of a node but its edges
pub record Info (R : Type 0) : Type 0 where
  pub idx : ℕ
  pub typ : NodeType
  pub label : Text
  pub arg : Text
  pub value : Option R

mutual
  pub data Node (R : Type 0) : Type 0 where
    node : Info R → Edges R → Node R

  pub data Edges (R : Type 0) : Type 0 where
    nil : Edges R
    cons : Node R → Edges R → Edges R

module _ {R : Type 0} where
  abbrev pub info : Node R → Info R
  info (node i es) = i

  abbrev pub edges : Node R → Edges R
  edges (node i es) = es

  -- what `inferwnode` stores in the node with these edges
  unfoldable pub wnode : Edges R → Option (Node R)
  wnode nil = none
  wnode (cons n es) = if is_static (info n).typ then wnode es else some n

  unfoldable pub find_by_idx : ℕ → Edges R → Option (Node R)
  find_by_idx i nil = none
  find_by_idx i (cons n es) = if (info n).idx == i then some n else find_by_idx i es

  -- the loop over the edges at the end of a round of `lookup`
  unfoldable pub find_static : ℕ → Edges R → Option (Node R)
  find_static i nil = none
  find_static i (cons n es) =
      if ((info n).idx == i) && is_static (info n).typ then some n else find_static i es

  abbrev pub push : Edges R → Node R → Edges R
  push nil nn = cons nn nil
  push (cons n es) nn = cons n (push es nn)

  abbrev pub no_edges : Edges R → Bool
  no_edges nil = true
  no_edges (cons _ _) = false

-- the length of the common prefix, `i` after the loop of `insertEdge` and of `lookup`
unfoldable pub common : Text → Text → ℕ
common (c ∷ s) (d ∷ t) = if c == d then suc (common s t) else 0
common _ _ = 0

unfoldable pub count_params_from : ℕ → Text → ℕ
count_params_from n [] = n
count_params_from n (c ∷ p) =
    count_params_from (if (c == param_byte) || (c == wild_byte) then n + 1 else n) p

-- a `uint8`, which stops at 255
unfoldable pub count_params : Text → ℕ
unfolding count_params_from
count_params p = let n = count_params_from 0 p in if leb 255 n then 255 else n
