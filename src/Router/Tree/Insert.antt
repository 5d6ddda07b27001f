-- ===== src/Router/Tree/Insert.antt =====
-- `add` and `insertEdge` of router/tree.go. A call returns the tree as it leaves it, also where it
-- ends in an error; a call that panics on an empty string is `panics`. The loop of `insertEdge`
-- goes down the tree, so it is a recursion on the node.
pub mod Binds
pub mod Steps
pub mod Split
pub mod Lift
pub mod Refines
pub mod Adds
pub mod Built
pub mod Typed
pub mod TypedBuilt
use aah.Prelude.{
  ℕ, Bool, true, false, not, ◌&&◌, ◌||◌, [], ◌∷◌, ◌++◌, Option, none, some, if◌then◌else◌, ltb,
  ◌==◌, length,
}
use aah.Prelude.Outcome.{Outcome, returns, panics, ◌>>=◌}
use aah.Text.{drop, take, Text, text_eq, lower_byte, to_lower, index_byte}
use aah.Router.Tree.{
  NodeType, static_node, param_node, wildcard_node, slash_byte, param_byte, wild_byte, Info, Node,
  node, Edges, nil, cons, info, find_by_idx, common, count_params,
}
use aah.Router.Tree.Lookup.{is_set}

-- the error values; the texts that name the routes are left out
pub data AddError : Type 0 where
  edge_exists wildcard_misplaced name_required one_parameter_only same_path : AddError

-- a first byte, where the text is known not to be empty
abbrev pub first : Text → ℕ
first [] = 0
first (c ∷ s) = c

abbrev pub differs : Text → Text → Bool
differs s t = not (text_eq s t)

-- the test of `insertEdge` before it goes down to a child
abbrev pub other_param : Text → Text → Text → Bool
other_param arg s child_arg = (length s == 1) && ltb 0 (length child_arg) && differs child_arg arg

module _ {R : Type 0} where
  abbrev pub new_node : NodeType → Text → Text → Option R → Edges R → Node R
  new_node typ label arg value es =
      node (record { idx = first label; typ = typ; label = label; arg = arg; value = value }) es

  abbrev pub has_edge : ℕ → Edges R → Bool
  has_edge i es = elim (find_by_idx i es) [ none ↦ false | some _ ↦ true ]

  -- whether `addEdge` refuses a new node among these edges
  unfoldable pub refused : NodeType → Edges R → Bool
  refused param_node es = has_edge wild_byte es
  refused wildcard_node es = has_edge param_byte es
  refused static_node es = false

  -- the fields of the node that is split, with its lower half as an edge
  abbrev pub lower_half : Info R → ℕ → Edges R → Node R
  lower_half inf i es = new_node inf.typ (drop i inf.label) inf.arg inf.value es

  abbrev pub upper_half : Info R → ℕ → Info R
  upper_half inf i = record {
    idx = first inf.label;
    typ = static_node;
    label = take i inf.label;
    arg = [];
    value = none;
  }

  module _ (typ : NodeType) (arg : Text) (r : Option R) where
    -- the case `i == 0`
    unfoldable pub assign : Text → Info R → Edges R → Outcome (Node R × Option AddError)
    assign [] inf es = panics
    assign (c ∷ s) inf es = returns (
      node
          (record inf {
            idx = c;
            typ = typ;
            label = c ∷ s;
            value = if is_set r then r else inf.value;
            arg = if is_set r then arg else inf.arg;
          })
          es,
      none,
    )

    -- the case `i < len(sn.label)`
    unfoldable pub split_node : ℕ → Text → Info R → Edges R → Outcome (Node R × Option AddError)
    unfolding refused
    split_node i s inf es =
        let edge = lower_half inf i es in
        let upper = upper_half inf i in
        if i == length s
        then returns (node (record upper { typ = typ; value = r; arg = arg }) (cons edge nil), none)
        else if refused typ (cons edge nil)
        then returns (node upper (cons edge nil), some edge_exists)
        else returns (node upper (cons edge (cons (new_node typ (drop i s) arg r nil) nil)), none)

    -- the last case: the whole text is the label
    unfoldable pub set_value : Info R → Edges R → Outcome (Node R × Option AddError)
    set_value inf es =
        if is_set r
        then (if is_set inf.value
            then returns (node inf es, some same_path)
            else returns (node (record inf { value = r }) es, none))
        else returns (node inf es, none)

    -- a new edge behind the last one; `whole` are all edges of the node
    abbrev pub new_edge : Text → Edges R → Edges R × Option AddError
    new_edge s whole =
        if refused typ whole
        then (nil, some edge_exists)
        else (cons (new_node typ s arg r nil) nil, none)

  unfoldable mutual
    unfolding assign split_node set_value refused

    pub insert_node :
        NodeType → Text → Option R → Text → Node R → Outcome (Node R × Option AddError)
    insert_node typ arg r s (node inf es) =
        let i = common s inf.label in
        let child = insert_edges typ arg r (drop i s) es es in
        if i == 0
        then assign typ arg r s inf es
        else if ltb i (length inf.label)
        then split_node typ arg r i s inf es
        else if ltb i (length s)
        then (child >>= λ (es', e). returns (node inf es', e))
        else set_value typ arg r inf es

    -- the edge whose first byte is that of the text, or a new one
    pub insert_edges :
        NodeType → Text → Option R → Text → Edges R → Edges R → Outcome (Edges R × Option AddError)
    insert_edges typ arg r s whole nil = returns (new_edge typ arg r s whole)
    insert_edges typ arg r s whole (cons n es) =
        let here = insert_node typ arg r s n in
        let later = insert_edges typ arg r s whole es in
        if (info n).idx == first s
        then (if other_param arg s (info n).arg
            then returns (cons n es, some edge_exists)
            else (here >>= λ (n', e). returns (cons n' es, e)))
        else (later >>= λ (es', e). returns (cons n es', e))

  -- `insertEdge` on the tree with this root
  unfoldable pub insert_edge :
      NodeType → Text → Text → Option R → Node R → Outcome (Node R × Option AddError)
  unfolding insert_node
  insert_edge typ p arg r root = insert_node typ arg r p root

abbrev pub occurs_later : Option ℕ → Bool
occurs_later none = false
occurs_later (some i) = ltb 0 i

unfoldable pub check_parameter : Text → Option AddError
unfolding index_byte
check_parameter arg =
    if length arg == 0
    then some name_required
    else if occurs_later (index_byte arg param_byte) || occurs_later (index_byte arg wild_byte)
    then some one_parameter_only
    else none

abbrev pub Added : Type 0 → Type 0
Added R = Outcome (Node R × Option AddError)

module _ {R : Type 0} where
  -- go on unless the call before returned an error
  abbrev pub and_then : Added R → (Node R → Added R) → Added R
  and_then m k = m >>= λ (root, e). elim e [ none ↦ k root | some e' ↦ returns (root, some e') ]

  -- go on with the tree, whatever error the call before returned
  abbrev pub regardless : Added R → (Node R → Added R) → Added R
  regardless m k = m >>= λ (root, e). k root

  abbrev pub checked : Option AddError → Node R → Added R → Added R
  checked none root m = m
  checked (some e) root m = returns (root, some e)

  -- the case of `add` for a wildcard: `p` is what is read before it, and `rest` what comes after
  unfoldable pub add_wildcard : Option R → Text → Text → Node R → Added R
  unfolding check_parameter insert_edge
  add_wildcard r p rest root =
      if occurs_later (index_byte rest slash_byte)
      then returns (root, some wildcard_misplaced)
      else checked (check_parameter rest) root (
          regardless (insert_edge static_node p [] none root)
            λ root'. insert_edge wildcard_node (p ++ wild_byte ∷ []) rest r root')

  -- The loop of `add`. `p` is the lower-cased path that is read, its parameters shown as `:`, and
  -- the list is the path still to be read; `in_parameter` reads the name of a parameter.
  unfoldable mutual
    unfolding add_wildcard check_parameter insert_edge

    pub scan : Option R → Text → Text → Node R → Added R
    scan r p [] root = insert_edge static_node p [] r root
    scan r p (c ∷ rest) root =
        let parameter =
          regardless (insert_edge static_node p [] none root)
            λ root'. in_parameter r p [] rest root' in
        let plain = scan r (p ++ lower_byte c ∷ []) rest root in
        if lower_byte c == param_byte
        then parameter
        else if lower_byte c == wild_byte
        then add_wildcard r p rest root
        else plain

    pub in_parameter : Option R → Text → Text → Text → Node R → Added R
    in_parameter r p arg [] root =
        checked (check_parameter arg) root
          (insert_edge param_node (p ++ param_byte ∷ []) arg r root)
    in_parameter r p arg (c ∷ rest) root =
        let longer = in_parameter r p (arg ++ c ∷ []) rest root in
        let ended = checked (check_parameter arg) root (
          and_then (insert_edge param_node (p ++ param_byte ∷ []) arg none root)
            λ root'. scan r (p ++ param_byte ∷ slash_byte ∷ []) rest root') in
        if lower_byte c == slash_byte then ended else longer

pub record Tree (R : Type 0) : Type 0 where
  pub traling_slash : Bool
  pub max_params : ℕ
  pub root : Node R

abbrev pub with_root :
    {R : Type 0} → Tree R → ℕ → Node R × Option AddError → Tree R × Option AddError
with_root t max_params (root, e) = (record t { max_params = max_params; root = root }, e)

-- the root of `&tree{root: new(node)}`
abbrev pub new_root : (R : Type 0) → Node R
new_root R = node (record { idx = 0; typ = static_node; label = []; arg = []; value = none }) nil

unfoldable pub add : {R : Type 0} → Tree R → Text → Option R → Outcome (Tree R × Option AddError)
unfolding scan count_params
add t p r =
    let count = count_params (to_lower p) in
    let max_params = if ltb t.max_params count then count else t.max_params in
    scan r [] p t.root >>= λ result. returns (with_root t max_params result)
