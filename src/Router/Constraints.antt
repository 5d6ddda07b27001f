-- ===== src/Router/Constraints.antt =====
-- router/util.go: the constraints in square brackets behind the parameters of a route's path.
pub mod RoundTrip
pub mod Rooted
pub mod Bare
mod Tests
use aah.Prelude.{
  ℕ, suc, ◌+◌, ◌-◌, Bool, true, false, not, ◌&&◌, ◌||◌, List, [], ◌∷◌, ◌++◌, Option, none, some,
  if◌then◌else◌, ltb, leb, ◌==◌, length,
}
use aah.Text.{Text, codes, text_eq, trim_space, split, index_byte, drop, take}
use aah.Router.Tree.{param_byte, wild_byte}
use aah.Router.Paths.{join_path}

abbrev pub rule_start_byte : ℕ
rule_start_byte = b'['

abbrev pub rule_end_byte : ℕ
rule_end_byte = b']'

-- an index beyond 0
abbrev positive : Option ℕ → Bool
positive none = false
positive (some i) = ltb 0 i

unfoldable pub route_constraint_exists : Text → Bool
route_constraint_exists route_path =
    positive (index_byte route_path rule_start_byte)
    || positive (index_byte route_path rule_end_byte)

-- the results of `parameterConstraint`; `out_of_range` is the panic of a slice
pub data ParameterConstraint : Type 0 where
  constraint : Text → Text → Bool → ParameterConstraint
  malformed out_of_range : ParameterConstraint

-- `pathSeg[sidx+1 : eidx]` and `pathSeg[:sidx]`
abbrev between : Text → ℕ → ℕ → ParameterConstraint
between path_seg sidx eidx =
    let rule = trim_space (take (eidx - (sidx + 1)) (drop (sidx + 1) path_seg)) in
    if ltb eidx (sidx + 1)
    then out_of_range
    else constraint (trim_space (take sidx path_seg)) rule (ltb 0 (length rule))

-- By the two indices. Where both are -1 the slice ends at -1; where only the first is, the second is
-- 0 and `pathSeg[:sidx]` ends at -1.
abbrev pub by_index : Text → Option ℕ → Option ℕ → ParameterConstraint
by_index path_seg none none = out_of_range
by_index path_seg none (some eidx) = if ltb 0 eidx then malformed else out_of_range
by_index path_seg (some sidx) none = malformed
by_index path_seg (some sidx) (some eidx) = between path_seg sidx eidx

unfoldable pub parameter_constraint : Text → ParameterConstraint
parameter_constraint path_seg =
    by_index path_seg (index_byte path_seg rule_start_byte) (index_byte path_seg rule_end_byte)

-- the map of the constraints, and the results of `parseRouteConstraints`
abbrev pub Constraints : Type 0
Constraints = List (Text × Text)

pub data RouteConstraints : Type 0 where
  ok : Text → Option Constraints → RouteConstraints
  invalid : Text → Constraints → Text → RouteConstraints
  panics : RouteConstraints

abbrev pub put_constraint : Text → Text → Constraints → Constraints
put_constraint name rule [] = (name, rule) ∷ []
put_constraint name rule ((n, old) ∷ cs) =
    if text_eq n name then (n, rule) ∷ cs else (n, old) ∷ put_constraint name rule cs

-- `param[1:]`; the text is not empty where this is called on a segment that starts with its sign
abbrev pub name_of : Text → Option Text
name_of [] = none
name_of (c ∷ s) = some s

-- what a segment with a sign comes to, `k` being the rest of the loop
abbrev pub constrained :
    Text
    → Text
    → Constraints
    → Text
    → ParameterConstraint
    → (Constraints → Text → RouteConstraints)
    → RouteConstraints
constrained route_path seg cs actual malformed k = invalid route_path cs seg
constrained route_path seg cs actual out_of_range k = panics
constrained route_path seg cs actual (constraint param rule false) k = invalid route_path cs seg
constrained route_path seg cs actual (constraint param rule true) k = elim (name_of param) [
  | none ↦ panics
  | some name ↦ k (put_constraint name rule cs) (join_path actual param)
]

-- the loop, with the constraints and the actual path so far
unfoldable pub parse_segments : Text → Constraints → Text → List Text → RouteConstraints
unfolding parameter_constraint
parse_segments route_path cs actual [] = ok actual (some cs)
parse_segments route_path cs actual ([] ∷ segs) = panics
parse_segments route_path cs actual ((c ∷ seg) ∷ segs) =
    let plain = parse_segments route_path cs (join_path actual (c ∷ seg)) segs in
    let rule =
      constrained route_path (c ∷ seg) cs actual (parameter_constraint (c ∷ seg))
        (λ cs' actual'. parse_segments route_path cs' actual' segs) in
    if (c == param_byte) || (c == wild_byte) then rule else plain

abbrev pub after_first : List Text → List Text
after_first [] = []
after_first (s ∷ ss) = ss

unfoldable pub parse_route_constraints : Text → RouteConstraints
unfolding route_constraint_exists parse_segments
parse_route_constraints route_path =
    if not (route_constraint_exists route_path)
    then ok route_path none
    else parse_segments route_path [] (codes "/") (after_first (split b'/' route_path))
