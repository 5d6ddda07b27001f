-- ===== src/Router/Constraints/Rooted.antt =====
-- The path that parseRouteConstraints of router/util.go leaves, for a path that starts with a slash.
use aah.Prelude.{refl, true, false, not, ◌||◌, List, [], ◌∷◌, ◌==◌, if_cases}
use aah.Text.{Text, codes, split}
use aah.Router.Tree.{param_byte, wild_byte}
use aah.Router.Paths.{join_path}
use aah.Router.Paths.Rooted.{Rooted, join_path-Rooted}
use aah.Router.Constraints.{
  Constraints, RouteConstraints, ok, invalid, panics, ParameterConstraint, malformed, out_of_range,
  constraint, constrained, parameter_constraint, parse_segments, after_first,
  route_constraint_exists, parse_route_constraints,
}

-- the path without its constraints
abbrev pub ActualRooted : RouteConstraints → Type 0
ActualRooted (ok p cs) = Rooted p
ActualRooted (invalid p cs seg) = Unit
ActualRooted panics = Unit

constrained-Rooted :
    (route_path seg : Text) (cs : Constraints) (actual : Text) (c : ParameterConstraint)
    (k : Constraints → Text → RouteConstraints)
    → Rooted actual
    → ((cs' : Constraints) (actual' : Text) → Rooted actual' → ActualRooted (k cs' actual'))
    → ActualRooted (constrained route_path seg cs actual c k)
constrained-Rooted route_path seg cs actual malformed k r h = tt
constrained-Rooted route_path seg cs actual out_of_range k r h = tt
constrained-Rooted route_path seg cs actual (constraint param rule false) k r h = tt
constrained-Rooted route_path seg cs actual (constraint [] rule true) k r h = tt
constrained-Rooted route_path seg cs actual (constraint (c ∷ name) rule true) k r h =
    h _ _ (join_path-Rooted actual (c ∷ name) r)

parse_segments-Rooted :
    (route_path : Text) (cs : Constraints) (actual : Text) (segs : List Text)
    → Rooted actual
    → ActualRooted (parse_segments route_path cs actual segs)
unfolding parse_segments
parse_segments-Rooted route_path cs actual [] r = r
parse_segments-Rooted route_path cs actual ([] ∷ segs) r = tt
parse_segments-Rooted route_path cs actual ((c ∷ seg) ∷ segs) r =
    if_cases ActualRooted ((c == param_byte) || (c == wild_byte)) _ _
      (constrained-Rooted route_path (c ∷ seg) cs actual (parameter_constraint (c ∷ seg)) _ r
        λ cs' actual' r'. parse_segments-Rooted route_path cs' actual' segs r')
      (parse_segments-Rooted route_path cs (join_path actual (c ∷ seg)) segs
        (join_path-Rooted actual (c ∷ seg) r))

pub parse_route_constraints-Rooted :
    (p : Text) → Rooted p → ActualRooted (parse_route_constraints p)
unfolding parse_route_constraints
parse_route_constraints-Rooted p r =
    if_cases ActualRooted (not (route_constraint_exists p)) _ _ r
      (parse_segments-Rooted p [] (codes "/") (after_first (split b'/' p)) (_, refl))
