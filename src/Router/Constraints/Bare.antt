-- ===== src/Router/Constraints/Bare.antt =====
-- A parameter without a constraint in a path that has one elsewhere.
use aah.Prelude.{◌≡◌, refl, true, ◌∷◌, ◌++◌}
use aah.Text.{Text, index_byte, split}
use aah.Text.Split.{Lacks, split-append_sep}
use aah.Text.Index.{index_byte-Lacks}
use aah.Router.Tree.{param_byte}
use aah.Router.Constraints.{
  rule_start_byte, rule_end_byte, parameter_constraint, out_of_range, parse_segments,
  route_constraint_exists, parse_route_constraints, panics,
}

-- the path `/:name/more`
abbrev pub bare_path : Text → Text → Text
bare_path name more = b'/' ∷ (param_byte ∷ (name ++ b'/' ∷ more))

parameter_constraint-bare :
    (name : Text)
    → Lacks rule_start_byte name
    → Lacks rule_end_byte name
    → parameter_constraint (param_byte ∷ name) ≡ out_of_range
unfolding parameter_constraint index_byte
parameter_constraint-bare name p q =
    rw (index_byte-Lacks rule_start_byte name p, index_byte-Lacks rule_end_byte name q) refl

-- A path whose first segment is a parameter without a constraint, and that has a constraint further
-- on, makes `parseRouteConstraints` panic.
pub parse_route_constraints-bare :
    (name more : Text)
    → Lacks b'/' name
    → Lacks rule_start_byte name
    → Lacks rule_end_byte name
    → route_constraint_exists (bare_path name more) ≡ true
    → parse_route_constraints (bare_path name more) ≡ panics
unfolding parse_route_constraints parse_segments split
parse_route_constraints-bare name more h p q e =
    rw (e, split-append_sep b'/' (param_byte ∷ name) more (refl, h))
      (rw (parameter_constraint-bare name p q) refl)
