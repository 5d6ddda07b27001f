-- ===== src/Router/Constraints/Tests.antt =====
-- Runs of router/util.go on small inputs, and the theorems about it at such inputs.
use aah.Prelude.{◌≡◌, refl, [], ◌∷◌, some, none}
use aah.Text.{Text, codes, trim_space}
use aah.Router.Paths.{join_path}
use aah.Router.Constraints.{ok, invalid, panics, parse_route_constraints}

join_dots : join_path (codes "/a/b") (codes "../c//d/.") ≡ codes "/a/c/d"
unfolding join_path aah.Text.join aah.Text.split aah.Text.text_eq
join_dots = refl

parse_rules :
    parse_route_constraints (codes "/v1/users/:id[ gt=1 ]/:name[alpha]")
    ≡ ok
        (codes "/v1/users/:id/:name")
        (some ((codes "id", codes "gt=1") ∷ (codes "name", codes "alpha") ∷ []))
unfolding parse_route_constraints aah.Text.index_byte aah.Text.split trim_space join_path
    aah.Text.text_eq aah.Text.join
parse_rules = refl

parse_blank_rule :
    parse_route_constraints (codes "/users/:id[ ]")
    ≡ invalid (codes "/users/:id[ ]") [] (codes ":id[ ]")
unfolding parse_route_constraints aah.Text.index_byte aah.Text.split trim_space
parse_blank_rule = refl

parse_none : parse_route_constraints (codes "/users/:id") ≡ ok (codes "/users/:id") none
unfolding parse_route_constraints aah.Text.index_byte
parse_none = refl

-- an empty segment is read at its first byte
parse_double_slash : parse_route_constraints (codes "/users//:id[alpha]") ≡ panics
unfolding parse_route_constraints aah.Text.index_byte aah.Text.split
parse_double_slash = refl
