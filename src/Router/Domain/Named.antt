-- ===== src/Router/Domain/Named.antt =====
-- router/domain.go: RouteURLNamedArgs. The map of arguments is the caller's, and what is deleted from it
-- stays deleted: it is returned as the second component. Values are texts as `%v` prints them, and a key
-- stands once in a map; net/url's PathEscape and Encode are parameters.
pub mod ByPosition
use aah.Prelude.{
  ℕ, Bool, ◌&&◌, List, [], ◌∷◌, ◌++◌, Option, none, some, if◌then◌else◌, ltb, ◌==◌, length,
}
use aah.Text.{Text, codes, text_eq, split, drop}
use aah.Router.Tree.{count_params}
use aah.Router.Paths.{join_path}
use aah.Router.Domain.{Domain, find_entry, is_parameter}

abbrev pub Arguments : Type 0
Arguments = List (Text × Text)

unfoldable pub delete_entry : Arguments → Text → Arguments
delete_entry [] k = []
delete_entry ((n, v) ∷ es) k = if text_eq n k then es else (n, v) ∷ delete_entry es k

-- `[1:]` on the segments, of which there is always one
abbrev pub behind_first : List Text → List Text
behind_first [] = []
behind_first (_ ∷ segments) = segments

module _ (path_escape : Text → Text) (encode : Arguments → Text) where
  -- the loop over the segments; `none` where a parameter is not in the map
  unfoldable pub reverse_named : Arguments → Text → List Text → Option Text × Arguments
  unfolding find_entry delete_entry
  reverse_named args reverse_url [] = (some reverse_url, args)
  reverse_named args reverse_url (segment ∷ segments) =
      let next : Option Text × Arguments = elim (find_entry args (drop 1 segment)) [
        | none ↦ (none, args)
        | some v ↦
            reverse_named (delete_entry args (drop 1 segment))
              (join_path reverse_url (path_escape v)) segments
      ] in
      let skip = reverse_named args reverse_url segments in
      let keep = reverse_named args (join_path reverse_url segment) segments in
      if length segment == 0 then skip else if is_parameter segment then next else keep

  -- the remaining arguments are the query
  unfoldable pub with_query : Option Text × Arguments → Text × Arguments
  with_query (none, left) = ([], left)
  with_query (some u, []) = (u, [])
  with_query (some u, e ∷ left) = (u ++ (codes "?" ++ encode (e ∷ left)), e ∷ left)

  -- the empty text is the result of an error
  unfoldable pub route_url_named_args : Domain → Text → Arguments → Text × Arguments
  unfolding find_entry reverse_named with_query
  route_url_named_args d route_name args = elim (find_entry d.routes route_name) [
    | none ↦ ([], args)
    | some route ↦
        let count = count_params route.path in
        if (count == 0) && (length args == 0)
        then (route.path, args)
        else if ltb (length args) count
        then ([], args)
        else with_query (reverse_named args (codes "/") (behind_first (split b'/' route.path)))
  ]
