-- ===== src/Router/Paths.antt =====
-- `path.Clean` and `path.Join` of Go's library, and the small functions of router/util.go on paths.
pub mod Rooted
use aah.Prelude.{Bool, true, false, ◌&&◌, List, [], ◌∷◌, ◌++◌, if◌then◌else◌, ◌==◌}
use aah.Text.{Text, codes, text_eq, is_nil, split, join}

abbrev drop_last : List Text → List Text
drop_last [] = []
drop_last (s ∷ []) = []
drop_last (s ∷ t ∷ ss) = s ∷ drop_last (t ∷ ss)

abbrev dot_dot : Text
dot_dot = codes ".."

-- whether every element is `..`
abbrev only_ups : List Text → Bool
only_ups [] = true
only_ups (s ∷ ss) = text_eq s dot_dot && only_ups ss

-- `..`, which goes no higher than the root
abbrev up : Bool → List Text → List Text
up true done = drop_last done
up false done = if only_ups done then done ++ dot_dot ∷ [] else drop_last done

-- the elements of a path, rooted or not, without the empty ones, `.` and `..`
unfoldable pub resolve : Bool → List Text → List Text → List Text
resolve rooted done [] = done
resolve rooted done (s ∷ ss) =
    resolve rooted
      (if is_nil s
        then done
        else if text_eq s (codes ".")
        then done
        else if text_eq s dot_dot
        then up rooted done
        else done ++ s ∷ [])
      ss

abbrev or_dot : Text → Text
or_dot [] = codes "."
or_dot (c ∷ s) = c ∷ s

-- path.Clean
unfoldable pub clean : Text → Text
unfolding resolve
clean [] = codes "."
clean (c ∷ s) =
    if c == b'/'
    then codes "/" ++ join (codes "/") (resolve true [] (split b'/' (c ∷ s)))
    else or_dot (join (codes "/") (resolve false [] (split b'/' (c ∷ s))))

-- path.Join of two elements
unfoldable pub join_path : Text → Text → Text
unfolding clean
join_path [] [] = []
join_path [] (c ∷ element) = clean (c ∷ element)
join_path (c ∷ base) element = clean ((c ∷ base) ++ (codes "/" ++ element))

unfoldable pub add_slash_prefix : Text → Text
add_slash_prefix [] = []
add_slash_prefix (c ∷ v) = if c == b'/' then c ∷ v else b'/' ∷ c ∷ v

unfoldable pub suffix_comma_value : Text → Text → Text
suffix_comma_value [] v = v
suffix_comma_value (c ∷ s) v = (c ∷ s) ++ (codes ", " ++ v)
