-- ===== src/Authz/Permission.antt =====
-- security/authz/permission.go: a permission, its order and its text.
pub mod Contains
pub mod Order
pub mod Parse
pub mod RoundTrip
use aah.Prelude.{
  ℕ, Bool, true, false, not, ◌&&◌, ◌||◌, List, [], ◌∷◌, ◌++◌, map, ◌==◌, if◌then◌else◌, length,
}
use aah.Text.{Text, codes, text_eq, to_lower, trim_space, is_str_empty, split, join}

abbrev pub wildcard_token : Text
wildcard_token = codes "*"

abbrev pub Parts : Type 0
Parts = List Text

pub record Permission : Type 0 where
  pub parts : List Parts

unfoldable pub contains : Parts → Text → Bool
contains [] part = false
contains (v ∷ p) part = if text_eq v part then true else contains p part

unfoldable pub contains_all : Parts → Parts → Bool
contains_all p [] = true
contains_all p (v ∷ pp) = if not (contains p v) then false else contains_all p pp

unfoldable pub contains_any : Parts → Parts → Bool
contains_any p [] = false
contains_any p (v ∷ pp) = if contains p v then true else contains_any p pp

-- the second loop of `Implies`, over the parts that this permission has beyond the other
unfoldable pub all_wildcards : List Parts → Bool
all_wildcards [] = true
all_wildcards (part ∷ ps) = if not (contains part wildcard_token) then false else all_wildcards ps

-- the first loop of `Implies`: the parts of this permission from index `i` on, and those of the
-- other that are still to be read
unfoldable pub implies_from : List Parts → List Parts → Bool
unfolding all_wildcards
implies_from ps [] = all_wildcards ps
implies_from [] (other ∷ os) = true
implies_from (part ∷ ps) (other ∷ os) =
    if not (contains part wildcard_token) && not (contains_all part other)
    then false
    else implies_from ps os

unfoldable pub implies : Permission → Permission → Bool
unfolding implies_from
implies p permission = implies_from p.parts permission.parts

-- the loop of `Equals`, over two lists of one length
unfoldable pub equals_from : List Parts → List Parts → Bool
equals_from (part ∷ ps) (other ∷ os) =
    if not (contains_all part other) then false else equals_from ps os
equals_from _ _ = true

unfoldable pub equals : Permission → Permission → Bool
unfolding equals_from
equals p permission =
    if not (length p.parts == length permission.parts)
    then false
    else equals_from p.parts permission.parts

-- the text between the brackets of `String`
unfoldable pub render : List Parts → Text
render ps = join (codes ":") (map (join (codes ",")) ps)

unfoldable pub string : Permission → Text
unfolding render
string p = codes "permission(" ++ (render p.parts ++ codes ")")

pub data PermissionError : Type 0 where
  string_empty improper_format : PermissionError

pub data Parsed : Type 0 where
  ok : Permission → Parsed
  err : PermissionError → Parsed

-- the loop over the pieces between the commas of a part
unfoldable pub sub_parts : List Text → Parts
sub_parts [] = []
sub_parts (sp ∷ sps) =
    if not (is_str_empty sp) then trim_space sp ∷ sub_parts sps else sub_parts sps

abbrev pub lone_blank : List Text → Bool
lone_blank (s ∷ []) = is_str_empty s
lone_blank _ = false

abbrev pub push : Permission → Parts → Permission
push p sparts = record p { parts = p.parts ++ (sparts ∷ []) }

-- the loop over the pieces between the colons; `p` is the permission under construction
unfoldable pub parse_parts : Permission → List Text → Parsed
unfolding sub_parts
parse_parts p [] = if length p.parts == 0 then err improper_format else ok p
parse_parts p (part ∷ rest) =
    let subs = split b',' part in
    let more = parse_parts (push p (sub_parts subs)) rest in
    if lone_blank subs then err improper_format else more

-- `NewPermissioncs`, on the permission that the pool hands out
unfoldable pub parse_into : Permission → Text → Bool → Parsed
unfolding parse_parts
parse_into p permission case_sensitive =
    let trimmed = trim_space permission in
    let folded = if not case_sensitive then to_lower trimmed else trimmed in
    if is_str_empty trimmed then err string_empty else parse_parts p (split b':' folded)

-- what `acquirePermission` returns where every pooled permission has been reset (Pool.antt)
abbrev pub blank : Permission
blank = record { parts = [] }

unfoldable pub new_permission_cs : Text → Bool → Parsed
unfolding parse_into
new_permission_cs permission case_sensitive = parse_into blank permission case_sensitive

unfoldable pub new_permission : Text → Parsed
unfolding new_permission_cs
new_permission permission = new_permission_cs permission false
