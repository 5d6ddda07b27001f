-- ===== src/Router/Route.antt =====
-- router/route.go: what a route asks of a subject's roles and permissions, and how that is read from
-- the configuration. A Go map is the list of its entries in the order that a loop visits them. The
-- subject's AuthorizationInfo is not nil.
pub mod Calls
pub mod Loops
pub mod Access
pub mod Parse
mod Tests
use aah.Prelude.{
  ℕ, zero, suc, ◌+◌, ◌-◌, Bool, true, false, not, ◌&&◌, ◌||◌, List, [], ◌∷◌, ◌++◌, Option, none,
  some, if◌then◌else◌, ltb, ◌==◌, length,
}
use aah.Prelude.Outcome.{Outcome, returns, panics, ◌>>=◌}
use aah.Text.{Text, codes, text_eq, trim_space, is_nil, split, join, count, index_byte, drop, take}
use aah.Authz.Info.{
  AuthorizationInfo, has_role, has_any_role, has_all_roles, is_permitted, is_permitted_all,
  roles_text, permissions_text,
}

abbrev pub Entries : Type 0
Entries = List (Text × List Text)

-- the type authorizationInfo
pub record RouteAuthorization : Type 0 where
  pub satisfy : Text
  pub roles : Entries
  pub permissions : Entries

pub record Reason : Type 0 where
  pub func : Text
  pub expected : Text
  pub got : Text

unfoldable pub satisfy_either : RouteAuthorization → Bool
satisfy_either i = text_eq i.satisfy (codes "either")

-- `inputs[0]`
abbrev pub first : List Text → Outcome Text
first [] = panics
first (v ∷ _) = returns v

-- the switch of the first loop: a name that is none of the three leaves `roles_result` as it is
unfoldable pub call_role : AuthorizationInfo → Bool → Text → List Text → Outcome Bool
call_role a roles_result fn inputs =
    if text_eq fn (codes "hasrole")
    then (first inputs >>= λ role. returns (has_role a role))
    else if text_eq fn (codes "hasanyrole")
    then returns (has_any_role a inputs)
    else if text_eq fn (codes "hasallroles")
    then returns (has_all_roles a inputs)
    else returns roles_result

-- the switch of the second loop
unfoldable pub call_permission : AuthorizationInfo → Bool → Text → List Text → Outcome Bool
call_permission a permission_result fn inputs =
    if text_eq fn (codes "ispermitted")
    then (first inputs >>= λ permission. is_permitted a permission)
    else if text_eq fn (codes "ispermittedall")
    then is_permitted_all a inputs
    else returns permission_result

abbrev pub reason : Text → List Text → Text → Reason
reason fn inputs got = record { func = fn; expected = join (codes ", ") inputs; got = got }

unfoldable pub check_roles : AuthorizationInfo → Bool → Entries → Outcome (Bool × List Reason)
unfolding call_role
check_roles a roles_result [] = returns (roles_result, [])
check_roles a roles_result ((fn, inputs) ∷ rest) = do
  result ← call_role a roles_result fn inputs
  if not result
      then returns (false, reason fn inputs (roles_text a) ∷ [])
      else check_roles a result rest

unfoldable pub check_permissions : AuthorizationInfo → Bool → Entries → Outcome (Bool × List Reason)
unfolding call_permission
check_permissions a permission_result [] = returns (permission_result, [])
check_permissions a permission_result ((fn, inputs) ∷ rest) = do
  result ← call_permission a permission_result fn inputs
  if not result
      then (permissions_text a >>= λ got. returns (false, reason fn inputs got ∷ []))
      else check_permissions a result rest

-- the end of `HasAccess`
unfoldable pub decide : RouteAuthorization → Bool → Bool → Bool
unfolding satisfy_either
decide i roles_result permission_result =
    if satisfy_either i
    then (if is_nil i.roles
        then permission_result
        else if is_nil i.permissions
        then roles_result
        else roles_result || permission_result)
    else roles_result && permission_result

unfoldable pub has_access :
    Option RouteAuthorization → AuthorizationInfo → Outcome (Bool × List Reason)
unfolding check_roles check_permissions decide
has_access none a = returns (true, [])
has_access (some i) a = if is_nil i.roles && is_nil i.permissions then returns (true, []) else do
  x ← check_roles a true i.roles
  if not (satisfy_either i) && not (x.0)
      then returns (false, x.1)
      else (check_permissions a true i.permissions >>= λ y.
          returns (decide i (x.0) (y.0), x.1 ++ y.1))

-- the errors carry the index and what the message shows
pub data ValuesError : Type 0 where
  brackets no_input one_input : ℕ → Text → ValuesError

pub data Parsed (A : Type 0) : Type 0 where
  ok : A → Parsed A
  err : ValuesError → Parsed A
  both_incomplete out_of_range : Parsed A

-- `info[fnName] = values`
abbrev pub put : Text → List Text → Entries → Entries
put fn values [] = (fn, values) ∷ []
put fn values ((g, old) ∷ info) =
    if text_eq g fn then (g, values) ∷ info else (g, old) ∷ put fn values info

abbrev pub non_empty_values : List Text → List Text
non_empty_values [] = []
non_empty_values (v ∷ vs) =
    let rest = non_empty_values vs in
    if ltb 0 (length (trim_space v)) then trim_space v ∷ rest else rest

-- the values of an entry, from the text between its brackets
unfoldable pub entry_values : ℕ → ℕ → Text → ℕ → ℕ → Parsed (List Text)
entry_values pos delim src start end =
    let values = non_empty_values (split delim (take (end - (start + 1)) (drop (start + 1) src))) in
    let fn = take start src in
    if ltb end (start + 1)
    then out_of_range
    else if length values == 0
    then err (no_input (pos + 1) src)
    else if (text_eq fn (codes "hasrole") || text_eq fn (codes "ispermitted"))
        && ltb 1 (length values)
    then err (one_input (pos + 1) fn)
    else ok values

infixl 5 ◌then◌
abbrev pub ◌then◌ : {A B : Type 0} → Parsed A → (A → Parsed B) → Parsed B
ok a then f = f a
err e then f = err e
both_incomplete then f = both_incomplete
out_of_range then f = out_of_range

-- one round of the loop: the name and the values
unfoldable pub parse_entry : ℕ → ℕ → Text → Parsed (Text × List Text)
unfolding entry_values
parse_entry pos delim src =
    if not (count b'(' src == 1) || not (count b')' src == 1)
    then err (brackets (pos + 1) src)
    else elim (index_byte src b'(') [
      | none ↦ out_of_range
      | some start ↦ elim (index_byte src b')') [
        | none ↦ out_of_range
        | some end ↦ entry_values pos delim src start end then λ values. ok (take start src, values)
      ]
    ]

-- the loop, at index `pos` with the map so far
unfoldable pub parse_values_from : ℕ → ℕ → Entries → List Text → Parsed Entries
unfolding parse_entry
parse_values_from pos delim info [] = ok info
parse_values_from pos delim info (src ∷ srcs) = parse_entry pos delim src then λ e.
    parse_values_from (pos + 1) delim (put (e.0) (e.1) info) srcs

unfoldable pub parse_authorization_values : List Text → ℕ → Parsed Entries
unfolding parse_values_from
parse_authorization_values src_values delim = parse_values_from 0 delim [] src_values

-- the keys of the configuration below `<route>.authorization`; `none` where a key is not there
pub record AuthorizationSection : Type 0 where
  pub satisfy_value : Option Text
  pub roles_list : Option (List Text)
  pub permissions_list : Option (List Text)

abbrev pub entries_or : Option (List Text) → ℕ → Entries → Parsed Entries
entries_or none delim parent = ok parent
entries_or (some []) delim parent = ok parent
entries_or (some (v ∷ vs)) delim parent = parse_authorization_values (v ∷ vs) delim

abbrev pub text_or : Option Text → Text → Text
text_or none d = d
text_or (some s) d = s

-- the arguments are the section of the route and the info of its parent
unfoldable pub parse_authorization_info :
    AuthorizationSection → RouteAuthorization → Parsed RouteAuthorization
unfolding parse_authorization_values
parse_authorization_info cfg parent =
    let satisfy' = text_or cfg.satisfy_value parent.satisfy in
    entries_or cfg.roles_list b',' parent.roles then λ rs.
    entries_or cfg.permissions_list b'|' parent.permissions then λ ps.
    if text_eq satisfy' (codes "both") && (is_nil rs || is_nil ps)
    then both_incomplete
    else ok (record { satisfy = satisfy'; roles = rs; permissions = ps })
