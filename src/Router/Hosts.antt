-- ===== src/Router/Hosts.antt =====
-- router/router.go: the domain of a request's host, and the URLs that are made for a route. A
-- pointer to a domain may be nil, and reading a field of nil panics. Routes and domains are read from
-- the configuration elsewhere.
pub mod Find
mod Tests
use aah.Prelude.{
  ℕ, suc, ◌+◌, Bool, true, false, not, ◌&&◌, List, [], ◌∷◌, ◌++◌, Option, none, some, if◌then◌else◌,
  ltb, ◌==◌, length,
}
use aah.Prelude.Outcome.{Outcome, returns, panics, ◌>>=◌}
use aah.Text.{Text, codes, text_eq, to_lower, has_prefix, index_byte, drop, take}
use aah.Router.Domain.{Domain, route_url}
use aah.Router.Domain.Named.{Arguments, route_url_named_args}

pub record Router : Type 0 where
  pub domains : List Domain
  pub root_domain : Option Domain

abbrev pub wildcard_subdomain_prefix : Text
wildcard_subdomain_prefix = codes "*."

-- the loop of `findDomain`, on a key in lower case
unfoldable pub with_key : List Domain → Text → Option Domain
with_key [] key = none
with_key (d ∷ ds) key = if text_eq d.key key then some d else with_key ds key

unfoldable pub find_domain : Router → Text → Option Domain
unfolding with_key
find_domain r key = with_key r.domains (to_lower key)

-- the text behind the first dot, if that is not the first byte
abbrev pub parent_host : Text → Option ℕ → Option Text
parent_host host none = none
parent_host host (some i) = if ltb 0 i then some (drop (suc i) host) else none

unfoldable pub wildcard_domain : Router → Text → Option Domain
unfolding find_domain index_byte
wildcard_domain r host = elim (parent_host host (index_byte host b'.')) [
  | none ↦ none
  | some rest ↦ find_domain r (wildcard_subdomain_prefix ++ rest)
]

abbrev pub only_domain : List Domain → Option Domain
only_domain (d ∷ []) = some d
only_domain _ = none

unfoldable pub lookup_domain : Router → Text → Option Domain
unfolding find_domain wildcard_domain
lookup_domain r host = elim (only_domain r.domains) [
  | some d ↦ some d
  | none ↦ elim (find_domain r host) [ some d ↦ some d | none ↦ wildcard_domain r host ]
]

unfoldable pub domain_addresses : List Domain → List Text
domain_addresses [] = []
domain_addresses (d ∷ ds) = d.key ∷ domain_addresses ds

-- the two loops of `lookupRouteURLDomain`
unfoldable pub requested_subdomain : Text → List Domain → Option Domain
requested_subdomain sub_domain [] = none
requested_subdomain sub_domain (d ∷ ds) =
    if has_prefix d.key sub_domain && d.is_sub_domain
    then some d
    else requested_subdomain sub_domain ds

unfoldable pub wildcard_host : List Domain → Option Domain
wildcard_host [] = none
wildcard_host (d ∷ ds) =
    if has_prefix d.host wildcard_subdomain_prefix then some d else wildcard_host ds

abbrev pub or_root : Router → Text → Text → Option Domain → Option Domain × Text
or_root r route_name rest none = (r.root_domain, route_name)
or_root r route_name rest (some d) = (some d, rest)

-- from a dot at `i` on
unfoldable pub subdomain_route : Router → Text → Text → ℕ → Option Domain × Text
unfolding lookup_domain requested_subdomain wildcard_host
subdomain_route r host route_name i =
    let rest = drop (suc i) route_name in
    let sub_domain = take i route_name in
    if has_prefix host (sub_domain ++ codes ".")
    then (lookup_domain r host, rest)
    else or_root r route_name rest (elim (requested_subdomain sub_domain r.domains) [
      | some d ↦ some d
      | none ↦ wildcard_host r.domains
    ])

unfoldable pub lookup_route_url_domain : Router → Text → Text → Option Domain × Text
unfolding subdomain_route index_byte
lookup_route_url_domain r host route_name = elim (index_byte route_name b'.') [
  | none ↦ (r.root_domain, route_name)
  | some i ↦ if ltb 0 i then subdomain_route r host route_name i else (r.root_domain, route_name)
]

-- a host without a colon is sliced with -1
unfoldable pub infer_host : Text → Text → Outcome Text
unfolding index_byte
infer_host hosta hostb =
    if has_prefix hostb (codes "*.")
    then elim (index_byte hosta b':') [ none ↦ panics | some i ↦ returns (take i hosta) ]
    else returns hostb

abbrev pub with_anchor : Text → Text → Text
with_anchor route_path [] = route_path
with_anchor route_path (c ∷ anchor) = route_path ++ (codes "#" ++ c ∷ anchor)

unfoldable pub compose_route_url : Router → Domain → Text → Text → Text → Outcome Text
unfolding infer_host
compose_route_url r d host route_path anchor =
    if (length r.domains == 1) && text_eq d.host (codes "localhost")
    then returns (with_anchor (codes "//" ++ (host ++ route_path)) anchor)
    else if length d.port == 0
    then (infer_host host d.host >>= λ h.
        returns (with_anchor (codes "//" ++ (h ++ route_path)) anchor))
    else (infer_host host d.host >>= λ h.
        returns (with_anchor (codes "//" ++ (h ++ (codes ":" ++ (d.port ++ route_path)))) anchor))

-- the name of the route and the anchor
abbrev pub cut_anchor : Text → Option ℕ → Text × Text
cut_anchor route_name none = (route_name, [])
cut_anchor route_name (some i) =
    if ltb 0 i then (take i route_name, drop (suc i) route_name) else (route_name, [])

-- `args` are the arguments by position, as `url.PathEscape` writes them; the map of named arguments is
-- none where it is nil, and is returned as it is afterwards
module _ (path_escape : Text → Text) (encode : Arguments → Text) where
  -- the path of the route, by name where there is a map
  unfoldable pub route_path :
      Domain → Text → Option Arguments → List Text → Outcome (Text × Option Arguments)
  unfolding route_url route_url_named_args
  route_path d name none args = route_url d name args >>= λ p. returns (p, none)
  route_path d name (some margs) args =
      let (p, left) = route_url_named_args path_escape encode d name margs in returns (p, some left)

  unfoldable pub create_route_url :
      Router → Text → Text → Option Arguments → List Text → Outcome (Text × Option Arguments)
  unfolding lookup_route_url_domain compose_route_url index_byte route_path
  create_route_url r host route_name margs args =
      let (found, name) = lookup_route_url_domain r host route_name in
      let (plain, anchor) = cut_anchor name (index_byte name b'#') in
      elim found [
        | none ↦ panics
        | some d ↦
            if text_eq name (codes "host")
            then (compose_route_url r d host [] [] >>= λ u. returns (u, margs))
            else (route_path d plain margs args >>= λ (p, left).
                compose_route_url r d host p anchor >>= λ u. returns (u, left))
      ]
