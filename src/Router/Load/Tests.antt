-- ===== src/Router/Load/Tests.antt =====
-- Loading a small configuration of one domain.
use aah.Prelude.{◌≡◌, refl, true, false, none, some, [], ◌∷◌, ◌++◌, List, Option, arith, All, map}
use aah.Text.{Text, codes, to_lower}
use aah.Config.{Config, new_config, get_sub_config}
use aah.Config.StandIn.Free.{Free, string_value-Free, get_sub_config-Free}
use aah.Router.Load.Below.{Below, itself, deeper}
use aah.Router.Load.Served.{Serves, process_routes-Serves}
use aah.Config.StandIn.{
  Tree, Entry, end, entry, sub, text, flag, items, tree_forge, weight, tree_forge-lt,
}
use aah.Router.Domain.{Route, Domain}
use aah.Router.Hosts.{Router}
use aah.Router.Load.{Load, loaded, failed, ParentRouteInfo, path_missing, auth_not_configured}
use aah.Router.Load.Within.{Within}
use aah.Router.Load.Section.{parse_section_routes}
use aah.Router.Load.Domains.{
  process_routes_config, add_routes, Schemes, form_auth, no_routes, check_auth, process_routes,
  info_of,
}
use aah.Router.Load.Configured.{Configured}
use aah.Router.Domain.{find_entry}
use aah.Router.Domain.Complete.{IsTyped}
use aah.Router.Domain.Bound.{IsMapped}
use aah.Router.Load.Stored.{Stores, add_routes_refines}
use aah.Router.Load.Ready.{ReadyRoute, parse_section_routes-Ready}

abbrev no_age : Text → Option Text
no_age s = none

-- users { path = "/users" controller = "User" auth = "form" routes { show { path = ":id" } } }
abbrev users : Tree
users =
    entry (codes "users")
      (sub (
        entry (codes "path") (text (codes "/users")) (
          entry (codes "controller") (text (codes "User")) (
            entry (codes "auth") (text (codes "form")) (
              entry (codes "routes")
                (sub
                  (entry (codes "show") (sub (entry (codes "path") (text (codes ":id")) end)) end))
                end)))))
      end

abbrev top : ParentRouteInfo
top = record {
  anti_csrf_check = true;
  cors_enabled = false;
  parent_name = [];
  prefix_path = [];
  target = [];
  auth = [];
  max_body_size_str = codes "5mb";
  cors = none;
  authorization_info = record { satisfy = codes "either"; roles = []; permissions = [] };
}

abbrev paths : Load (List Route) → List (Text × Text × Text × Text)
paths (loaded rs) = map (λ (r : Route). (r.path, r.target, r.action, r.auth)) rs
paths _ = []

show_below :
    paths (parse_section_routes no_age tree_forge 2 (new_config users) top)
    ≡ (codes "/users", codes "User", codes "Index", codes "form")
      ∷ (codes "/users/:id", codes "User", codes "Index", codes "form")
      ∷ []
unfolding parse_section_routes aah.Config.StandIn.names aah.Router.Load.◌>>=◌ aah.Router.Load.lift
    aah.Config.StandIn.find_path aah.Text.split aah.Text.text_eq aah.Router.Load.guard
    aah.Router.Load.from_constraints aah.Text.index_byte aah.Text.trim_space aah.Text.join
    aah.Text.is_str_empty aah.Text.upper_byte aah.Router.Load.from_parsed aah.Config.get_sub_config
show_below = refl

abbrev pathless : Tree
pathless = entry (codes "home") (sub (entry (codes "controller") (text (codes "App")) end)) end

path_needed :
    parse_section_routes no_age tree_forge 1 (new_config pathless) top
    ≡ failed (path_missing (codes "home"))
unfolding parse_section_routes aah.Config.StandIn.names aah.Router.Load.◌>>=◌ aah.Router.Load.lift
    aah.Config.StandIn.find_path aah.Text.split aah.Text.text_eq aah.Router.Load.guard
    aah.Text.is_str_empty
path_needed = refl

parse_section_routes-Ready_example :
    Within
      (All (ReadyRoute no_age tree_forge (new_config users)))
      (parse_section_routes no_age tree_forge 9 (new_config users) top)
unfolding weight
parse_section_routes-Ready_example =
    parse_section_routes-Ready no_age tree_forge weight (λ s key t h. tree_forge-lt s key t h) 9
      (new_config users) top (omega arith)

abbrev site : Tree
site =
    entry (codes "domains")
      (sub (
        entry (codes "localhost")
          (sub (
            entry (codes "host") (text (codes "localhost")) (
              entry (codes "static")
                (sub (
                  entry (codes "assets")
                    (sub (
                      entry (codes "path") (text (codes "/assets"))
                        (entry (codes "dir") (text (codes "public")) end)))
                    end))
                (entry (codes "routes") (sub users) end))))
          end))
      end

abbrev first_domain : Load Router → Option Domain
first_domain (loaded r) = elim (r.domains) [ [] ↦ none | d ∷ _ ↦ some d ]
first_domain _ = none

abbrev route_names : Option Domain → List (Text × Text)
route_names none = []
route_names (some d) = map (λ (e : Text × Route). (e.0, (e.1).path)) d.routes

loaded_site : Load Router
loaded_site = process_routes_config no_age tree_forge none (new_config end) 2 (new_config site)

site_routes :
    route_names (first_domain loaded_site)
    ≡ (codes "assets", codes "/assets/*filepath")
      ∷ (codes "users", codes "/users")
      ∷ (codes "show", codes "/users/:id")
      ∷ []
unfolding loaded_site process_routes_config aah.Config.StandIn.find_path aah.Text.split
    aah.Text.text_eq aah.Config.StandIn.names aah.Router.Load.◌>>=◌ aah.Router.Load.lift
    aah.Router.Load.given aah.Router.Load.guard aah.Text.is_str_empty aah.Router.Tree.Insert.add
    aah.Text.lower_byte aah.Text.join aah.Router.Tree.common aah.Router.Tree.find_by_idx
    aah.Router.Load.from_constraints aah.Text.upper_byte aah.Router.Load.from_parsed
site_routes = refl

abbrev plain : Text → Text → Route
plain name path' = record {
  name = name;
  path = path';
  method = codes "GET";
  auth = [];
  is_static = false;
  is_anti_csrf_check = false;
  cors = none;
  constraints = [];
  authorization_info = none;
  target = [];
  action = [];
  parent_name = [];
  max_body_size = 0;
  list_dir = false;
  dir = [];
  file = [];
}

abbrev empty_domain : Domain
empty_domain = record {
  is_sub_domain = false;
  method_not_allowed = true;
  auto_options = true;
  redirect_trailing_slash = true;
  cors_enabled = false;
  key = [];
  host = codes "localhost";
  port = [];
  default_auth = [];
  catch_all_route = none;
  name = [];
  anti_csrf_enabled = true;
  cors = none;
  trees = [];
  routes = [];
}

abbrev two_plain : List Route
two_plain = plain (codes "home") (codes "/") ∷ plain (codes "show") (codes "/users/:id") ∷ []

empty_domain-IsMapped : IsMapped empty_domain
unfolding find_entry
empty_domain-IsMapped m t h = absurd (cc h)

add_routes_refines_example :
    Within (Stores empty_domain two_plain) (add_routes empty_domain two_plain)
add_routes_refines_example =
    add_routes_refines two_plain empty_domain empty_domain-IsMapped
      (([], refl), ((codes "users/:id", refl), tt))

abbrev form_only : Schemes
form_only = (codes "form", form_auth (codes "/login")) ∷ []

abbrev asking : Text → Domain
asking auth = record empty_domain {
  routes = (codes "show", record (plain (codes "show") (codes "/users/:id")) { auth = auth }) ∷ [];
}

-- A list of schemes, which the middleware takes, is refused.
two_schemes_refused :
    check_auth ((codes "basic", no_routes) ∷ form_only) (asking (codes "form, basic"))
    ≡ failed (auth_not_configured (codes "show" ∷ []))
unfolding check_auth aah.Text.is_str_empty aah.Text.text_eq
two_schemes_refused = refl

-- With a default that is a scheme, a name that is none gets through.
unknown_scheme_passes :
    check_auth form_only (record (asking (codes "from")) { default_auth = codes "form" })
    ≡ loaded (record (asking (codes "from")) { default_auth = codes "form" })
unfolding check_auth aah.Text.is_str_empty aah.Text.text_eq
unknown_scheme_passes = refl

empty_domain-IsTyped : IsTyped empty_domain
unfolding find_entry
empty_domain-IsTyped m t h = absurd (cc h)

-- no path of the configuration is a lone `^`
caret-Free :
    (c below : Config Tree)
    → Free (codes "^") c.cfg
    → Below tree_forge c below
    → Free (codes "^") below.cfg
caret-Free c below h itself = h
caret-Free c below h (deeper {cfg = cfg} key b e) =
    get_sub_config-Free (codes "^") cfg below key (caret-Free c cfg h b) e

users-Free : Free (codes "^") users
users-Free = ((λ e. cc e, (λ e. cc e, (λ e. cc e, (((λ e. cc e, tt), tt), tt)))), tt)

abbrev with_users : Config Tree
with_users = new_config (entry (codes "routes") (sub users) end)

users_section : get_sub_config tree_forge with_users (codes "routes") ≡ some (new_config users)
unfolding get_sub_config aah.Config.StandIn.find_path aah.Text.split aah.Text.text_eq
users_section = refl

process_routes-Serves_example :
    Within
      (λ d'.
        (size : Text) × (rs : List Route) × (parse_section_routes no_age tree_forge 9
            (new_config users)
            (info_of empty_domain size)
          ≡ loaded rs)
        × Serves rs d')
      (process_routes no_age tree_forge (some form_only) (new_config end) 9 empty_domain with_users)
process_routes-Serves_example =
    process_routes-Serves no_age tree_forge (some form_only) (new_config end) weight
      (λ s key t h. tree_forge-lt s key t h) 9 empty_domain with_users (new_config users)
      users_section (unfold weight in omega arith)
      (λ (c, b, name, e).
        string_value-Free (codes "^") c (name ++ codes ".path")
          (caret-Free (new_config users) c users-Free b) e)
      ((codes "login", refl), tt) empty_domain-IsMapped empty_domain-IsTyped
