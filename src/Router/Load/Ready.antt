-- ===== src/Router/Load/Ready.antt =====
-- The routes that parseSectionRoutes of router/router.go loads, and the end of its recursion.
use aah.Prelude.{
  ℕ, zero, suc, ◌<◌, ◌≡◌, refl, ap, some_inj, Bool, true, false, not, ◌&&◌, List, [], ◌∷◌, ◌++◌,
  map, Option, none, some, All, All-append, All-map, if_cases, In, arith, Bool-cases, Option-cases,
  inl, inr,
}
use mathlib.Core.Path.{subst}
use aah.Text.{Text, codes, text_eq, to_upper, trim_space, is_str_empty, split}
use aah.Config.{
  Config, Setting, section, string, boolean, integer, list, other, Forge, keys, get_sub_config,
  getraw, prepare_key, string_default, as_section, new_config,
}
use aah.Router.Cors.{Cors}
use aah.Router.Domain.{Route}
use aah.Router.Constraints.{parse_route_constraints}
use aah.Router.Route.{parse_authorization_info}
use aah.Router.Load.{ParentRouteInfo, method_web_socket}
use aah.Prelude.Outcome.{returns}
use aah.Router.Load.Below.{Below, itself, deeper}
use aah.Router.Load.Within.{
  Within, holds, fails, Ends, >>=-Within, >>=-Ends, from_parsed-Ends, from_constraints-Ends,
  guard-Within, lift-known, lift-Within, Within-map,
}
use aah.Router.Load.Section.{
  Attributes, routes_of, info_below, for_web_socket, takes_payload, body_size,
  authorization_section, cors_section, route_cors, inherited_cors, path_of, read_route, own_routes,
  Loader, child_routes, parse_route, parse_routes, parse_section_routes,
}

-- a route with this method list
pub record Fit (methods : Text) (is_anti_csrf_check : Bool) (cors : Option Cors) (max_body_size : ℕ)
    : Type 0 where
  pub socket :
      text_eq methods method_web_socket ≡ true
      → (is_anti_csrf_check ≡ false) × (cors ≡ none) × (max_body_size ≡ 0)
  pub payload : takes_payload methods ≡ false → max_body_size ≡ 0

abbrev pub ReadyAttributes : Attributes → Type 0
ReadyAttributes a =
    (is_str_empty a.target ≡ false)
    × (is_str_empty a.action ≡ false)
    × Fit a.methods a.is_anti_csrf_check a.cors a.max_body_size

-- a route of an entry with these methods
abbrev pub ReadyFor : Text → Text → Route → Type 0
ReadyFor name methods r =
    (r.name ≡ name)
    × In r.method (map trim_space (split b',' methods))
    × (is_str_empty r.target ≡ false)
    × (is_str_empty r.action ≡ false)
    × (r.is_static ≡ false)
    × Fit methods r.is_anti_csrf_check r.cors r.max_body_size

-- the routes of an entry, for the methods that are left of its list
routes_of-Ready :
    (parent : Text) (a : Attributes) (ms : List Text)
    → ReadyAttributes a
    → ((m : Text) → In m (map trim_space ms) → In m (map trim_space (split b',' a.methods)))
    → All (ReadyFor a.name a.methods) (routes_of parent a ms)
unfolding routes_of
routes_of-Ready parent a [] ready sub = tt
routes_of-Ready parent a (m ∷ ms) (target, action, fit) sub = (
  (refl, sub (trim_space m) (inl refl), target, action, refl, fit),
  routes_of-Ready parent a ms (target, action, fit) (λ n i. sub n (inr i)),
)

own_routes-Ready :
    (info : ParentRouteInfo) (a : Attributes) (own : Bool)
    → (own ≡ true → ReadyAttributes a)
    → All (ReadyFor a.name a.methods) (own_routes info a own)
own_routes-Ready info a false h = tt
own_routes-Ready info a true h =
    routes_of-Ready info.parent_name a (split b',' a.methods) (h refl) (λ m i. i)

for_web_socket-Ready :
    (a : Attributes)
    → is_str_empty a.target ≡ false
    → is_str_empty a.action ≡ false
    → (takes_payload a.methods ≡ false → a.max_body_size ≡ 0)
    → ReadyAttributes (for_web_socket a)
unfolding for_web_socket
for_web_socket-Ready a target action h = elim (Bool-cases (text_eq a.methods method_web_socket)) [
  | inl e ↦ rw e (target, action, record { socket = λ _. (refl, refl, refl); payload = λ _. refl })
  | inr e ↦ rw e (target, action, record { socket = λ f. absurd (cc (e, f)); payload = h })
]

body_size-payload :
    (size methods : Text) → takes_payload methods ≡ false → body_size size methods ≡ 0
body_size-payload size methods h = rw h refl

-- a route that is not skipped has what is not blank
not_blank : (own blank : Bool) → (own && blank) ≡ false → own ≡ true → blank ≡ false
not_blank own blank h o = ground arith

module _ (seconds : Text → Option Text) {S : Type 0} (forge : Forge S) where
  path_of-Ends :
      (cfg : Config S) (info : ParentRouteInfo) (name : Text)
      → Ends (path_of seconds forge cfg info name)
  unfolding path_of
  path_of-Ends cfg info name =
      lift-Within _ λ found. guard-Within _ _ λ _. lift-Within _ λ p. holds tt

  pub authorization_section-Ends :
      (cfg : Config S) (name : Text) → Ends (authorization_section seconds forge cfg name)
  unfolding authorization_section
  authorization_section-Ends cfg name = lift-Within _ λ x. holds tt

  cors_section-Ends : (cfg : Config S) → Ends (cors_section seconds forge cfg)
  unfolding cors_section
  cors_section-Ends cfg = lift-Within _ λ x. lift-Within _ λ y. holds tt

  route_cors-Ends : (cfg : Config S) (c : Option Cors) → Ends (route_cors seconds forge cfg c)
  unfolding route_cors
  route_cors-Ends cfg none = fails
  route_cors-Ends cfg (some p) = >>=-Ends (cors_section-Ends cfg) λ section. holds tt

  pub inherited_cors-Ends :
      (cfg : Config S) (info : ParentRouteInfo) (name method : Text)
      → Ends (inherited_cors seconds forge cfg info name method)
  unfolding inherited_cors
  inherited_cors-Ends cfg info name method =
      elim (Bool-cases (info.cors_enabled && not (text_eq method method_web_socket))) [
        | inr e ↦ rw e (holds tt)
        | inl e ↦ elim (Option-cases (get_sub_config forge cfg (name ++ codes ".cors"))) [
          | inl f ↦ rw (e, f) (holds tt)
          | inr (sub, f) ↦
              rw (e, f)
                (lift-Within _ λ enable. elim (Bool-cases enable) [
                  | inl g ↦ rw g (route_cors-Ends sub info.cors)
                  | inr g ↦ rw g (holds tt)
                ])
        ]
      ]

  -- the methods of an entry, as the configuration has them
  abbrev pub MethodsOf : Config S → Text → Text → Type 0
  MethodsOf cfg name methods =
      (text : Text) × (string_default forge cfg (name ++ codes ".method") (codes "GET")
        ≡ returns text)
      × (methods ≡ to_upper text)

  for_web_socket-same :
      (a : Attributes)
      → ((for_web_socket a).name ≡ a.name) × ((for_web_socket a).methods ≡ a.methods)
  unfolding for_web_socket
  for_web_socket-same a =
      if_cases (λ (x : Attributes). (x.name ≡ a.name) × (x.methods ≡ a.methods))
        (text_eq a.methods method_web_socket) _ _ (refl, refl) (refl, refl)

  read_route-Ready :
      (cfg : Config S) (info : ParentRouteInfo) (name : Text)
      → Within
          (λ r.
            (r.2 ≡ true → ReadyAttributes r.1)
            × ((r.1).name ≡ name)
            × MethodsOf cfg name (r.1).methods)
          (read_route seconds forge cfg info name)
  unfolding read_route
  read_route-Ready cfg info name = >>=-Ends (path_of-Ends cfg info name) λ route_path.
      >>=-Ends (from_constraints-Ends name (parse_route_constraints route_path)) λ actual.
        lift-known _ λ method read. lift-Within _ λ socket. lift-Within _ λ target.
          lift-Within _ λ action. guard-Within _ _ λ has_target. guard-Within _ _ λ has_action.
            lift-Within _ λ auth. lift-Within _ λ size. lift-Within _ λ check.
              >>=-Ends (authorization_section-Ends cfg name) λ section.
                >>=-Ends
                  (from_parsed-Ends name (parse_authorization_info section info.authorization_info))
                  λ authorization.
                    >>=-Ends (inherited_cors-Ends cfg info name (to_upper method)) λ cors.
                      let (same_name, same_methods) = for_web_socket-same _ in
                      holds (
                        (λ own.
                            for_web_socket-Ready _ (not_blank _ _ has_target own)
                              (not_blank _ _ has_action own)
                              (body_size-payload size (to_upper method))),
                        same_name,
                        (method, read, same_methods),
                      )

  -- a section below another one is nested less deep
  abbrev pub Nested : (S → ℕ) → Type 0
  Nested depth =
      (s : S) (key : Text) (t : S) → forge.resolve s key ≡ some (section t) → depth t < depth s

  as_section-eq : (v : Option (Setting S)) (t : S) → as_section v ≡ some t → v ≡ some (section t)
  as_section-eq (some (section s)) t h = ap (λ x. some (section x)) (some_inj h)
  as_section-eq (some (string s)) t h = absurd (cc h)
  as_section-eq (some (boolean b)) t h = absurd (cc h)
  as_section-eq (some (integer n)) t h = absurd (cc h)
  as_section-eq (some (list items)) t h = absurd (cc h)
  as_section-eq (some other) t h = absurd (cc h)
  as_section-eq none t h = absurd (cc h)

  pub get_sub_config-lt :
      (depth : S → ℕ)
      → Nested depth
      → (cfg sub : Config S) (key : Text) → get_sub_config forge cfg key ≡ some sub
      → depth sub.cfg < depth cfg.cfg
  unfolding get_sub_config
  get_sub_config-lt depth nested cfg sub key h =
      elim (Option-cases (as_section (getraw forge cfg (prepare_key cfg key)))) [
        | inl e ↦ absurd (cc (rw (get_sub_config, e) at h))
        | inr (t, e) ↦
            let same : new_config t ≡ sub = some_inj (rw (get_sub_config, e) at h) in
            subst (λ (c : Config S). depth c.cfg < depth cfg.cfg) same
              (nested cfg.cfg (prepare_key cfg key) t
                (as_section-eq (getraw forge cfg (prepare_key cfg key)) t e))
      ]

  module _ (child : Loader S) where
    child_routes-Within :
        (P : List Route → Type 0) (cfg : Config S) (name : Text) (info : ParentRouteInfo)
        → P []
        → ((sub : Config S)
            → get_sub_config forge cfg (name ++ codes ".routes") ≡ some sub
            → Within P (child sub info))
        → Within P (child_routes seconds forge child cfg name info)
    unfolding child_routes
    child_routes-Within P cfg name info none_below below =
        elim (Option-cases (get_sub_config forge cfg (name ++ codes ".routes"))) [
          | inl e ↦ rw (child_routes, e) (holds none_below)
          | inr (sub, e) ↦ rw (child_routes, e) (below sub e)
        ]

    -- what every route of a section has, where `P` holds of the routes of its entries and `K` of what
    -- they hand down
    pub parse_routes-All :
        (P : Route → Type 0) (K : ParentRouteInfo → Type 0) (cfg : Config S)
        (info : ParentRouteInfo) (names : List Text)
        → ((name : Text)
            → In name names
            → Within
                (λ r. K (info_below info r.0 r.1) × All P (own_routes info r.1 r.2))
                (read_route seconds forge cfg info name))
        → ((sub : Config S) (i : ParentRouteInfo) (key : Text)
            → get_sub_config forge cfg key ≡ some sub
            → K i
            → Within (All P) (child sub i))
        → Within (All P) (parse_routes seconds forge child cfg info names)
    unfolding parse_routes parse_route
    parse_routes-All P K cfg info [] read below = holds tt
    parse_routes-All P K cfg info (name ∷ names) read below =
        >>=-Within
          (>>=-Within (read name (inl refl)) λ r (k, own).
            >>=-Within (child_routes-Within (All P) cfg name _ tt (λ sub e. below sub _ _ e k))
              λ rs hs. holds (All-append P _ _ own hs))
          λ rs hs.
            >>=-Within (parse_routes-All P K cfg info names (λ n i. read n (inr i)) below)
              λ more hm. holds (All-append P _ _ hs hm)

  -- a route of an entry of the section, or of one below it
  abbrev pub ReadyRoute : Config S → Route → Type 0
  ReadyRoute top r =
      (cfg : Config S) × Below forge top cfg
      × (name : Text) × In name (keys forge cfg)
      × (methods : Text) × MethodsOf cfg name methods
      × ReadyFor name methods r

  sections-Ready :
      (top : Config S) (depth : S → ℕ)
      → Nested depth
      → (fuel : ℕ) (cfg : Config S) (info : ParentRouteInfo) → depth cfg.cfg < fuel
      → Below forge top cfg
      → Within (All (ReadyRoute top)) (parse_section_routes seconds forge fuel cfg info)
  unfolding parse_section_routes
  sections-Ready top depth nested zero cfg info h b = absurd (omega (arith, h))
  sections-Ready top depth nested (suc fuel) cfg info h b =
      parse_routes-All (parse_section_routes seconds forge fuel) (ReadyRoute top) (λ _. Unit {0})
        cfg info (keys forge cfg)
        (λ name at.
          Within-map
            (λ r (ready, same, methods). (
              tt,
              All-map (ReadyFor (r.1).name (r.1).methods) (ReadyRoute top)
                  (λ v found. (
                    cfg,
                    b,
                    name,
                    at,
                    (r.1).methods,
                    methods,
                    subst (λ (x : Text). ReadyFor x (r.1).methods v) same found,
                  ))
                  (own_routes info r.1 r.2) (own_routes-Ready info r.1 r.2 ready),
            ))
            (read_route-Ready cfg info name))
        λ sub i key e _.
          sections-Ready top depth nested fuel sub i
            (omega (arith, h, get_sub_config-lt depth nested cfg sub key e)) (deeper key b e)

  -- Where sections are nested less deep than the fuel, loading ends within it. Every route that is loaded
  -- is of an entry, with its name, of the section or of one below it. It has a target and an action and
  -- one of the methods of that entry, which are GET where the configuration gives none. If these are
  -- just `WS` it has no anti-CSRF check, no CORS policy and no body; if none of them takes a payload it
  -- has no body.
  pub parse_section_routes-Ready :
      (depth : S → ℕ)
      → Nested depth
      → (fuel : ℕ) (cfg : Config S) (info : ParentRouteInfo) → depth cfg.cfg < fuel
      → Within (All (ReadyRoute cfg)) (parse_section_routes seconds forge fuel cfg info)
  parse_section_routes-Ready depth nested fuel cfg info h =
      sections-Ready cfg depth nested fuel cfg info h itself
