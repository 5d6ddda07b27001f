-- ===== src/Router/Load/Rooted.antt =====
-- The paths of the routes that parseSectionRoutes loads.
use aah.Prelude.{
  ℕ, zero, suc, ◌<◌, ◌≡◌, ap, ◌∙◌, Bool, true, false, ◌&&◌, List, [], ◌∷◌, ◌++◌, Option, none, some,
  All, arith, ◌==◌, ==_iff, inl, inr, ◌⊎◌, if_cases, if_known, All-map,
}
use aah.Prelude.Outcome.{returns, panics, Ensures}
use aah.Text.{Text, codes, trim_space, is_str_empty, split, text_eq, to_upper}
use aah.Config.{Config, Forge, string_value, keys}
use aah.Router.Paths.{clean, join_path, add_slash_prefix}
use aah.Router.Paths.Rooted.{
  Rooted, clean-Rooted, join_path-Rooted, join_path-element-Rooted, trim_space-Rooted,
  add_slash_prefix-Rooted,
}
use aah.Router.Constraints.{RouteConstraints, ok, invalid, panics, parse_route_constraints}
use aah.Router.Domain.{Route}
use aah.Router.Load.{ParentRouteInfo, from_constraints, method_web_socket}
use aah.Router.Load.Within.{
  Within, holds, fails, faults, >>=-Within, >>=-Ends, Within-map, guard-Within, lift-Within,
  lift-known, from_parsed-Ends, from_constraints-Ends, lift-Ensures,
}
use aah.Router.Load.Section.{
  Attributes, placed, path_of, read_route, own_routes, routes_of, for_web_socket,
  parse_section_routes, is_none,
}
use aah.Router.Load.Below.{Below, itself, deeper}
use aah.Router.Load.Ready.{
  Nested, get_sub_config-lt, parse_routes-All, authorization_section-Ends, inherited_cors-Ends,
}
use aah.Router.Constraints.Rooted.{ActualRooted, parse_route_constraints-Rooted}

from_constraints-Rooted :
    (name : Text) (c : RouteConstraints)
    → ActualRooted c
    → Within (λ a. Rooted (a.0)) (from_constraints name c)
unfolding from_constraints
from_constraints-Rooted name (ok p cs) r = holds r
from_constraints-Rooted name (invalid p cs seg) r = fails
from_constraints-Rooted name panics r = faults

module _ (seconds : Text → Option Text) {S : Type 0} (forge : Forge S) where
  -- a path of the section, or of one below it, is a lone `^`
  abbrev pub HasLoneCaret : Config S → Type 0
  HasLoneCaret top =
      (cfg : Config S) × Below forge top cfg
      × (name : Text) × (string_value forge cfg (name ++ codes ".path")
          ≡ returns (some (codes "^")))

  module _ (top : Config S) where
    abbrev pub Sound : Text → Type 0
    Sound p = Rooted p ⊎ HasLoneCaret top

    abbrev pub SoundPrefix : ParentRouteInfo → Type 0
    SoundPrefix info = (info.prefix_path ≡ []) ⊎ Sound info.prefix_path

    placed-Sound :
        (info : ParentRouteInfo) (cfg : Config S) (name : Text) (found : Option Text)
        → Below forge top cfg
        → string_value forge cfg (name ++ codes ".path") ≡ returns found
        → (is_none found && is_str_empty info.prefix_path) ≡ false
        → SoundPrefix info
        → Ensures Sound (placed info.prefix_path found)
    unfolding placed is_str_empty
    placed-Sound info cfg name none b e g (inl f) = absurd (cc (rw f at g))
    placed-Sound info cfg name none b e g (inr (inl r)) =
        inl (join_path-Rooted info.prefix_path [] r)
    placed-Sound info cfg name none b e g (inr (inr l)) = inr l
    placed-Sound info cfg name (some []) b e g s = tt
    placed-Sound info cfg name (some (c ∷ q)) b e g s =
        if_known Sound (c == b'^') _ _
          (λ f. caret q (e ∙ ap (λ x. returns (some (x ∷ q))) ((==_iff c b'^').0 f))) λ f. below s
      where
        caret :
            (q : Text)
            → string_value forge cfg (name ++ codes ".path") ≡ returns (some (b'^' ∷ q))
            → Sound (add_slash_prefix q)
        caret [] h = inr (cfg, b, name, h)
        caret (d ∷ q') h = inl (add_slash_prefix-Rooted d q')

        below : SoundPrefix info → Sound (join_path info.prefix_path (add_slash_prefix (c ∷ q)))
        below (inl f) = rw f (inl (join_path-element-Rooted _ (add_slash_prefix-Rooted c q)))
        below (inr (inl r)) = inl (join_path-Rooted info.prefix_path _ r)
        below (inr (inr l)) = inr l

    cleaned-Sound : (p : Text) → Sound p → Sound (clean (trim_space p))
    cleaned-Sound p (inl r) = inl (clean-Rooted (trim_space p) (trim_space-Rooted p r))
    cleaned-Sound p (inr l) = inr l

    path_of-Sound :
        (info : ParentRouteInfo) (cfg : Config S) (name : Text)
        → Below forge top cfg
        → SoundPrefix info
        → Within Sound (path_of seconds forge cfg info name)
    unfolding path_of
    path_of-Sound info cfg name b s = lift-known _ λ found e. guard-Within _ _ λ g.
        lift-Ensures _ _ (placed-Sound info cfg name found b e g s) λ p h. holds (cleaned-Sound p h)

    actual-Sound :
        (name p : Text)
        → Sound p
        → Within (λ a. Sound (a.0)) (from_constraints name (parse_route_constraints p))
    actual-Sound name p (inl r) =
        Within-map (λ a h. inl h)
          (from_constraints-Rooted name _ (parse_route_constraints-Rooted p r))
    actual-Sound name p (inr l) = Within-map (λ a h. inr l) (from_constraints-Ends name _)

    for_web_socket-path : (a : Attributes) → Sound a.path → Sound (for_web_socket a).path
    unfolding for_web_socket
    for_web_socket-path a h =
        if_cases (λ (x : Attributes). Sound x.path) (text_eq a.methods method_web_socket) _ _ h h

    read_route-Sound :
        (info : ParentRouteInfo) (cfg : Config S) (name : Text)
        → Below forge top cfg
        → SoundPrefix info
        → Within (λ r. Sound r.0 × Sound (r.1).path) (read_route seconds forge cfg info name)
    unfolding read_route
    read_route-Sound info cfg name b s =
        >>=-Within (path_of-Sound info cfg name b s) λ route_path placed_at.
          >>=-Within (actual-Sound name route_path placed_at) λ actual at. lift-Within _ λ method.
            lift-Within _ λ socket. lift-Within _ λ target. lift-Within _ λ action.
              guard-Within _ _ λ _. guard-Within _ _ λ _. lift-Within _ λ auth.
                lift-Within _ λ size. lift-Within _ λ check.
                  >>=-Ends (authorization_section-Ends seconds forge cfg name) λ section.
                    >>=-Ends (from_parsed-Ends name _) λ authorization.
                      >>=-Ends (inherited_cors-Ends seconds forge cfg info name (to_upper method))
                        λ cors. holds (placed_at, for_web_socket-path _ at)

    routes_of-Sound :
        (parent : Text) (a : Attributes) (ms : List Text)
        → Sound a.path
        → All (λ (r : Route). Sound r.path) (routes_of parent a ms)
    unfolding routes_of
    routes_of-Sound parent a [] h = tt
    routes_of-Sound parent a (m ∷ ms) h = (h, routes_of-Sound parent a ms h)

    own_routes-Sound :
        (info : ParentRouteInfo) (a : Attributes) (own : Bool)
        → Sound a.path
        → All (λ (r : Route). Sound r.path) (own_routes info a own)
    own_routes-Sound info a false h = tt
    own_routes-Sound info a true h = routes_of-Sound info.parent_name a (split b',' a.methods) h

    sections-Sound :
        (depth : S → ℕ)
        → Nested seconds forge depth
        → (fuel : ℕ) (cfg : Config S) (info : ParentRouteInfo) → depth cfg.cfg < fuel
        → Below forge top cfg
        → SoundPrefix info
        → Within
            (All (λ (r : Route). Sound r.path))
            (parse_section_routes seconds forge fuel cfg info)
    unfolding parse_section_routes
    sections-Sound depth nested zero cfg info h b s = absurd (omega (arith, h))
    sections-Sound depth nested (suc fuel) cfg info h b s =
        parse_routes-All seconds forge (parse_section_routes seconds forge fuel)
          (λ (r : Route). Sound r.path) SoundPrefix cfg info (keys forge cfg)
          (λ name _.
            Within-map (λ r (p, a). (inr p, own_routes-Sound info r.1 r.2 a))
              (read_route-Sound info cfg name b s))
          λ sub i key e k.
            sections-Sound depth nested fuel sub i
              (omega (arith, h, get_sub_config-lt seconds forge depth nested cfg sub key e))
              (deeper key b e) k

  -- Where sections are nested less deep than the fuel, every route that is loaded from a section, for no
  -- prefix or one that starts with a slash, has a path that starts with a slash, unless a path in this
  -- section or one below it is a lone `^`.
  pub parse_section_routes-Rooted :
      (depth : S → ℕ)
      → Nested seconds forge depth
      → (fuel : ℕ) (cfg : Config S) (info : ParentRouteInfo) → depth cfg.cfg < fuel
      → (info.prefix_path ≡ []) ⊎ Rooted info.prefix_path
      → (HasLoneCaret cfg → ⊥)
      → Within
          (All (λ (r : Route). Rooted r.path))
          (parse_section_routes seconds forge fuel cfg info)
  parse_section_routes-Rooted depth nested fuel cfg info h s none_there =
      Within-map (All-map _ _ λ r x. elim x [ inl y ↦ y | inr l ↦ elim (none_there l) [ ] ])
        (sections-Sound cfg depth nested fuel cfg info h itself (start s))
    where
      start : (info.prefix_path ≡ []) ⊎ Rooted info.prefix_path → SoundPrefix cfg info
      start (inl e) = inl e
      start (inr r) = inr (inl r)
