-- ===== src/Router/Load/Static.antt =====
-- router/router.go: parseStaticSection, the routes of files and directories.
use aah.Prelude.{
  Bool, true, false, not, ◌&&◌, ◌||◌, List, [], ◌∷◌, ◌++◌, Option, none, some, if◌then◌else◌, ◌==◌,
  any,
}
use aah.Prelude.Outcome.{Outcome, returns, panics}
use aah.Text.{Text, codes}
use aah.Config.{Config, Forge, string_value, bool_default, keys}
use aah.Router.Paths.{clean, join_path}
use aah.Router.Tree.{slash_byte, param_byte, wild_byte}
use aah.Router.Domain.{Route}
use aah.Router.Load.{
  Load, loaded, ◌>>=◌, lift, guard, given, static_path_missing, static_path_unrooted,
  static_path_parameters, static_both, static_neither, static_base_dir_missing,
}
use aah.Router.Load.Section.{is_none}

-- `v[0] == '/'`
abbrev pub starts_with_slash : Text → Outcome Bool
starts_with_slash [] = panics
starts_with_slash (c ∷ s) = returns (c == slash_byte)

abbrev pub or_empty : Option Text → Text
or_empty none = []
or_empty (some s) = s

abbrev pub static_route : Text → Text → Text → Text → Bool → Route
static_route name path' dir file list_dir = record {
  name = name;
  path = path';
  method = codes "GET";
  auth = [];
  is_static = true;
  is_anti_csrf_check = false;
  cors = none;
  constraints = [];
  authorization_info = none;
  target = [];
  action = [];
  parent_name = [];
  max_body_size = 0;
  list_dir = list_dir;
  dir = dir;
  file = file;
}

module _ {S : Type 0} (forge : Forge S) where
  -- the directory of a file: `base_dir`, else for a relative file that of `public_assets.dir`
  unfoldable pub file_dir : Config S → Text → Text → Load Text
  unfolding string_value
  file_dir cfg name file = do
    base ← lift (string_value forge cfg (name ++ codes ".base_dir"))
    elim base [
      | some dir ↦ loaded dir
      | none ↦ lift (starts_with_slash file) >>= λ rooted. if rooted then loaded [] else do
        assets ← lift (string_value forge cfg (codes "public_assets.dir"))
        given (static_base_dir_missing name) assets
    ]

  abbrev pub dir_of : Config S → Text → Option Text → Option Text → Load Text
  dir_of cfg name dir none = loaded (or_empty dir)
  dir_of cfg name dir (some file) = file_dir cfg name file

  -- for a directory that is listed, the route of the directory itself comes first
  unfoldable pub static_routes : Text → Text → Option Text → Option Text → Text → Bool → List Route
  unfolding clean join_path
  static_routes name route_path (some _) file dir list_dir =
      let below =
        static_route name (join_path (clean route_path) (codes "*filepath")) dir (or_empty file)
          list_dir in
      if list_dir
      then static_route name (clean route_path ++ codes "/") dir (or_empty file) true ∷ below ∷ []
      else below ∷ []
  static_routes name route_path none file dir list_dir =
      static_route name (clean route_path) dir (or_empty file) list_dir ∷ []

  unfoldable pub parse_static_route : Config S → Text → Load (List Route)
  unfolding string_value bool_default file_dir static_routes
  parse_static_route cfg name = do
    found ← lift (string_value forge cfg (name ++ codes ".path"))
    route_path ← given (static_path_missing name) found
    rooted ← lift (starts_with_slash route_path)
    guard (static_path_unrooted name) (not rooted) (
        guard (static_path_parameters name)
          (any (λ c. c == param_byte) route_path || any (λ c. c == wild_byte) route_path)
          do
            dir ← lift (string_value forge cfg (name ++ codes ".dir"))
            file ← lift (string_value forge cfg (name ++ codes ".file"))
            guard (static_both name) (not (is_none dir) && not (is_none file)) (
                guard (static_neither name) (is_none dir && is_none file) do
                  route_dir ← dir_of cfg name dir file
                  list_dir ← lift (bool_default forge cfg (name ++ codes ".list") false)
                  loaded (static_routes name route_path dir file route_dir list_dir)))

  unfoldable pub parse_static_routes : Config S → List Text → Load (List Route)
  unfolding parse_static_route
  parse_static_routes cfg [] = loaded []
  parse_static_routes cfg (name ∷ names) = do
    routes ← parse_static_route cfg name
    more ← parse_static_routes cfg names
    loaded (routes ++ more)

  unfoldable pub parse_static_section : Config S → Load (List Route)
  unfolding parse_static_routes keys
  parse_static_section cfg = parse_static_routes cfg (keys forge cfg)
