-- ===== src/Router/Load/Configured.antt =====
-- Which auth schemes the routes of a loaded domain ask for.
use aah.Prelude.{◌≡◌, ◌⊎◌, true, All}
use aah.Prelude.Outcome.{Outcome}
use aah.Text.{Text, codes}
use aah.Config.{Config}
use aah.Router.Tree.Insert.{Tree}
use aah.Router.Domain.{Route, Domain}
use aah.Router.Load.Within.{Within}
use aah.Router.Load.Domains.{Schemes, has_scheme}

-- a route that asks for nothing, or for a scheme that is there
abbrev pub IsConfigured : Schemes → Route → Type 0
IsConfigured ss r =
    (r.is_static ≡ true)
    ⊎ ((r.auth ≡ codes "anonymous")
        ⊎ (r.auth ≡ codes "authenticated")
        ⊎ (r.method ≡ codes "WS")
        ⊎ (has_scheme ss r.auth ≡ true))

-- the default is a scheme, or every route is configured
abbrev pub Configured : Schemes → Domain → Type 0
Configured ss d = (has_scheme ss d.default_auth ≡ true) ⊎ All (λ e. IsConfigured ss e.1) d.routes
