-- ===== src/Router/Load/Below.antt =====
-- The sections that loading the routes of a section reads.
use aah.Prelude.{◌≡◌, some}
use aah.Text.{Text}
use aah.Config.{Config, Forge, get_sub_config}

-- the section itself, or one below it
pub data Below {S : Type 0} (forge : Forge S) (top : Config S) : Config S → Type 0 where
  itself : Below forge top top
  deeper :
      {cfg sub : Config S} (key : Text)
      → Below forge top cfg
      → get_sub_config forge cfg key ≡ some sub
      → Below forge top sub
