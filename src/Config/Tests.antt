-- ===== src/Config/Tests.antt =====
-- A small configuration with two profiles.
use aah.Prelude.{◌≡◌, refl, true, some}
use aah.Prelude.Outcome.{returns, panics}
use aah.Text.{codes}
use aah.Config.{Config, new_config, string_value, bool_value, set_profile, string_default}
use aah.Config.StandIn.{Tree, end, entry, sub, text, flag, tree_forge}

abbrev sample : Tree
sample = entry (codes "name") (text (codes "app")) (
    entry (codes "prod") (sub (entry (codes "name") (text (codes "live")) end))
      (entry (codes "debug") (flag true) end))

abbrev live : Config Tree
live = record { profile = codes "prod"; cfg = sample }

live_set : set_profile tree_forge (new_config sample) (codes "prod") ≡ (live, true)
unfolding set_profile aah.Text.text_eq aah.Text.split aah.Config.StandIn.find_path
live_set = refl

name_live : string_value tree_forge live (codes "name") ≡ returns (some (codes "live"))
unfolding string_value aah.Text.text_eq aah.Text.split aah.Text.has_prefix
    aah.Config.StandIn.find_path
name_live = refl

debug_shared : bool_value tree_forge live (codes "debug") ≡ returns (some true)
unfolding bool_value aah.Text.text_eq aah.Text.split aah.Text.has_prefix
    aah.Config.StandIn.find_path
debug_shared = refl

-- a value of another type than that asked for
debug_text : string_value tree_forge live (codes "debug") ≡ panics
unfolding string_value aah.Text.text_eq aah.Text.split aah.Text.has_prefix
    aah.Config.StandIn.find_path
debug_text = refl
