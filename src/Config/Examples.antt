-- ===== src/Config/Examples.antt =====
-- Runs of pkg/config and instances of its theorems.
use ztre.Base.{negsuc, lit, text_eq, none, some, [], ◌≡◌, refl}
use ztre.Base.FilePath.{join}
use ztre.Files.{decoded}
use ztre.Config.{AgentConfig, defaults, load_agent_config}
use ztre.Config.Usable.{IsUsable, load-IsUsable}

abbrev overlay : AgentConfig → AgentConfig
overlay cfg = record cfg {
  mode = lit "shadow";
  worker_count = negsuc 2;
  output_dir = lit "/var/lib/ztre/";
  whitelist_path = [];
}

abbrev loaded : AgentConfig
loaded = record defaults {
  mode = lit "shadow";
  output_dir = lit "/var/lib/ztre/";
  whitelist_path = lit "/var/lib/ztre/auto_whitelist.yaml";
}

overlay_loads : load_agent_config (decoded overlay) ≡ some loaded
unfolding load_agent_config text_eq join
overlay_loads = refl

bad_mode : load_agent_config (decoded (λ cfg. record cfg { mode = lit "observe" })) ≡ none
unfolding load_agent_config text_eq
bad_mode = refl

load-IsUsable_example : IsUsable loaded
load-IsUsable_example = load-IsUsable (decoded overlay) loaded overlay_loads
