-- ===== src/Config.antt =====
-- pkg/config/config.go: the agent's configuration, its defaults and its validation. The YAML library
-- enters as the function that a file's content is on the defaults it is decoded over.
pub mod Usable
mod Examples
use ztre.Base.{
  ℕ, ℤ, pos, ◌*◌, leb_ℤ, GoString, lit, text_eq, is_empty, Bool, true, false, ◌||◌, Option, none,
  some, List, [], ◌∷◌, if◌then◌else◌,
}
use ztre.Base.FilePath.{join}
use ztre.Files.{FileRead, not_exist, unreadable, malformed, decoded}

-- Durations are in nanoseconds.
pub record AgentConfig : Type 0 where
  pub mode : GoString
  pub worker_count : ℤ
  pub learning_window : ℤ
  pub snapshot_interval : ℤ
  pub stability_threshold : ℤ
  pub max_snapshots : ℤ
  pub auto_generate_whitelist : Bool
  pub output_dir : GoString
  pub whitelist_path : GoString
  pub metrics_port : ℤ
  pub health_port : ℤ
  pub socket_path : GoString
  pub buffer_size : ℤ
  pub reconnect_interval_ms : ℤ
  pub green_max : ℤ
  pub yellow_max : ℤ
  pub exclude_namespaces : List GoString

abbrev pub hour : ℕ
hour = 3600000000000

-- What `LoadAgentConfig` decodes the file over.
abbrev pub defaults : AgentConfig
defaults = record {
  mode = lit "discovery";
  worker_count = pos 4;
  learning_window = pos (72 * hour);
  snapshot_interval = pos hour;
  stability_threshold = pos (4 * hour);
  max_snapshots = pos 24;
  auto_generate_whitelist = true;
  output_dir = lit "data/discovery";
  whitelist_path = lit "data/discovery/auto_whitelist.yaml";
  metrics_port = pos 9090;
  health_port = pos 8080;
  socket_path = lit "/var/run/tetragon/tetragon.sock";
  buffer_size = pos 50000;
  reconnect_interval_ms = pos 2000;
  green_max = pos 39;
  yellow_max = pos 69;
  exclude_namespaces = [];
}

abbrev pub is_mode : GoString → Bool
is_mode mode =
    text_eq mode (lit "discovery")
    || text_eq mode (lit "shadow")
    || text_eq mode (lit "enforcement")

-- A value that is not positive, or an empty text, gets its default.
abbrev pub or_default : ℤ → ℤ → ℤ
or_default n d = if leb_ℤ n (pos 0) then d else n

abbrev pub or_text : GoString → GoString → GoString
or_text s d = if is_empty s then d else s

-- "Defaults for empty or invalid values."
unfoldable pub fill : AgentConfig → AgentConfig
fill cfg =
    let dir = or_text cfg.output_dir (lit "data/discovery") in
    record cfg {
      mode = or_text cfg.mode (lit "discovery");
      worker_count = or_default cfg.worker_count (pos 4);
      learning_window = or_default cfg.learning_window (pos (72 * hour));
      snapshot_interval = or_default cfg.snapshot_interval (pos hour);
      stability_threshold = or_default cfg.stability_threshold (pos (4 * hour));
      max_snapshots = or_default cfg.max_snapshots (pos 24);
      output_dir = dir;
      whitelist_path = or_text cfg.whitelist_path (join dir (lit "auto_whitelist.yaml"));
    }

-- `none` is an error; the mode must be one of the three, or empty.
unfoldable pub check : AgentConfig → Option AgentConfig
unfolding fill
check cfg = if is_mode cfg.mode || text_eq cfg.mode [] then some (fill cfg) else none

unfoldable pub load_agent_config : FileRead (AgentConfig → AgentConfig) → Option AgentConfig
unfolding check
load_agent_config not_exist = none
load_agent_config unreadable = none
load_agent_config malformed = none
load_agent_config (decoded overlay) = check (overlay defaults)

abbrev pub control_plane : List GoString
control_plane =
    lit "ztre-system"
    ∷ lit "kube-system"
    ∷ lit "kube-public"
    ∷ lit "kube-node-lease"
    ∷ lit "cilium-secrets"
    ∷ []

unfoldable pub listed : List GoString → GoString → Bool
listed [] ns = false
listed (x ∷ rest) ns = text_eq x ns || listed rest ns

unfoldable pub is_namespace_excluded : List GoString → GoString → Bool
unfolding listed
is_namespace_excluded exclude_namespaces ns =
    if listed control_plane ns then true else listed exclude_namespaces ns
