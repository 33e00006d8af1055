-- ===== src/Agent/Startup.antt =====
-- cmd/ztre-agent/main.go: how the flags and the configuration file become the agent's settings.
pub mod Settled
use ztre.Base.{
  ℕ, ℤ, pos, pos_part, leb_ℤ, ltb_ℤ, eqb_ℤ, GoString, lit, text_eq, is_empty, Bool, true, false,
  not, ◌&&◌, ◌*◌, Option, none, some, List, [], ◌++◌, if◌then◌else◌,
}
use ztre.Base.Decimal.{digits}
use ztre.Base.FilePath.{join}
use ztre.Decision.{ThresholdConfig, default_thresholds, new_engine}
use ztre.Collector.Client.{ClientConfig, second}
use ztre.Config.{AgentConfig, hour}
use ztre.Agent.{AgentMode, discovery, shadow, enforcement}

-- The flags that main reads into variables; a field `…_set` says whether flag.Visit came upon the flag.
pub record Flags : Type 0 where
  pub socket_path : GoString
  pub socket_path_set : Bool
  pub metrics_addr : GoString
  pub metrics_addr_set : Bool
  pub buffer_size : ℤ
  pub buffer_size_set : Bool
  pub worker_count : ℤ
  pub worker_count_set : Bool
  pub whitelist_path : GoString
  pub whitelist_path_set : Bool
  pub mode : GoString

pub record Settings : Type 0 where
  pub socket_path : GoString
  pub metrics_addr : GoString
  pub buffer_size : ℤ
  pub worker_count : ℤ
  pub whitelist_path : GoString
  pub mode : AgentMode
  pub thresholds : ThresholdConfig

-- The configuration that main builds when the file does not load.
abbrev pub fallback : AgentConfig
fallback = record {
  mode = lit "discovery";
  worker_count = pos 4;
  learning_window = pos (72 * hour);
  snapshot_interval = pos hour;
  stability_threshold = pos (4 * hour);
  max_snapshots = pos 24;
  auto_generate_whitelist = true;
  output_dir = lit "data/discovery";
  whitelist_path = lit "data/discovery/auto_whitelist.yaml";
  metrics_port = pos 9090;
  health_port = pos 0;
  socket_path = lit "/var/run/tetragon/tetragon.sock";
  buffer_size = pos 50000;
  reconnect_interval_ms = pos 0;
  green_max = pos 0;
  yellow_max = pos 0;
  exclude_namespaces = [];
}

abbrev pub config_or_fallback : Option AgentConfig → AgentConfig
config_or_fallback none = fallback
config_or_fallback (some cfg) = cfg

-- The configuration's text, unless the flag was given or the text is empty.
abbrev pub pick_text : Bool → GoString → GoString → GoString
pick_text set flag text = if not set && not (is_empty text) then text else flag

unfoldable pub pick_workers : Bool → ℤ → ℤ → ℤ
pick_workers set flag configured =
    if not set
    then if ltb_ℤ (pos 0) configured then configured else pos 4
    else if leb_ℤ flag (pos 0)
    then pos 4
    else flag

-- fmt.Sprintf(":%d", port); a positive `int` has nineteen digits at most.
unfoldable pub pick_addr : Bool → GoString → ℤ → GoString
unfolding digits
pick_addr set flag port =
    if not set && ltb_ℤ (pos 0) port then lit ":" ++ digits 19 (pos_part port) [] else flag

unfoldable pub pick_whitelist : Flags → AgentConfig → GoString
pick_whitelist flags cfg =
    let path = pick_text flags.whitelist_path_set flags.whitelist_path cfg.whitelist_path in
    if is_empty path then join cfg.output_dir (lit "auto_whitelist.yaml") else path

-- The validation of the mode: an unknown one is discovery.
unfoldable pub mode_of : GoString → AgentMode
mode_of text =
    if text_eq text (lit "discovery")
    then discovery
    else if text_eq text (lit "shadow")
    then shadow
    else if text_eq text (lit "enforcement")
    then enforcement
    else discovery

unfoldable pub initial_thresholds : AgentConfig → ThresholdConfig
unfolding new_engine
initial_thresholds cfg =
    let given : ThresholdConfig = record {
      green_max = cfg.green_max;
      yellow_max = cfg.yellow_max;
    } in
    new_engine (
      if eqb_ℤ cfg.green_max (pos 0) && eqb_ℤ cfg.yellow_max (pos 0)
      then default_thresholds
      else given)

unfoldable pub resolve : Flags → Option AgentConfig → Settings
unfolding pick_workers pick_addr pick_whitelist mode_of initial_thresholds
resolve flags loaded =
    let cfg = config_or_fallback loaded in
    record {
      socket_path = pick_text flags.socket_path_set flags.socket_path cfg.socket_path;
      metrics_addr = pick_addr flags.metrics_addr_set flags.metrics_addr cfg.metrics_port;
      buffer_size =
          if not flags.buffer_size_set && ltb_ℤ (pos 0) cfg.buffer_size
          then cfg.buffer_size
          else flags.buffer_size;
      worker_count = pick_workers flags.worker_count_set flags.worker_count cfg.worker_count;
      whitelist_path = pick_whitelist flags cfg;
      mode = mode_of (if is_empty flags.mode then cfg.mode else flags.mode);
      thresholds = initial_thresholds cfg;
    }

-- The configuration of the client that main makes.
abbrev pub client_config : Settings → ClientConfig
client_config s = record {
  socket_path = s.socket_path;
  reconnect_interval = pos second;
  max_reconnect_backoff = pos (10 * second);
}
