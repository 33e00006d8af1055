-- ===== src/Agent/Assembly.antt =====
-- cmd/ztre-agent/main.go: from the settings to the running agent, or to the exit.
pub mod Refinement
pub mod Soundness
pub mod Exits
pub mod Lifecycle
pub mod Learning
pub mod Recovery
mod FirstRun
mod Examples
use ztre.Base.{
  ℕ, ℤ, pos, pos_part, ltb_ℤ, GoString, lit, is_empty, Bool, true, false, not, ◌&&◌, Option, none,
  some, List, [], ◌∷◌, if◌then◌else◌,
}
use ztre.Base.Dict.{Dict}
use ztre.Float64.{Float64}
use ztre.Files.{FileRead}
use ztre.Config.{AgentConfig}
use ztre.Validator.{WhitelistEntry, Allow, new_whitelist, load_multi}
use ztre.Risk
use ztre.Risk.{PolicyConfig, new_engine}
use ztre.Decision.Alert.{Alert}
use ztre.Decision.Dispatcher.{
  WebhookAlertSink, new_webhook_alert_sink, PostResult, AlertSink, stdout_sink, webhook_sink,
  Dispatcher, register_sink, new_dispatcher,
}
use ztre.Containment.{Executor}
use ztre.Containment.Cluster.{Cluster, new_in_cluster_executor}
use ztre.Collector.Buffer.{new_event_buffer}
use ztre.Discovery.Snapshots
use ztre.Discovery.Snapshots.{TimeText, Io}
use ztre.Discovery.Tracker.{BehaviorTracker, new_tracker}
use ztre.Discovery.Baseline.{Codec, BaselineStore, new_baseline_store}
use ztre.Discovery.Baseline.Loading.{load_latest_snapshot}
use ztre.Discovery.Report.{BaselineReport, write_report}
use ztre.Discovery.WhitelistFile.{Yaml, write_whitelist}
use ztre.Agent.{AgentMode, discovery, shadow, enforcement, Agent}
use ztre.Agent.Startup.{Flags, Settings, config_or_fallback, resolve}
use ztre.Agent.Shutdown.{Node, started}
use ztre.Agent.Shutdown.Reports.{Answers}
use ztre.Containment.{Retry}

-- What a start finds: flags and files, the clock, the disk, and the answers of the libraries.
pub record World (f : Float64) (Bytes Doc : Type 0) : Type 0 where
  pub flags : Flags
  pub config : Option AgentConfig
  pub gen_report : Bool
  pub webhook_url : GoString
  pub whitelist : FileRead (List WhitelistEntry)
  pub manual : FileRead (List WhitelistEntry)
  pub policy : FileRead (PolicyConfig f)
  pub cluster : Cluster
  pub post : WebhookAlertSink → Alert f → PostResult
  pub disk : Option (Dict (Snapshots.Node Bytes))
  pub whitelist_dir : Dict (Snapshots.Node Doc)
  pub io : Io Bytes
  pub now : ℕ
  pub loaded_at : ℕ
  pub nano : ℕ
  pub answers : Answers Bytes Doc

-- How `main` goes on: an exit with a code (0 after a report), or a running agent.
pub data Start (f : Float64) (Bytes : Type 0) : Type 0 where
  exited : ℕ → Start f Bytes
  running : Node f Bytes → Start f Bytes

-- The engines of the modes that classify: the whitelist, the risk engine and the executor.
pub record Engines (f : Float64) : Type 0 where
  pub whitelist : Allow
  pub engine : Risk.Engine f
  pub executor : Option Executor

abbrev pub config_of : {f : Float64} {Bytes Doc : Type 0} → World f Bytes Doc → AgentConfig
config_of w = config_or_fallback w.config

abbrev pub settings_of : {f : Float64} {Bytes Doc : Type 0} → World f Bytes Doc → Settings
settings_of w = resolve w.flags w.config

-- Steps that can end the start.
infixl 5 ◌>>=◌
abbrev pub ◌>>=◌ {ℓ κ} : {A : Type ℓ} {B : Type κ} → Option A → (A → Option B) → Option B
none >>= k = none
some a >>= k = k a

module _ (retry : Retry) (u : ℕ → ℕ) (f : Float64) (c : Codec) (times : TimeText) (yaml : Yaml)
    (two_decimals : f.Num → GoString) (marshal : BaselineReport f → Option c.Bytes)
    (no_engine : Risk.Engine f) where
  abbrev pub new_store : World f c.Bytes yaml.Doc → BaselineStore c.Bytes
  new_store w =
      let cfg = config_of w in
      let store : BaselineStore c.Bytes =
        new_baseline_store w.disk cfg.snapshot_interval cfg.stability_threshold in
      if ltb_ℤ (pos 0) cfg.max_snapshots
      then record store { max_snapshots = cfg.max_snapshots }
      else store

  -- The store and the tracker with the previous baseline, if there is one; an error is logged.
  unfoldable pub restored : World f c.Bytes yaml.Doc → BaselineStore c.Bytes × BehaviorTracker
  unfolding load_latest_snapshot
  restored w =
      (load_latest_snapshot c times w.io (new_store w) (new_tracker w.now) w.loaded_at w.nano).0

  -- The exit code of `--generate-report`.
  abbrev pub report_code : World f c.Bytes yaml.Doc → BaselineStore c.Bytes × BehaviorTracker → ℕ
  report_code w (store, bt) =
      let a = w.answers in
      let report_ok =
        (write_report f two_decimals marshal store bt a.report_io a.report_clock a.report_nano).1 in
      let whitelist_ok =
        (write_whitelist yaml w.whitelist_dir (settings_of w).whitelist_path bt a.whitelist_io
          a.generated a.window_end a.whitelist_nano).1 in
      if not report_ok
      then 1
      else if (config_of w).auto_generate_whitelist && not whitelist_ok
      then 1
      else 0

  abbrev pub new_alerts : World f c.Bytes yaml.Doc → Dispatcher f
  new_alerts w =
      let d = new_dispatcher f (stdout_sink f ∷ []) in
      let hook = new_webhook_alert_sink w.webhook_url (pos 5000000000) [] in
      if is_empty w.webhook_url then d else register_sink f d (webhook_sink f (w.post hook))

  -- The manual overrides on top of the whitelist; an error is logged.
  abbrev pub with_overrides : World f c.Bytes yaml.Doc → Allow → Allow
  with_overrides w allow = (load_multi allow (w.manual ∷ [])).0

  abbrev pub executor_in : World f c.Bytes yaml.Doc → AgentMode → Option (Option Executor)
  executor_in w discovery = some none
  executor_in w shadow = some none
  executor_in w enforcement = do e ← new_in_cluster_executor w.cluster; some (some e)

  abbrev pub classifying : World f c.Bytes yaml.Doc → AgentMode → Option (Engines f)
  classifying w mode = do
    allow ← new_whitelist w.whitelist
    engine ← new_engine f w.policy
    executor ← executor_in w mode
    some (record { whitelist = with_overrides w allow; engine = engine; executor = executor })

  -- Discovery mode has none of the engines; `no_engine` stands for the nil one, which nothing reads.
  unfoldable pub engines : World f c.Bytes yaml.Doc → AgentMode → Option (Engines f)
  unfolding new_whitelist new_engine new_in_cluster_executor load_multi
  engines w discovery = some (record { whitelist = []; engine = no_engine; executor = none })
  engines w shadow = classifying w shadow
  engines w enforcement = classifying w enforcement

  abbrev pub agent_with : World f c.Bytes yaml.Doc → BehaviorTracker → Engines f → Agent f
  agent_with w bt e = record {
    mode = (settings_of w).mode;
    exclude_namespaces = (config_of w).exclude_namespaces;
    tracker = bt;
    whitelist = e.whitelist;
    engine = e.engine;
    thresholds = (settings_of w).thresholds;
    executor = e.executor;
    dispatcher = new_alerts w;
    effects = [];
    discovery_events = 0;
    classified = [];
    observed = [];
    shadow_decisions = [];
  }

  abbrev pub launch :
      World f c.Bytes yaml.Doc
      → BaselineStore c.Bytes × BehaviorTracker
      → Option (Engines f)
      → Start f c.Bytes
  launch w (store, bt) none = exited 1
  launch w (store, bt) (some e) = running (
      started retry u f c times (agent_with w bt e) (new_event_buffer (settings_of w).buffer_size)
        store (pos_part (settings_of w).worker_count))

  -- `main`, up to the wait for a signal.
  unfoldable pub assemble : World f c.Bytes yaml.Doc → Start f c.Bytes
  unfolding restored engines new_event_buffer write_report write_whitelist register_sink
      new_dispatcher resolve new_webhook_alert_sink
  assemble w =
      if w.gen_report
      then exited (report_code w (restored w))
      else launch w (restored w) (engines w (settings_of w).mode)
