-- ===== src/Agent/Examples.antt =====
-- Runs of the agent on fixed-point scores, and instances of its theorems (cmd/ztre-agent/main.go).
use ztre.Base.{
  ℕ, pos, negsuc, inc_int64, ◌≤◌, ltb_ℤ, GoString, lit, text_eq, true, false, Option, none, some,
  List, [], ◌∷◌, ◌≡◌, refl, arith,
}
use ztre.Base.Dict
use ztre.Base.FilePath.{base}
use ztre.Float64.{fixed, fixed-IsIeee}
use ztre.Files.{FileRead, decoded}
use ztre.Collector.Event.{SecurityEvent, execve}
use ztre.Validator.{
  normal, suspicious, anomalous, WhitelistEntry, classify, load, load_multi, new_whitelist,
}
use ztre.Risk.{
  PolicyConfig, Engine, build_namespace_cache, calculate, severity_score, context_score,
  asset_score,
}
use ztre.Decision.{default_thresholds, evaluate_risk_score}
use ztre.Decision.Tiers.{rank}
use ztre.Decision.Dispatcher.{new_dispatcher, stdout_sink, dispatch}
use ztre.Containment.{Executor, new_executor, quarantine}
use ztre.Containment.Retrying.{looping}
use ztre.Discovery.Tracker.{new_tracker}
use ztre.Config.{AgentConfig, defaults, is_namespace_excluded}
use ztre.Agent.{
  AgentMode, enforcement, alerted, contained, Agent, Input, score_of, alert_of, enforce, process,
  process_all,
}
use ztre.Agent.Startup.{Flags, resolve}
use ztre.Agent.Enforce.{IsRestrained, process_all-IsRestrained}
use ztre.Agent.Contain.{process_red, action_mono}
use ztre.Agent.Reload.{reload_whitelist, reload_overrides, hot_reload}
use ztre.Agent.Reload.Restart.{fresh_whitelist, hot_reload_as_started, reload_window}
use ztre.Agent.Reload.Interleaving.{Move, handle, adopt_config, load_whitelist, merge_overrides}

abbrev pub policy : PolicyConfig fixed
policy = record {
  weight_severity = pos 400;
  weight_context = pos 300;
  weight_asset = pos 300;
  severity_scores = (lit "reverse_shell", pos 100000) ∷ (lit "default", pos 20000) ∷ [];
  context_scores = (lit "NORMAL", pos 0) ∷ (lit "ANOMALOUS", pos 100000) ∷ [];
  critical = record { namespaces = lit "payments" ∷ []; score = pos 100000 };
  high = record { namespaces = []; score = pos 80000 };
  medium = record { namespaces = []; score = pos 50000 };
  low = record { namespaces = []; score = pos 10000 };
  default_score = pos 40000;
}

abbrev pub engine : Engine fixed
engine = record { policy = policy; ns_score_cache = build_namespace_cache fixed policy }

abbrev pub ascii : ℕ → ℕ
ascii c = c

abbrev pub in_namespace : GoString → SecurityEvent
in_namespace ns = record {
  timestamp = 5;
  event_type = execve;
  pid = 7;
  binary = lit "/bin/nc";
  arguments = lit "-e /bin/sh";
  parent_pid = 1;
  parent_binary = lit "/usr/sbin/nginx";
  namespace = ns;
  pod_name = lit "web-0";
  container_id = lit "c";
  node_name = lit "n";
  workload_kind = lit "Deployment";
  workload_name = lit "web";
}

abbrev pub input : GoString → Input
input ns = record { event = in_namespace ns; clock = 10; wall = 11; now = 12; answers = λ _. none }

abbrev pub lineages : GoString → List WhitelistEntry
lineages child = record { parent = lit "nginx"; allowed_children = child ∷ [] } ∷ []

abbrev pub agent : AgentMode → Option Executor → Agent fixed
agent mode executor = record {
  mode = mode;
  exclude_namespaces = lit "monitoring" ∷ [];
  tracker = new_tracker 1;
  whitelist = (lit "nginx", (lit "php", true) ∷ []) ∷ [];
  engine = engine;
  thresholds = default_thresholds;
  executor = executor;
  dispatcher = new_dispatcher fixed (stdout_sink fixed ∷ []);
  effects = [];
  discovery_events = 0;
  classified = [];
  observed = [];
  shadow_decisions = [];
}

abbrev guard : Agent fixed
guard = agent enforcement (some new_executor)

abbrev inputs : List Input
inputs = input (lit "kube-system") ∷ input (lit "payments") ∷ input (lit "monitoring") ∷ []

payments_alerted :
    (process_all looping ascii fixed guard inputs).dispatcher.dispatched ≡ lit "stdout" ∷ []
unfolding process_all process quarantine dispatch new_dispatcher classify calculate
    evaluate_risk_score build_namespace_cache is_namespace_excluded Dict.get Dict.put enforce
payments_alerted = refl

abbrev stricter : FileRead (AgentConfig → AgentConfig)
stricter = decoded (λ cfg. record cfg { green_max = pos 20; yellow_max = pos 50 })

abbrev storm : List Move
storm =
    handle (input (lit "payments"))
    ∷ adopt_config stricter
    ∷ load_whitelist (decoded (lineages (lit "php")))
    ∷ handle (input (lit "monitoring"))
    ∷ merge_overrides (decoded (lineages (lit "nc")))
    ∷ []

process_all-IsRestrained_example :
    IsRestrained fixed default_thresholds (process_all looping ascii fixed guard inputs)
process_all-IsRestrained_example =
    process_all-IsRestrained looping ascii fixed default_thresholds guard inputs
      (record { same = refl; justified = tt })

attack_over :
    ltb_ℤ
      (score_of looping ascii fixed guard (input (lit "payments"))).total_score
      (fixed.of_int (inc_int64 (pos 69)))
    ≡ false
unfolding calculate classify build_namespace_cache Dict.get Dict.put inc_int64
attack_over = refl

process_red_example :
    let i = input (lit "payments") in
    let (e', err) = quarantine looping new_executor (lit "payments") (lit "web-0") i.answers in
    ((process looping ascii fixed guard i).executor ≡ some e')
    × ((process looping ascii fixed guard i).effects
        ≡ alerted (alert_of looping ascii fixed guard i)
          ∷ contained
              (lit "payments")
              (lit "web-0")
              (score_of looping ascii fixed guard i).total_score
              err
          ∷ [])
unfolding is_namespace_excluded classify Dict.get base
process_red_example =
    process_red looping ascii fixed fixed-IsIeee guard (input (lit "payments")) new_executor refl
      refl refl refl refl (omega arith) (omega arith) attack_over

action_mono_example :
    rank (
      evaluate_risk_score fixed default_thresholds
        (calculate ascii fixed engine (in_namespace (lit "payments")) suspicious))
    ≤ rank (
        evaluate_risk_score fixed default_thresholds
          (calculate ascii fixed engine (in_namespace (lit "payments")) anomalous))
unfolding severity_score context_score asset_score build_namespace_cache Dict.get Dict.put
action_mono_example =
    action_mono looping ascii fixed fixed-IsIeee engine default_thresholds
      (in_namespace (lit "payments")) suspicious anomalous
      (record {
        severity = record { nonneg = refl; at_most = refl };
        context = record { nonneg = refl; at_most = refl };
        asset = record { nonneg = refl; at_most = refl };
      })
      (record { nonneg = refl; at_most = refl }) (record { nonneg = refl; at_most = refl })
      (record { nonneg = refl; at_most = refl }) (record { nonneg = refl; at_most = refl }) refl

hot_reload_as_started_example :
    fresh_whitelist (decoded (lineages (lit "php"))) (decoded (lineages (lit "nc")))
    ≡ some
        (hot_reload fixed guard stricter
          (decoded (lineages (lit "php")))
          (decoded (lineages (lit "nc")))).whitelist
hot_reload_as_started_example =
    hot_reload_as_started fixed guard stricter (decoded (lineages (lit "php")))
      (decoded (lineages (lit "nc"))) refl refl

abbrev overridden : Agent fixed
overridden = record guard {
  whitelist = (load_multi (load [] (decoded [])).0 (decoded (lineages (lit "nc")) ∷ [])).0;
}

reload_window_example :
    let during = (reload_whitelist fixed overridden (decoded [])).0 in
    (classify overridden.whitelist (lit "nginx") (lit "nc") ≡ normal)
    × (classify during.whitelist (lit "nginx") (lit "nc") ≡ suspicious)
    × (classify
          (reload_overrides fixed during (decoded (lineages (lit "nc")))).whitelist
          (lit "nginx")
          (lit "nc")
        ≡ normal)
unfolding base text_eq new_whitelist load
reload_window_example =
    reload_window fixed overridden [] (lineages (lit "nc")) (lit "nginx") (lit "nc") refl refl refl

abbrev plain : Flags
plain = record {
  socket_path = lit "/var/run/tetragon/tetragon.sock";
  socket_path_set = false;
  metrics_addr = lit ":9090";
  metrics_addr_set = false;
  buffer_size = pos 50000;
  buffer_size_set = false;
  worker_count = negsuc 2;
  worker_count_set = true;
  whitelist_path = [];
  whitelist_path_set = false;
  mode = [];
}

plain_addr : (resolve plain none).metrics_addr ≡ lit ":9090"
unfolding resolve
plain_addr = refl

abbrev strict_config : AgentConfig
strict_config = record defaults { green_max = pos 20; yellow_max = pos 50 }
