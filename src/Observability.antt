-- ===== src/Observability.antt =====
-- pkg/observability: the metrics and their registration, the metrics and health server, and the logger's
-- settings. The Prometheus registry, net.Listen and zap are parameters.
pub mod Registration
pub mod Server
use ztre.Base.{ℕ, GoString, lit, Bool, true, false, List, [], ◌∷◌, if◌then◌else◌}

-- A collector by its kind, with the labels of a vector and the bounds of a histogram's buckets in hundred
-- thousandths.
pub data Kind : Type 0 where
  counter gauge : Kind
  counter_vec : List GoString → Kind
  histogram : List ℕ → Kind

pub record Metric : Type 0 where
  pub subsystem : GoString
  pub name : GoString
  pub kind : Kind

abbrev pub namespace : GoString
namespace = lit "ztre"

abbrev plain : GoString → Kind → Metric
plain name kind = record { subsystem = []; name = name; kind = kind }

abbrev inside : GoString → GoString → Kind → Metric
inside subsystem name kind = record { subsystem = subsystem; name = name; kind = kind }

abbrev pub events_ingested_total : Metric
events_ingested_total =
    plain (lit "events_ingested_total") (counter_vec (lit "event_type" ∷ lit "namespace" ∷ []))

abbrev pub events_dropped_total : Metric
events_dropped_total = plain (lit "events_dropped_total") counter

-- 10 µs to 10 ms
abbrev pub event_parse_duration : Metric
event_parse_duration =
    plain (lit "event_parse_duration_seconds") (histogram (1 ∷ 5 ∷ 10 ∷ 50 ∷ 100 ∷ 500 ∷ 1000 ∷ []))

abbrev pub discovery_patterns_total : Metric
discovery_patterns_total = inside (lit "discovery") (lit "patterns_observed_total") counter

abbrev pub discovery_events_total : Metric
discovery_events_total = inside (lit "discovery") (lit "events_tracked_total") counter

abbrev pub discovery_stability_gauge : Metric
discovery_stability_gauge = inside (lit "discovery") (lit "stability_status") gauge

abbrev pub agent_mode_gauge : Metric
agent_mode_gauge = inside (lit "agent") (lit "mode") gauge

abbrev pub shadow_decisions_total : Metric
shadow_decisions_total =
    inside (lit "shadow") (lit "decisions_total") (counter_vec (lit "action" ∷ []))

abbrev pub events_classified_total : Metric
events_classified_total = plain (lit "events_classified_total") (counter_vec (lit "status" ∷ []))

abbrev pub risk_score_histogram : Metric
risk_score_histogram = inside (lit "risk") (lit "score_distribution") (
    histogram (
      1000000 ∷ 2000000 ∷ 3000000 ∷ 4000000 ∷ 5000000 ∷ 6000000 ∷ 7000000 ∷ 8000000 ∷ 9000000
      ∷ 10000000 ∷ []))

abbrev pub containment_actions_total : Metric
containment_actions_total = plain (lit "containment_actions_total") counter

abbrev pub api_errors_total : Metric
api_errors_total = plain (lit "api_errors_total") counter

abbrev pub alerts_dispatched_total : Metric
alerts_dispatched_total =
    inside (lit "decision") (lit "alerts_dispatched_total") (counter_vec (lit "sink" ∷ []))

-- The arguments of `RegisterMetrics`.
abbrev pub all_metrics : List Metric
all_metrics =
    events_ingested_total ∷ events_dropped_total ∷ event_parse_duration ∷ discovery_patterns_total
    ∷ discovery_events_total ∷ discovery_stability_gauge ∷ agent_mode_gauge ∷ shadow_decisions_total
    ∷ events_classified_total ∷ risk_score_histogram ∷ containment_actions_total ∷ api_errors_total
    ∷ alerts_dispatched_total ∷ []

-- prometheus.Register: nil, an AlreadyRegisteredError, or another error.
pub data Registered : Type 0 where
  fresh already refused : Registered

-- The default registry.
pub record Registry : Type 1 where
  pub State : Type 0
  pub register : State → Metric → State × Registered

-- How the loop of `registerSafe` goes on: it panics on another error.
pub data Loop (State : Type 0) : Type 0 where
  done panicked : State → Loop State

module _ (r : Registry) where
  -- One turn of the loop, before the rest of it.
  abbrev pub after_turn : Registered → r.State → Loop r.State → Loop r.State
  after_turn fresh s rest = rest
  after_turn already s rest = rest
  after_turn refused s rest = panicked s

  unfoldable pub register_safe : r.State → List Metric → Loop r.State
  register_safe s [] = done s
  register_safe s (m ∷ ms) =
      let (s', answer) = r.register s m in after_turn answer s' (register_safe s' ms)

  -- `RegisterMetrics`, which also runs once as the package's `init`.
  abbrev pub register_metrics : r.State → Loop r.State
  register_metrics s = register_safe s all_metrics

-- What `NewLogger` sets in zap's production settings.
pub data Level : Type 0 where
  debug_level info_level : Level

pub record LogConfig : Type 0 where
  pub time_key : GoString
  pub iso8601 : Bool
  pub level : Level
  pub development : Bool

unfoldable pub log_config : Bool → LogConfig
log_config true = record {
  time_key = lit "timestamp";
  iso8601 = true;
  level = debug_level;
  development = true;
}
log_config false = record {
  time_key = lit "timestamp";
  iso8601 = true;
  level = info_level;
  development = false;
}
