-- ===== src/Discovery/Report.antt =====
-- pkg/discovery/reporter.go: the baseline report, and its file. The JSON library and the two decimals of a
-- number's text are parameters.
pub mod Anomalies
mod Examples
use ztre.Base.{
  ℕ, negsuc, GoString, lit, ◌++◌, Bool, true, false, not, Option, none, some, List, [], ◌∷◌,
  if◌then◌else◌,
}
use ztre.Base.Decimal.{digits}
use ztre.Base.Dict
use ztre.Base.Dict.{Dict}
use ztre.Float64.{Float64}
use ztre.Discovery.Tracker.{ExecutionPattern, BehaviorTracker, pattern_key, unique_pattern_count}
use ztre.Discovery.Snapshots.{Node, Write, temp_name, write_file_atomic}
use ztre.Discovery.Baseline.{
  StabilityStatus, learning, stabilizing, stable, BaselineStore, stability,
}
use ztre.Discovery.Reporter.{get_patterns}
use ztre.Discovery.Statistics.{Measures, get_measures}
use ztre.Discovery.Profiles.{LineageProfile, get_profiles}

-- `StabilityStatus.String`
unfoldable pub status_text : StabilityStatus → GoString
status_text learning = lit "LEARNING"
status_text stabilizing = lit "STABILIZING"
status_text stable = lit "STABLE"

abbrev pub recommendation : StabilityStatus → GoString
recommendation stable = lit "Baseline is stable. Safe to transition to shadow mode for validation."
recommendation stabilizing =
    lit "Baseline is stabilizing. New patterns slowing. Monitor before transitioning."
recommendation learning =
    lit "Baseline is still learning. New patterns being discovered. Continue observation."

pub record AnomalyCandidate (f : Float64) : Type 0 where
  pub parent_binary : GoString
  pub child_binary : GoString
  pub namespace : GoString
  pub count : ℕ
  pub z_score : f.Num
  pub verdict : GoString

pub record TimeWindow : Type 0 where
  pub start : ℕ
  pub end : ℕ

pub record BaselineReport (f : Float64) : Type 0 where
  pub learning_window : TimeWindow
  pub total_events : ℕ
  pub unique_lineages : ℕ
  pub profiles : List LineageProfile
  pub anomaly_candidates : List (AnomalyCandidate f)
  pub stability : GoString
  pub recommendation : GoString

-- The readings of the clock in `GenerateReport`: in `GetStats`, in `GetStabilityStatus` and for the end
-- of the window.
pub record Clock : Type 0 where
  pub at_stats : ℕ
  pub at_status : ℕ
  pub at_end : ℕ

-- What the operating system does in one write of a file: the directory, and the atomic write.
pub record Saving (Bytes : Type 0) : Type 0 where
  pub mkdir_ok : Bool
  pub write : Write Bytes

module _ (f : Float64) (two_decimals : f.Num → GoString) where
  abbrev pub candidate : ExecutionPattern → Measures f → AnomalyCandidate f
  candidate p s = record {
    parent_binary = p.parent_binary;
    child_binary = p.child_binary;
    namespace = p.namespace;
    count = p.count;
    z_score = s.z_score;
    verdict =
        lit "RARE — seen "
        ++ (digits 20 p.count [] ++ (lit " times, z-score " ++ two_decimals s.z_score));
  }

  -- `ok && s.ZScore < -1.5`
  abbrev pub is_rare : Option (Measures f) → Bool
  is_rare none = false
  is_rare (some s) = f.lt s.z_score (f.thousandths (negsuc 1499))

  abbrev pub flag :
      Option (Measures f) → ExecutionPattern → List (AnomalyCandidate f) → List (AnomalyCandidate f)
  flag none p rest = rest
  flag (some s) p rest = if is_rare (some s) then candidate p s ∷ rest else rest

  -- The loop over the patterns.
  unfoldable pub anomalies : Dict (Measures f) → List ExecutionPattern → List (AnomalyCandidate f)
  unfolding pattern_key
  anomalies stats [] = []
  anomalies stats (p ∷ ps) =
      let rest = anomalies stats ps in
      flag (Dict.get stats (pattern_key p.namespace p.workload_name p.parent_binary p.child_binary))
        p rest

  -- `GenerateReport`; the status also goes to the store's gauge.
  unfoldable pub generate_report :
      {Bytes : Type 0}
      → BaselineStore Bytes
      → BehaviorTracker
      → Clock
      → BaselineStore Bytes × BaselineReport f
  unfolding get_patterns get_measures get_profiles stability anomalies status_text
  generate_report bs bt clock =
      let status = stability bs.stability_threshold bt clock.at_status in
      (
        record bs { gauge = status },
        record {
          learning_window = record { start = bt.started; end = clock.at_end };
          total_events = bt.total_events;
          unique_lineages = unique_pattern_count bt;
          profiles = get_profiles bt.patterns;
          anomaly_candidates =
              anomalies (get_measures f clock.at_stats bt.patterns) (get_patterns bt.patterns);
          stability = status_text status;
          recommendation = recommendation status;
        },
      )

  abbrev pub report_name : GoString
  report_name = lit "baseline_report.json"

  abbrev pub dir_or_new : {Bytes : Type 0} → Option (Dict (Node Bytes)) → Dict (Node Bytes)
  dir_or_new none = []
  dir_or_new (some dir) = dir

  -- From the encoded report on; JSON has no NaN and no infinity, so the encoding can fail.
  abbrev pub save_report :
      {Bytes : Type 0}
      → BaselineStore Bytes
      → Saving Bytes
      → Option Bytes
      → ℕ
      → BaselineStore Bytes × Bool
  save_report bs io none nano = (record bs { disk = some (dir_or_new bs.disk) }, false)
  save_report bs io (some bytes) nano =
      let (dir, ok) =
        write_file_atomic (dir_or_new bs.disk) (temp_name report_name nano) report_name bytes
          io.write in
      (record bs { disk = some dir }, ok)

  -- `WriteReport` into the directory of the snapshots, and whether there was no error.
  unfoldable pub write_report :
      {Bytes : Type 0}
      → (BaselineReport f → Option Bytes)
      → BaselineStore Bytes
      → BehaviorTracker
      → Saving Bytes
      → Clock
      → ℕ
      → BaselineStore Bytes × Bool
  unfolding generate_report write_file_atomic
  write_report marshal bs bt io clock nano =
      let (bs1, report) = generate_report bs bt clock in
      if not io.mkdir_ok then (bs, false) else save_report bs1 io (marshal report) nano
