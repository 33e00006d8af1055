-- ===== src/Discovery/Report/Anomalies.antt =====
-- What a report flags, and what the writing of its file leaves alone (pkg/discovery/reporter.go).
use ztre.Base.{
  ℕ, negsuc, GoString, text_eq, false, ◌&&◌, Option, none, some, List, [], ◌∷◌, ◌≡◌, refl,
  if◌then◌else◌, arith, inl, inr, Bool-cases,
}
use ztre.Base.Dict
use ztre.Base.Dict.{Dict}
use ztre.Float64.{Float64, zero_of}
use ztre.Discovery.Tracker.{ExecutionPattern, BehaviorTracker, pattern_key}
use ztre.Discovery.Snapshots.{Node, file, temp_name}
use ztre.Discovery.Snapshots.Atomic.{get-write_file_atomic}
use ztre.Discovery.Baseline.{BaselineStore}
use ztre.Discovery.Statistics.{
  Measures, frequencies, mean_stddev, measure_each, sort_nums, get_measures,
}
use ztre.Discovery.Report.{
  BaselineReport, AnomalyCandidate, Clock, Saving, flag, anomalies, generate_report, report_name,
  dir_or_new, save_report, write_report,
}

module _ (f : Float64) (two_decimals : f.Num → GoString) where
  abbrev pub bytes_node : {Bytes : Type 0} → Option Bytes → Option (Node Bytes)
  bytes_node none = none
  bytes_node (some bytes) = some (file bytes)

  save_report_exact :
      {Bytes : Type 0} (bs : BaselineStore Bytes) (io : Saving Bytes) (o : Option Bytes) (nano : ℕ)
      (name : GoString)
      → text_eq (temp_name (report_name f two_decimals) nano) name ≡ false
      → let (bs', ok) = save_report f two_decimals bs io o nano in
        Dict.get (dir_or_new f two_decimals bs'.disk) name ≡ (
          if ok && text_eq (report_name f two_decimals) name
          then bytes_node o
          else Dict.get (dir_or_new f two_decimals bs.disk) name)
  save_report_exact bs io none nano name other = refl
  save_report_exact {Bytes} bs io (some bytes) nano name other =
      get-write_file_atomic Bytes (dir_or_new f two_decimals bs.disk) (report_name f two_decimals)
        nano bytes io.write name other

  -- However `WriteReport` ends (no directory, a report that JSON cannot hold, a failed write, or well), every
  -- file but its own temporary one is as it was, the snapshots too, except that after a success the report's
  -- file holds the encoding of the generated report.
  pub write_report_exact :
      {Bytes : Type 0} (marshal : BaselineReport f → Option Bytes) (bs : BaselineStore Bytes)
      (bt : BehaviorTracker) (io : Saving Bytes) (clock : Clock) (nano : ℕ) (name : GoString)
      → text_eq (temp_name (report_name f two_decimals) nano) name ≡ false
      → let (bs', ok) = write_report f two_decimals marshal bs bt io clock nano in
        Dict.get (dir_or_new f two_decimals bs'.disk) name ≡ (
          if ok && text_eq (report_name f two_decimals) name
          then bytes_node (marshal (generate_report f two_decimals bs bt clock).1)
          else Dict.get (dir_or_new f two_decimals bs.disk) name)
  unfolding write_report generate_report
  write_report_exact marshal bs bt io clock nano name other =
      let (bs1, report) = generate_report f two_decimals bs bt clock in
      elim (Bool-cases io.mkdir_ok) [
        | inl made ↦ rw made (save_report_exact bs1 io (marshal report) nano name other)
        | inr failed ↦ rw failed refl
      ]

  -- A z-score of zero under every key.
  abbrev AreCentred : Dict (Measures f) → Type 0
  AreCentred stats =
      (k : GoString) (s : Measures f) → Dict.get stats k ≡ some s → s.z_score ≡ zero_of f

  measure_each-AreCentred :
      (now : ℕ) (mean stddev : f.Num) (sorted : List f.Num) (m : Dict ExecutionPattern)
      → f.lt (zero_of f) stddev ≡ false
      → AreCentred (measure_each f now (mean, stddev) sorted m)
  unfolding Dict.get
  measure_each-AreCentred now mean stddev sorted [] flat k s e = cc
  measure_each-AreCentred now mean stddev sorted ((key, p) ∷ m) flat k s e =
      elim (Bool-cases (text_eq key k)) [
        | inl same ↦ ground (arith, flat, e, same)
        | inr other ↦ measure_each-AreCentred now mean stddev sorted m flat k s (rw other at e)
      ]

  flag_centred :
      (o : Option (Measures f)) (p : ExecutionPattern) (rest : List (AnomalyCandidate f))
      → f.lt (zero_of f) (f.thousandths (negsuc 1499)) ≡ false
      → ((s : Measures f) → o ≡ some s → s.z_score ≡ zero_of f)
      → rest ≡ []
      → flag f two_decimals o p rest ≡ []
  flag_centred none p rest low h empty = empty
  flag_centred (some s) p rest low h empty = rw (h s refl, low) empty

  anomalies_centred :
      (stats : Dict (Measures f)) (ps : List ExecutionPattern)
      → f.lt (zero_of f) (f.thousandths (negsuc 1499)) ≡ false
      → AreCentred stats
      → anomalies f two_decimals stats ps ≡ []
  unfolding anomalies
  anomalies_centred stats [] low h = refl
  anomalies_centred stats (p ∷ ps) low h =
      flag_centred
        (Dict.get stats (pattern_key p.namespace p.workload_name p.parent_binary p.child_binary)) p
        (anomalies f two_decimals stats ps) low
        (h (pattern_key p.namespace p.workload_name p.parent_binary p.child_binary))
        (anomalies_centred stats ps low h)

  -- Where the frequencies do not deviate, the division by the deviation is skipped and the report flags no
  -- pattern as an anomaly, if zero is not below the bound of -1.5.
  pub anomalies_flat :
      {Bytes : Type 0} (bs : BaselineStore Bytes) (bt : BehaviorTracker) (clock : Clock)
      → f.lt (zero_of f) (f.thousandths (negsuc 1499)) ≡ false
      → f.lt (zero_of f) (mean_stddev f (frequencies f clock.at_stats bt.patterns)).1 ≡ false
      → (generate_report f two_decimals bs bt clock).1.anomaly_candidates ≡ []
  unfolding generate_report get_measures
  anomalies_flat bs bt clock low flat =
      let all = frequencies f clock.at_stats bt.patterns in
      let (mean, stddev) = mean_stddev f all in
      anomalies_centred _ _ low
        (measure_each-AreCentred clock.at_stats mean stddev (sort_nums f all) bt.patterns flat)
