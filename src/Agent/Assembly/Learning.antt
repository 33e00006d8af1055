-- ===== src/Agent/Assembly/Learning.antt =====
-- From what the runs of the agent learned to what a later run of it calls normal (cmd/ztre-agent/main.go).
mod Examples
use ztre.Base.{
  ℕ, GoString, true, false, Option, some, List, [], ◌∷◌, ◌≡◌, ◌≢◌, refl, sym, ap, ◌∙◌, arith, All,
  if◌then◌else◌,
}
use ztre.Base.Dict
use ztre.Base.FilePath.{base}
use ztre.Float64.{Float64}
use ztre.Files.{not_exist}
use ztre.Containment.{Retry}
use ztre.Risk
use ztre.Validator.{Allow, normal, anomalous, suspicious, new_whitelist, load_multi, classify}
use ztre.Discovery.Snapshots.{TimeText, written, latest_name}
use ztre.Discovery.Tracker.Counts.{track_all}
use ztre.Discovery.Tracker.Entries.{IsEntry}
use ztre.Discovery.Baseline.{Codec}
use ztre.Discovery.Baseline.Restoring.{IsCodec}
use ztre.Discovery.Reporter.Baselines.{starts, learned}
use ztre.Discovery.Report.{BaselineReport}
use ztre.Discovery.WhitelistFile.{Yaml, read_entries_of}
use ztre.Discovery.WhitelistFile.Reading.{IsYaml}
use ztre.Agent.{AgentMode, discovery, shadow, enforcement}
use ztre.Agent.Shutdown.{Node, is_learning, Reach}
use ztre.Agent.Shutdown.Learned.{sightings}
use ztre.Agent.Shutdown.Reports.{last_reports}
use ztre.Agent.Shutdown.Reports.NextStart.{next_start_classifies}
use ztre.Agent.Assembly.{
  World, running, Engines, config_of, settings_of, restored, engines, with_overrides,
}
use ztre.Agent.Assembly.Soundness.{assembled, ran}
use ztre.Agent.Assembly.Lifecycle.{
  Past, Lives, baseline, restored-IsMap, started-IsLearning, Lives-entries,
}

module _ (retry : Retry) (u : ℕ → ℕ) (f : Float64) (c : Codec) (times : TimeText) (yaml : Yaml)
    (two_decimals : f.Num → GoString) (marshal : BaselineReport f → Option c.Bytes)
    (no_engine : Risk.Engine f) where
  engines-whitelist :
      (w : World f c.Bytes yaml.Doc) (mode : AgentMode) (e : Engines f) (allow : Allow)
      → engines retry u f c times yaml two_decimals marshal no_engine w mode ≡ some e
      → mode ≢ discovery
      → new_whitelist w.whitelist ≡ some allow
      → e.whitelist ≡ with_overrides retry u f c times yaml two_decimals marshal no_engine w allow
  unfolding engines
  engines-whitelist w discovery e allow h not_discovery loads = absurd (not_discovery refl)
  engines-whitelist w shadow e allow h p loads = ground (arith, rw loads at h)
  engines-whitelist w enforcement e allow h p loads = ground (arith, rw loads at h)

  -- Without manual overrides the whitelist of the running agent is the one that loaded.
  running-whitelist :
      (w : World f c.Bytes yaml.Doc) (n : Node f c.Bytes) (allow : Allow)
      → assembled retry u f c times yaml two_decimals marshal no_engine w ≡ running n
      → n.agent.mode ≢ discovery
      → w.manual ≡ not_exist
      → new_whitelist w.whitelist ≡ some allow
      → n.agent.whitelist ≡ allow
  unfolding load_multi
  running-whitelist w n allow h not_discovery plain loads =
      let (e, made, is) = ran retry u f c times yaml two_decimals marshal no_engine w n h in
      rw is (
        engines-whitelist w (settings_of w).mode e allow made (rw is at not_discovery) loads
        ∙ rw plain refl)

  -- Over any number of runs that learned, one after the other on the same directory, from a start that found
  -- well-formed entries: let a further run in discovery mode, with the whitelist's generation on, shut down at any
  -- point with a working write of the whitelist. An agent that then starts on that file without manual overrides,
  -- and runs in shadow or enforcement mode, calls a lineage SUSPICIOUS if no pattern of the restored baseline and
  -- of what the last run handled outside the excluded namespaces has the parent's base name, NORMAL if a pattern of
  -- the two base names reached the confidence that is asked for, and ANOMALOUS otherwise.
  pub Lives-classify :
      {w v : World f c.Bytes yaml.Doc} {runs : List Past}
      → IsCodec c
      → IsYaml yaml
      → (next : World f c.Bytes yaml.Doc) (n m last : Node f c.Bytes) (parent child : GoString)
      → times.parses latest_name ≡ false
      → All IsEntry (baseline retry u f c times yaml two_decimals marshal no_engine w)
      → Lives retry u f c times yaml two_decimals marshal no_engine w v runs
      → assembled retry u f c times yaml two_decimals marshal no_engine v ≡ running n
      → is_learning n.agent.mode ≡ true
      → Reach retry u f c times n m
      → m.agent.mode ≡ discovery
      → v.answers.whitelist_io.mkdir_ok ≡ true
      → v.answers.whitelist_io.write ≡ written
      → next.whitelist
        ≡ read_entries_of yaml
            (last_reports f two_decimals yaml marshal m true v.whitelist_dir
              (settings_of v).whitelist_path
              v.answers).1
            (settings_of v).whitelist_path
      → next.manual ≡ not_exist
      → assembled retry u f c times yaml two_decimals marshal no_engine next ≡ running last
      → last.agent.mode ≢ discovery
      → let excluded = (config_of v).exclude_namespaces in
        let origin = (restored retry u f c times yaml two_decimals marshal no_engine v).1 in
        let patterns = (track_all origin (sightings excluded m.handled)).patterns in
        classify last.agent.whitelist parent child ≡ (
          if starts patterns (base parent)
          then (if learned patterns (base parent) (base child) then normal else anomalous)
          else suspicious)
  Lives-classify {w} {v} laws yaml_laws next n m last parent child other entries lives starts_n
        learns run mode made wrote left plain starts_last classifies =
      let origin = (restored retry u f c times yaml two_decimals marshal no_engine v).1 in
      let (allow, loads, is) =
        next_start_classifies retry u f c times two_decimals yaml yaml_laws marshal origin
          (config_of v).exclude_namespaces n m v.whitelist_dir (settings_of v).whitelist_path
          v.answers parent child
          (restored-IsMap retry u f c times yaml two_decimals marshal no_engine v)
          (Lives-entries retry u f c times yaml two_decimals marshal no_engine laws other entries
            lives)
          (started-IsLearning retry u f c times yaml two_decimals marshal no_engine v n starts_n
            learns)
          run mode made wrote in
      ap (λ a. classify a parent child)
        (running-whitelist next last allow starts_last classifies plain
          (ap new_whitelist left ∙ loads))
      ∙ is
