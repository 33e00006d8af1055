-- ===== src/Agent/Shutdown/Reports/NextStart.antt =====
-- From one run of the agent to the next (cmd/ztre-agent/main.go): the whitelist that a discovery run leaves
-- classifies in a later shadow or enforcement run.
use ztre.Base.{ℕ, GoString, true, Option, some, List, ◌≡◌, if◌then◌else◌, All}
use ztre.Base.Dict.{Dict}
use ztre.Base.FilePath.{base}
use ztre.Float64.{Float64}
use ztre.Containment.{Retry}
use ztre.Validator.{Allow, normal, anomalous, suspicious, new_whitelist, classify}
use ztre.Base.Dict.Keys.{IsMap}
use ztre.Discovery.Tracker.{BehaviorTracker}
use ztre.Discovery.Tracker.Entries.{IsEntry, track_all-entries}
use ztre.Discovery.Tracker.Restored.{track_all-IsMap}
use ztre.Discovery.Tracker.Counts.{track_all}
use ztre.Discovery.Snapshots
use ztre.Discovery.Snapshots.{TimeText, written}
use ztre.Discovery.Baseline.{Codec}
use ztre.Discovery.Reporter.Baselines.{starts, learned}
use ztre.Discovery.Report.{BaselineReport}
use ztre.Discovery.WhitelistFile.{Yaml, read_entries_of}
use ztre.Discovery.WhitelistFile.Reading.{IsYaml, new_whitelist-learned}
use ztre.Agent.{discovery}
use ztre.Agent.Shutdown.{Node, Reach}
use ztre.Agent.Shutdown.Learned.{sightings, IsLearning, Reach-IsLearning}
use ztre.Agent.Shutdown.Reports.{Answers, last_reports}

module _ (retry : Retry) (u : ℕ → ℕ) (f : Float64) (c : Codec) (times : TimeText)
    (two_decimals : f.Num → GoString) (yaml : Yaml) where
  -- Take any run of an agent that learns, on a baseline whose entries are well formed with no key twice. If the
  -- agent is in discovery mode with the whitelist's generation on and the whitelist's write works at its
  -- shutdown, `NewWhitelist` of a later run succeeds on that file and classifies by the patterns of the baseline
  -- and of what was handled outside the excluded namespaces.
  pub next_start_classifies :
      IsYaml yaml
      → (marshal : BaselineReport f → Option c.Bytes) (origin : BehaviorTracker)
        (excluded : List GoString) (n m : Node f c.Bytes) (dir : Dict (Snapshots.Node yaml.Doc))
        (path : GoString) (w : Answers c.Bytes yaml.Doc) (parent child : GoString)
      → IsMap origin.patterns
      → All IsEntry origin.patterns
      → IsLearning origin excluded n
      → Reach retry u f c times n m
      → m.agent.mode ≡ discovery
      → w.whitelist_io.mkdir_ok ≡ true
      → w.whitelist_io.write ≡ written
      → let dir' = (last_reports f two_decimals yaml marshal m true dir path w).1 in
        let patterns = (track_all origin (sightings excluded m.handled)).patterns in
        (allow : Allow) × (new_whitelist (read_entries_of yaml dir' path) ≡ some allow)
        × (classify allow parent child ≡ (
            if starts patterns (base parent)
            then (if learned patterns (base parent) (base child) then normal else anomalous)
            else suspicious))
  unfolding last_reports
  next_start_classifies laws marshal origin excluded n m dir path w parent child keys entries
        learning run mode made wrote =
      let learning' = Reach-IsLearning retry u f c times origin excluded learning run in
      let history = sightings excluded m.handled in
      rw (mode, learning'.tracked)
        (new_whitelist-learned yaml laws (track_all origin history) dir path w.whitelist_io
          w.generated w.window_end w.whitelist_nano parent child
          (track_all-IsMap origin history keys) (track_all-entries origin history entries) made
          wrote)
