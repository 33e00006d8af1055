-- ===== src/Agent/Shutdown/Reports.antt =====
-- cmd/ztre-agent/main.go: the report and the whitelist that a shutdown in discovery mode leaves for the
-- next start.
pub mod NextStart
use ztre.Base.{ℕ, GoString, Bool, true, false, ◌&&◌, Option, if◌then◌else◌}
use ztre.Base.Dict.{Dict}
use ztre.Float64.{Float64}
use ztre.Discovery.Snapshots
use ztre.Discovery.Report.{BaselineReport, Clock, Saving, write_report}
use ztre.Discovery.WhitelistFile.{Yaml, write_whitelist}
use ztre.Agent.{AgentMode, discovery, shadow, enforcement}
use ztre.Agent.Shutdown.{Node}

abbrev pub is_discovery : AgentMode → Bool
is_discovery discovery = true
is_discovery shadow = false
is_discovery enforcement = false

-- What the operating system and the clock do in the two writes.
pub record Answers (Bytes Doc : Type 0) : Type 0 where
  pub report_io : Saving Bytes
  pub report_clock : Clock
  pub report_nano : ℕ
  pub whitelist_io : Saving Doc
  pub generated : ℕ
  pub window_end : ℕ
  pub whitelist_nano : ℕ

module _ (f : Float64) (two_decimals : f.Num → GoString) (yaml : Yaml) {Bytes : Type 0} where
  -- The node and the directory of the whitelist afterwards. The errors of both writes are logged.
  unfoldable pub last_reports :
      (BaselineReport f → Option Bytes)
      → Node f Bytes
      → Bool
      → Dict (Snapshots.Node yaml.Doc)
      → GoString
      → Answers Bytes yaml.Doc
      → Node f Bytes × Dict (Snapshots.Node yaml.Doc)
  unfolding write_report write_whitelist
  last_reports marshal n auto_generate dir whitelist_path w =
      let bt = n.agent.tracker in
      let store =
        (write_report f two_decimals marshal n.store bt w.report_io w.report_clock
          w.report_nano).0 in
      let dir' =
        (write_whitelist yaml dir whitelist_path bt w.whitelist_io w.generated w.window_end
          w.whitelist_nano).0 in
      if is_discovery n.agent.mode && auto_generate
      then (record n { store = store }, dir')
      else (n, dir)
