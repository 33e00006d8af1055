-- ===== src/Discovery/Report/Examples.antt =====
-- A report that JSON cannot hold, and instances of the theorems (pkg/discovery/reporter.go).
use ztre.Base.{ℕ, ℤ, pos, GoString, lit, text_eq, true, Option, some, [], ◌∷◌, ◌≡◌, refl}
use ztre.Base.Dict
use ztre.Float64.{fixed}
use ztre.Discovery.Tracker.{new_tracker}
use ztre.Discovery.Snapshots.{file, written, temp_name}
use ztre.Discovery.Baseline.{BaselineStore, new_baseline_store}
use ztre.Discovery.Report.{BaselineReport, Clock, Saving, write_report, dir_or_new}
use ztre.Discovery.Report.Anomalies.{write_report_exact}

abbrev no_decimals : ℤ → GoString
no_decimals z = []

-- A directory with a snapshot in it.
abbrev store : BaselineStore ℕ
store = new_baseline_store (some ((lit "baseline_latest.json", file 7) ∷ [])) (pos 0) (pos 0)

abbrev clock : Clock
clock = record { at_stats = 10; at_status = 11; at_end = 12 }

abbrev io : Saving ℕ
io = record { mkdir_ok = true; write = written }

abbrev encode : BaselineReport fixed → Option ℕ
encode r = some r.unique_lineages

-- The snapshot is as it was after the report is written.
write_report_exact_example :
    Dict.get
      (dir_or_new fixed no_decimals
        (write_report fixed no_decimals encode store (new_tracker 5) io clock 3).0.disk)
      (lit "baseline_latest.json")
    ≡ some (file 7)
unfolding text_eq temp_name Dict.get write_report
write_report_exact_example =
    write_report_exact fixed no_decimals encode store (new_tracker 5) io clock 3
      (lit "baseline_latest.json") refl
