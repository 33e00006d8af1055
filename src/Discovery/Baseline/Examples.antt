-- ===== src/Discovery/Baseline/Examples.antt =====
-- Runs of a save and a restart, and instances of the theorems (pkg/discovery/baseline.go).
use ztre.Base.{
  pos, ◌≤◌, ◌↔◌, ◌≢◌, lit, text_eq, text_lt, has_prefix, true, Option, none, some, [], ◌∷◌, ◌≡◌,
  refl, arith,
}
use ztre.Base.Dict
use ztre.Base.Dict.{Dict}
use ztre.Base.Sorting.{sort_texts, insert}
use ztre.Files.{decoded}
use ztre.Discovery.Tracker.{ExecutionPattern, BehaviorTracker, new_tracker, load_patterns}
use ztre.Discovery.Snapshots.{
  TimeText, file, written, Io, latest_name, snapshot_names, list_snapshots,
}
use ztre.Discovery.Baseline.{
  stable, learning, BaselineSnapshot, Codec, BaselineStore, new_baseline_store, since, quiet_time,
  grade, stability, entries,
}
use ztre.Discovery.Baseline.Loading.{read_snapshot, load_latest_snapshot}
use ztre.Discovery.Baseline.Stability.{progress, IsQuietFor, stability_exact}
use ztre.Discovery.Baseline.Restoring.{IsCodec}
use ztre.Discovery.Baseline.Healing.{load_latest_snapshot_heals}

abbrev times : TimeText
times = record { format = λ _. lit "20260101_000000"; parses = has_prefix (lit "baseline_2") }

-- Bytes that hold a snapshot or nothing that decodes.
abbrev codec : Codec
codec = record { Bytes = Option BaselineSnapshot; marshal = some; unmarshal = λ b. b }

codec-IsCodec : IsCodec codec
codec-IsCodec = record { round_trip = λ s. refl }

abbrev io : Io (Option BaselineSnapshot)
io = record {
  mkdir_ok = true;
  write = written;
  write_latest = written;
  list_ok = true;
  removes = λ _. true;
}

abbrev shell : ExecutionPattern
shell = record {
  parent_binary = lit "nginx";
  child_binary = lit "sh";
  namespace = lit "shop";
  workload_name = lit "web";
  count = 3;
  first_seen = 10;
  last_seen = 20;
  nodes = [];
}

abbrev tracker : BehaviorTracker
tracker = record (new_tracker 10) { patterns = (lit "shop/web/nginx→sh", shell) ∷ [] }

abbrev store : BaselineStore (Option BaselineSnapshot)
store = new_baseline_store none (pos 0) (pos 40)

grown_stable : stability (pos 40) tracker 60 ≡ stable
unfolding stability quiet_time since grade
grown_stable = refl

stability_exact_example :
    let status = stability (pos 40) tracker 31 in
    ((status ≡ stable) ↔ IsQuietFor 40 tracker 31)
    × ((status ≢ learning) ↔ IsQuietFor 20 tracker 31)
    × (progress status ≤ progress (stability (pos 40) tracker 60))
stability_exact_example = stability_exact 40 tracker 31 60 (omega arith) (omega arith)

abbrev good : BaselineSnapshot
good = record {
  timestamp = 50;
  learning_start = 10;
  total_events = 3;
  unique_patterns = 1;
  patterns = tracker.patterns;
  stability = stable;
  last_new_pattern = 10;
}

abbrev damaged : BaselineStore (Option BaselineSnapshot)
damaged = record store {
  disk = some (
      (latest_name, file none)
      ∷ (lit "baseline_22.json", file none)
      ∷ (lit "baseline_21.json", file (some good))
      ∷ []);
}

load_latest_snapshot_heals_example :
    let (found, ok) = load_latest_snapshot codec times io damaged (new_tracker 90) 90 3 in
    (found.1 ≡ load_patterns (new_tracker 90) tracker.patterns 3 10 10)
    × (read_snapshot codec times (entries codec times found.0.disk) latest_name ≡ decoded good)
    × (ok ≡ true)
unfolding list_snapshots snapshot_names sort_texts insert has_prefix text_lt read_snapshot Dict.get
    text_eq
load_latest_snapshot_heals_example =
    load_latest_snapshot_heals codec times codec-IsCodec io damaged (new_tracker 90) 90 3 []
      (lit "baseline_22.json" ∷ []) (lit "baseline_21.json") good refl refl refl refl (refl, tt)
      refl
