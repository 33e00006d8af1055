-- ===== src/Discovery/Baseline.antt =====
-- pkg/discovery/baseline.go: the snapshots of the tracker and the stability of the
-- baseline. A method holds the store's lock, so it is one step; a snapshot is of one state of the tracker.
pub mod Stability
pub mod Fresh
pub mod Loading
pub mod Restoring
pub mod Readable
pub mod Found
pub mod Healing
mod Examples
use ztre.Base.{
  ℕ, ℤ, pos, negsuc, pos_part, sub_ℕ, leb_ℤ, ltb_ℤ, ◌+◌, ◌-◌, ◌*◌, ◌/◌, ◌==◌, leb, GoString, lit,
  Bool, true, false, not, ◌&&◌, Option, none, some, List, [], ◌∷◌, ◌++◌, reverse, if◌then◌else◌,
  int64_max, suc,
}
use ztre.Base.Dict
use ztre.Base.Dict.{Dict}
use ztre.Files.{FileRead, not_exist, unreadable, malformed, decoded}
use ztre.Config.{hour}
use ztre.Discovery.Snapshots.{
  TimeText, Node, folder, locked, file, Write, Io, latest_name, snapshot_name, temp_name,
  write_file_atomic, list_snapshots, prune_snapshots,
}
use ztre.Discovery.Tracker.{ExecutionPattern, BehaviorTracker, load_patterns, unique_pattern_count}

pub data StabilityStatus : Type 0 where
  learning stabilizing stable : StabilityStatus

pub record BaselineSnapshot : Type 0 where
  pub timestamp : ℕ
  pub learning_start : ℕ
  pub total_events : ℕ
  pub unique_patterns : ℕ
  pub patterns : Dict ExecutionPattern
  pub stability : StabilityStatus
  pub last_new_pattern : ℕ

-- encoding/json on snapshots.
pub record Codec : Type 1 where
  pub Bytes : Type 0
  pub marshal : BaselineSnapshot → Bytes
  pub unmarshal : Bytes → Option BaselineSnapshot

-- `disk` is the snapshot directory, if it exists; `gauge` is the metric DiscoveryStabilityGauge.
pub record BaselineStore (Bytes : Type 0) : Type 0 where
  pub disk : Option (Dict (Node Bytes))
  pub snapshot_interval : ℤ
  pub stability_threshold : ℤ
  pub max_snapshots : ℤ
  pub last_status : StabilityStatus
  pub gauge : StabilityStatus

abbrev pub new_baseline_store :
    {Bytes : Type 0} → Option (Dict (Node Bytes)) → ℤ → ℤ → BaselineStore Bytes
new_baseline_store disk interval threshold = record {
  disk = disk;
  snapshot_interval = if leb_ℤ interval (pos 0) then pos hour else interval;
  stability_threshold = if leb_ℤ threshold (pos 0) then pos (4 * hour) else threshold;
  max_snapshots = pos 24;
  last_status = learning;
  gauge = learning;
}

-- time.Since: a Duration, which stops at its largest value.
unfoldable pub since : ℕ → ℕ → ℤ
since now t = let d = sub_ℕ now t in if ltb_ℤ (pos int64_max) d then pos int64_max else d

-- Go's division by two of a Duration, towards zero.
abbrev pub half : ℤ → ℤ
half (pos n) = pos (n / 2)
half (negsuc n) = sub_ℕ 0 (suc n / 2)

abbrev pub shorter : ℤ → ℤ → ℤ
shorter active last = if ltb_ℤ active last then active else last

-- The shorter of the time since the last new pattern and the time that this process has been running.
unfoldable pub quiet_time : BehaviorTracker → ℕ → ℤ
unfolding since
quiet_time bt now = shorter (since now bt.session_started) (since now bt.last_new_pattern)

unfoldable pub grade : ℤ → ℤ → StabilityStatus
grade threshold quiet =
    if leb_ℤ threshold quiet
    then stable
    else if leb_ℤ (half threshold) quiet
    then stabilizing
    else learning

-- `GetStabilityStatus`, less the metric.
unfoldable pub stability : ℤ → BehaviorTracker → ℕ → StabilityStatus
unfolding quiet_time grade
stability threshold bt now =
    if unique_pattern_count bt == 0 then learning else grade threshold (quiet_time bt now)

module _ (c : Codec) (times : TimeText) where
  -- A snapshot of the tracker.
  abbrev pub snapshot : BaselineStore c.Bytes → BehaviorTracker → ℕ → BaselineSnapshot
  snapshot bs bt now = record {
    timestamp = now;
    learning_start = bt.started;
    total_events = bt.total_events;
    unique_patterns = unique_pattern_count bt;
    patterns = bt.patterns;
    stability = stability bs.stability_threshold bt now;
    last_new_pattern = bt.last_new_pattern;
  }

  abbrev pub entries : Option (Dict (Node c.Bytes)) → Dict (Node c.Bytes)
  entries none = []
  entries (some dir) = dir

  abbrev pub max_keep : ℤ → ℕ
  max_keep n = if leb_ℤ n (pos 0) then 24 else pos_part n

  -- The copy under the latest name, whose error is ignored, and the pruning, whose error is logged.
  abbrev pub complete : Io c.Bytes → ℕ → c.Bytes → ℕ → Dict (Node c.Bytes) → Dict (Node c.Bytes)
  complete io keep bytes nano dir =
      let (copied, ok) =
        write_file_atomic dir (temp_name latest_name nano) latest_name bytes io.write_latest in
      if io.list_ok then prune_snapshots times io.removes copied keep else copied

  abbrev pub saved :
      Io c.Bytes
      → BaselineStore c.Bytes
      → c.Bytes
      → ℕ
      → Dict (Node c.Bytes) × Bool
      → BaselineStore c.Bytes × Bool
  saved io bs bytes nano (dir, false) = (record bs { disk = some dir }, false)
  saved io bs bytes nano (dir, true) =
      (record bs { disk = some (complete io (max_keep bs.max_snapshots) bytes nano dir) }, true)

  -- `SaveSnapshot`, and whether there was no error; `nano` and `nano'` are the clock in the names of the
  -- temporary files.
  unfoldable pub save_snapshot :
      Io c.Bytes
      → BaselineStore c.Bytes
      → BehaviorTracker
      → ℕ
      → ℕ
      → ℕ
      → BaselineStore c.Bytes × Bool
  unfolding write_file_atomic prune_snapshots stability
  save_snapshot io bs bt now nano nano' =
      let bytes = c.marshal (snapshot bs bt now) in
      let name = snapshot_name times now in
      if not io.mkdir_ok
      then (bs, false)
      else saved io (record bs { gauge = stability bs.stability_threshold bt now }) bytes nano'
          (write_file_atomic (entries bs.disk) (temp_name name nano) name bytes io.write)

  -- A tick of the loop of `Run`: the status is noted and a snapshot saved, whose error is logged.
  unfoldable pub tick :
      Io c.Bytes → BaselineStore c.Bytes → BehaviorTracker → ℕ → ℕ → ℕ → BaselineStore c.Bytes
  unfolding stability save_snapshot
  tick io bs bt now nano nano' =
      let status = stability bs.stability_threshold bt now in
      (save_snapshot io (record bs { gauge = status; last_status = status }) bt now nano nano').0
