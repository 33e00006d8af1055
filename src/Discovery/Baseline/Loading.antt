-- ===== src/Discovery/Baseline/Loading.antt =====
-- pkg/discovery/baseline.go: `LoadLatestSnapshot`, with the fall-back to older snapshots.
use ztre.Base.{
  ℕ, GoString, Bool, true, false, Option, none, some, List, [], ◌∷◌, reverse, if◌then◌else◌,
}
use ztre.Base.Dict
use ztre.Base.Dict.{Dict}
use ztre.Files.{FileRead, not_exist, unreadable, malformed, decoded}
use ztre.Discovery.Tracker.{BehaviorTracker, load_patterns}
use ztre.Discovery.Snapshots.{
  TimeText, Node, folder, locked, file, Io, latest_name, temp_name, write_file_atomic,
  list_snapshots,
}
use ztre.Discovery.Baseline.{BaselineSnapshot, BaselineStore, Codec, entries, stability}

abbrev pub decode : Option BaselineSnapshot → FileRead BaselineSnapshot
decode none = malformed
decode (some snap) = decoded snap

-- A file without a snapshot is skipped.
abbrev pub or_older : FileRead BaselineSnapshot → Option BaselineSnapshot → Option BaselineSnapshot
or_older not_exist older = older
or_older unreadable older = older
or_older malformed older = older
or_older (decoded snap) older = some snap

module _ (c : Codec) (times : TimeText) where
  abbrev pub read_bytes : Option (Node c.Bytes) → FileRead BaselineSnapshot
  read_bytes none = not_exist
  read_bytes (some folder) = unreadable
  read_bytes (some locked) = unreadable
  read_bytes (some (file b)) = decode (c.unmarshal b)

  -- os.ReadFile and json.Unmarshal.
  unfoldable pub read_snapshot : Dict (Node c.Bytes) → GoString → FileRead BaselineSnapshot
  read_snapshot dir name = read_bytes (Dict.get dir name)

  -- The first of the names that holds a snapshot.
  unfoldable pub first_valid : Dict (Node c.Bytes) → List GoString → Option BaselineSnapshot
  unfolding read_snapshot
  first_valid dir [] = none
  first_valid dir (name ∷ names) = or_older (read_snapshot dir name) (first_valid dir names)

  -- `loadNewestValidSnapshotLocked`; none is one of its errors.
  unfoldable pub load_newest_valid : Io c.Bytes → Dict (Node c.Bytes) → Option BaselineSnapshot
  unfolding first_valid list_snapshots
  load_newest_valid io dir =
      if io.list_ok then first_valid dir (reverse (list_snapshots times dir)) else none

  -- The tracker and the store after a snapshot is restored.
  abbrev pub restore :
      BaselineStore c.Bytes
      → BehaviorTracker
      → BaselineSnapshot
      → ℕ
      → BaselineStore c.Bytes × BehaviorTracker
  restore bs bt snap now =
      let bt' : BehaviorTracker =
        load_patterns bt snap.patterns snap.total_events snap.last_new_pattern
          snap.learning_start in
      let status = stability bs.stability_threshold bt' now in
      (record bs { last_status = status; gauge = status }, bt')

  -- After a missing latest file: a fresh start if there is no snapshot either.
  abbrev pub fall_back :
      BaselineStore c.Bytes
      → BehaviorTracker
      → Option BaselineSnapshot
      → ℕ
      → (BaselineStore c.Bytes × BehaviorTracker) × Bool
  fall_back bs bt none now = ((bs, bt), true)
  fall_back bs bt (some snap) now = (restore bs bt snap now, true)

  -- After a latest file that is corrupt or unreadable: it is written again from the newest snapshot.
  abbrev pub heal :
      Io c.Bytes
      → BaselineStore c.Bytes
      → BehaviorTracker
      → Option BaselineSnapshot
      → ℕ
      → ℕ
      → (BaselineStore c.Bytes × BehaviorTracker) × Bool
  heal io bs bt none now nano = ((bs, bt), false)
  heal io bs bt (some snap) now nano =
      let (dir, ok) =
        write_file_atomic (entries c times bs.disk) (temp_name latest_name nano) latest_name
          (c.marshal snap) io.write_latest in
      (restore (record bs { disk = some dir }) bt snap now, true)

  abbrev pub load_from :
      Io c.Bytes
      → BaselineStore c.Bytes
      → BehaviorTracker
      → FileRead BaselineSnapshot
      → Option BaselineSnapshot
      → ℕ
      → ℕ
      → (BaselineStore c.Bytes × BehaviorTracker) × Bool
  load_from io bs bt not_exist newest now nano = fall_back bs bt newest now
  load_from io bs bt unreadable newest now nano = heal io bs bt newest now nano
  load_from io bs bt malformed newest now nano = heal io bs bt newest now nano
  load_from io bs bt (decoded snap) newest now nano = (restore bs bt snap now, true)

  -- `LoadLatestSnapshot`: the store and the tracker afterwards, and whether there was no error.
  unfoldable pub load_latest_snapshot :
      Io c.Bytes
      → BaselineStore c.Bytes
      → BehaviorTracker
      → ℕ
      → ℕ
      → (BaselineStore c.Bytes × BehaviorTracker) × Bool
  unfolding read_snapshot load_newest_valid write_file_atomic stability
  load_latest_snapshot io bs bt now nano =
      load_from io bs bt (read_snapshot (entries c times bs.disk) latest_name)
        (load_newest_valid io (entries c times bs.disk)) now nano
