-- ===== src/Discovery/Baseline/Fresh.antt =====
-- What the tracker is after `LoadLatestSnapshot` (pkg/discovery/baseline.go).
use ztre.Base.{ℕ, Option, none, some, ◌≡◌, refl, ap, ◌∙◌}
use ztre.Base.Dict.Keys.{IsMap}
use ztre.Files.{FileRead, not_exist, unreadable, malformed, decoded}
use ztre.Discovery.Tracker.{BehaviorTracker}
use ztre.Discovery.Tracker.Restored.{load_patterns-IsMap}
use ztre.Discovery.Snapshots.{TimeText, Io, latest_name}
use ztre.Discovery.Baseline.{BaselineSnapshot, BaselineStore, Codec, entries}
use ztre.Discovery.Baseline.Loading.{
  read_snapshot, load_newest_valid, load_from, load_latest_snapshot,
}

module _ (c : Codec) (times : TimeText) where
  tracker_of_reads :
      (io : Io c.Bytes) (bs0 bs : BaselineStore c.Bytes) (bt : BehaviorTracker)
      (r : FileRead BaselineSnapshot) (newest : Option BaselineSnapshot) (now now' nano nano' : ℕ)
      → (load_from c times io bs0 bt r newest now nano).0.1
        ≡ (load_from c times io bs bt r newest now' nano').0.1
  tracker_of_reads io bs0 bs bt not_exist none now now' nano nano' = refl
  tracker_of_reads io bs0 bs bt not_exist (some s) now now' nano nano' = refl
  tracker_of_reads io bs0 bs bt unreadable none now now' nano nano' = refl
  tracker_of_reads io bs0 bs bt unreadable (some s) now now' nano nano' = refl
  tracker_of_reads io bs0 bs bt malformed none now now' nano nano' = refl
  tracker_of_reads io bs0 bs bt malformed (some s) now now' nano nano' = refl
  tracker_of_reads io bs0 bs bt (decoded s) newest now now' nano nano' = refl

  -- Of the store the tracker depends on the directory only, and on neither the clock nor the file names.
  pub load_latest_snapshot_of_disk :
      (io : Io c.Bytes) (bs0 bs : BaselineStore c.Bytes) (bt : BehaviorTracker)
      (now now' nano nano' : ℕ)
      → bs0.disk ≡ bs.disk
      → (load_latest_snapshot c times io bs0 bt now nano).0.1
        ≡ (load_latest_snapshot c times io bs bt now' nano').0.1
  unfolding load_latest_snapshot
  load_latest_snapshot_of_disk io bs0 bs bt now now' nano nano' h =
      tracker_of_reads io bs0 bs bt (read_snapshot c times (entries c times bs0.disk) latest_name)
        (load_newest_valid c times io (entries c times bs0.disk)) now now' nano nano'
      ∙ ap
          (λ disk.
            (load_from c times io bs bt (read_snapshot c times (entries c times disk) latest_name)
              (load_newest_valid c times io (entries c times disk)) now' nano').0.1)
          h

  load_from-IsMap :
      (io : Io c.Bytes) (bs : BaselineStore c.Bytes) (bt : BehaviorTracker)
      (r : FileRead BaselineSnapshot) (newest : Option BaselineSnapshot) (now nano : ℕ)
      → IsMap bt.patterns
      → IsMap (load_from c times io bs bt r newest now nano).0.1.patterns
  load_from-IsMap io bs bt not_exist none now nano h = h
  load_from-IsMap io bs bt unreadable none now nano h = h
  load_from-IsMap io bs bt malformed none now nano h = h
  load_from-IsMap io bs bt not_exist (some s) now nano h =
      load_patterns-IsMap bt s.patterns s.total_events s.last_new_pattern s.learning_start h
  load_from-IsMap io bs bt unreadable (some s) now nano h =
      load_patterns-IsMap bt s.patterns s.total_events s.last_new_pattern s.learning_start h
  load_from-IsMap io bs bt malformed (some s) now nano h =
      load_patterns-IsMap bt s.patterns s.total_events s.last_new_pattern s.learning_start h
  load_from-IsMap io bs bt (decoded s) newest now nano h =
      load_patterns-IsMap bt s.patterns s.total_events s.last_new_pattern s.learning_start h

  -- A tracker that is restored keeps every key once.
  pub load_latest_snapshot-IsMap :
      (io : Io c.Bytes) (bs : BaselineStore c.Bytes) (bt : BehaviorTracker) (now nano : ℕ)
      → IsMap bt.patterns
      → IsMap (load_latest_snapshot c times io bs bt now nano).0.1.patterns
  unfolding load_latest_snapshot
  load_latest_snapshot-IsMap io bs bt now nano h =
      load_from-IsMap io bs bt (read_snapshot c times (entries c times bs.disk) latest_name)
        (load_newest_valid c times io (entries c times bs.disk)) now nano h
