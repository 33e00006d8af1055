-- ===== src/Discovery/Baseline/Restoring.antt =====
-- What a restart finds of a saved baseline (pkg/discovery/baseline.go).
use ztre.Base.{
  ℕ, GoString, text_eq, Bool, true, false, Option, some, ◌≡◌, refl, ap, ◌∙◌, if◌then◌else◌, not,
  if_both,
}
use ztre.Base.Dict
use ztre.Base.Dict.{Dict}
use ztre.Files.{FileRead, decoded}
use ztre.Discovery.Tracker.{BehaviorTracker, load_patterns}
use ztre.Discovery.Snapshots.{
  TimeText, Node, file, Write, written, Io, latest_name, snapshot_name, temp_name,
  write_file_atomic,
}
use ztre.Discovery.Snapshots.Atomic.{temp_name_differs, get-write_file_atomic}
use ztre.Discovery.Snapshots.Pruning.{prune_snapshots_other}
use ztre.Discovery.Baseline.{
  BaselineSnapshot, BaselineStore, Codec, snapshot, stability, entries, max_keep, complete, saved,
  save_snapshot,
}
use ztre.Discovery.Baseline.Loading.{
  decode, read_snapshot, load_newest_valid, restore, load_from, load_latest_snapshot,
}

-- encoding/json reads back what it wrote.
pub record IsCodec (c : Codec) : Type 0 where
  pub round_trip : (s : BaselineSnapshot) → c.unmarshal (c.marshal s) ≡ some s

module _ (c : Codec) (times : TimeText) where
  -- A written file reads as the snapshot that was encoded.
  pub read_written :
      (dir : Dict (Node c.Bytes)) (nano : ℕ) (bytes : c.Bytes) (w : Write c.Bytes)
      → w ≡ written
      → Dict.get
          (write_file_atomic dir (temp_name latest_name nano) latest_name bytes w).0
          latest_name
        ≡ some (file bytes)
  read_written dir nano bytes w h = rw h (
      get-write_file_atomic c.Bytes dir latest_name nano bytes written latest_name
        (temp_name_differs latest_name nano)
      ∙ unfold write_file_atomic text_eq in refl)

  pub read_marshal :
      IsCodec c
      → (dir : Dict (Node c.Bytes)) (snap : BaselineSnapshot)
      → Dict.get dir latest_name ≡ some (file (c.marshal snap))
      → read_snapshot c times dir latest_name ≡ decoded snap
  unfolding read_snapshot
  read_marshal laws dir snap h = rw h (ap decode (laws.round_trip snap))

  get-complete :
      (io : Io c.Bytes) (keep nano : ℕ) (bytes : c.Bytes) (dir : Dict (Node c.Bytes))
      → times.parses latest_name ≡ false
      → io.write_latest ≡ written
      → Dict.get (complete c times io keep bytes nano dir) latest_name ≡ some (file bytes)
  get-complete io keep nano bytes dir other ok =
      let copied =
        write_file_atomic dir (temp_name latest_name nano) latest_name bytes io.write_latest in
      let read = read_written dir nano bytes io.write_latest ok in
      if_both (λ d. Dict.get d latest_name ≡ some (file bytes)) io.list_ok
        (prune_snapshots_other times io.removes copied.0 keep latest_name other ∙ read) read

  wrote :
      (dir : Dict (Node c.Bytes)) (temp path : GoString) (bytes : c.Bytes) (w : Write c.Bytes)
      → w ≡ written
      → (write_file_atomic dir temp path bytes w).1 ≡ true
  unfolding write_file_atomic
  wrote dir temp path bytes w h = rw h refl

  saved_written :
      (io : Io c.Bytes) (bs : BaselineStore c.Bytes) (bytes : c.Bytes) (nano : ℕ)
      (r : Dict (Node c.Bytes) × Bool)
      → r.1 ≡ true
      → (saved c times io bs bytes nano r).0.disk
        ≡ some (complete c times io (max_keep c times bs.max_snapshots) bytes nano r.0)
  saved_written io bs bytes nano (dir, true) h = refl
  saved_written io bs bytes nano (dir, false) h = cc

  guard_open : {A : Type 0} (b : Bool) (x y : A) → b ≡ true → (if not b then x else y) ≡ y
  guard_open b x y h = rw h refl

  save_snapshot-disk :
      (io : Io c.Bytes) (bs : BaselineStore c.Bytes) (bt : BehaviorTracker) (now nano nano' : ℕ)
      → io.mkdir_ok ≡ true
      → io.write ≡ written
      → let bytes = c.marshal (snapshot c times bs bt now) in
        let name = snapshot_name times now in
        (save_snapshot c times io bs bt now nano nano').0.disk
        ≡ some (
            complete c times io
              (max_keep c times bs.max_snapshots)
              bytes
              nano'
              (write_file_atomic
                (entries c times bs.disk)
                (temp_name name nano)
                name
                bytes
                io.write).0)
  unfolding save_snapshot
  save_snapshot-disk io bs bt now nano nano' made w =
      let bytes = c.marshal (snapshot c times bs bt now) in
      let name = snapshot_name times now in
      let first =
        write_file_atomic (entries c times bs.disk) (temp_name name nano) name bytes io.write in
      let bs1 : BaselineStore c.Bytes = record bs {
        gauge = stability bs.stability_threshold bt now;
      } in
      let opened : save_snapshot c times io bs bt now nano nano'
          ≡ saved c times io bs1 bytes nano' first =
        guard_open io.mkdir_ok (bs, false) (saved c times io bs1 bytes nano' first) made in
      ap (λ r. r.0.disk) opened
      ∙ saved_written io bs1 bytes nano' first
          (wrote (entries c times bs.disk) (temp_name name nano) name bytes io.write w)

  save_snapshot-latest :
      IsCodec c
      → (io : Io c.Bytes) (bs : BaselineStore c.Bytes) (bt : BehaviorTracker) (now nano nano' : ℕ)
      → times.parses latest_name ≡ false
      → io.mkdir_ok ≡ true
      → io.write ≡ written
      → io.write_latest ≡ written
      → read_snapshot c times
          (entries c times (save_snapshot c times io bs bt now nano nano').0.disk)
          latest_name
        ≡ decoded (snapshot c times bs bt now)
  save_snapshot-latest laws io bs bt now nano nano' other made w l =
      let snap = snapshot c times bs bt now in
      let name = snapshot_name times now in
      let bytes = c.marshal snap in
      let first =
        write_file_atomic (entries c times bs.disk) (temp_name name nano) name bytes io.write in
      read_marshal laws (entries c times (save_snapshot c times io bs bt now nano nano').0.disk)
        snap
        (ap (λ d. Dict.get (entries c times d) latest_name)
            (save_snapshot-disk io bs bt now nano nano' made w)
          ∙ get-complete io (max_keep c times bs.max_snapshots) nano' bytes first.0 other l)

  load_decoded :
      (io : Io c.Bytes) (bs : BaselineStore c.Bytes) (bt : BehaviorTracker)
      (r : FileRead BaselineSnapshot) (newest : Option BaselineSnapshot) (now nano : ℕ)
      (snap : BaselineSnapshot)
      → r ≡ decoded snap
      → load_from c times io bs bt r newest now nano ≡ (restore c times bs bt snap now, true)
  load_decoded io bs bt r newest now nano snap h = rw h refl

  pub load_latest_snapshot-save_snapshot :
      IsCodec c
      → (io io' : Io c.Bytes) (bs : BaselineStore c.Bytes) (bt fresh : BehaviorTracker)
        (now nano nano' later nano'' : ℕ)
      → times.parses latest_name ≡ false
      → io.mkdir_ok ≡ true
      → io.write ≡ written
      → io.write_latest ≡ written
      → let bs' = (save_snapshot c times io bs bt now nano nano').0 in
        let (found, ok) = load_latest_snapshot c times io' bs' fresh later nano'' in
        (found.1 ≡ load_patterns fresh bt.patterns bt.total_events bt.last_new_pattern bt.started)
        × (ok ≡ true)
  unfolding load_latest_snapshot
  load_latest_snapshot-save_snapshot laws io io' bs bt fresh now nano nano' later nano'' other made
        w l =
      let bs' = (save_snapshot c times io bs bt now nano nano').0 in
      let latest = save_snapshot-latest laws io bs bt now nano nano' other made w l in
      let whole =
        load_decoded io' bs' fresh (read_snapshot c times (entries c times bs'.disk) latest_name)
          (load_newest_valid c times io' (entries c times bs'.disk)) later nano''
          (snapshot c times bs bt now) latest in
      (ap (λ r. r.0.1) whole, ap (λ r. r.1) whole)
