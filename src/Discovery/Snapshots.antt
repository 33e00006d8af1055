-- ===== src/Discovery/Snapshots.antt =====
-- The files of the snapshot directory: the atomic write of pkg/discovery/atomic.go, and the listing and
-- the pruning of pkg/discovery/baseline.go.
pub mod Atomic
pub mod Pruning
mod Examples
use ztre.Base.{
  ℕ, ◌-◌, ◌==◌, leb, GoString, lit, Bool, true, false, ◌&&◌, ◌||◌, List, [], ◌∷◌, ◌++◌, length,
  take, if◌then◌else◌,
}
use ztre.Base.Dict
use ztre.Base.Dict.{Dict}
use ztre.Base.Decimal.{digits}
use ztre.Base.Sorting.{sort_texts}

-- The time library: the time in a file's name, and whether a name parses with the layout of one.
pub record TimeText : Type 0 where
  pub format : ℕ → GoString
  pub parses : GoString → Bool

-- What stands under a name of the snapshot directory.
pub data Node (Bytes : Type 0) : Type 0 where
  folder locked : Node Bytes
  file : Bytes → Node Bytes

-- How `writeFileAtomic` ends: without a temporary file, with a part of one, without the rename (and whether
-- os.Remove, whose error is ignored, takes the temporary file away), or well.
pub data Write (Bytes : Type 0) : Type 0 where
  no_temp : Write Bytes
  partial_temp : Bytes → Write Bytes
  no_rename : Bool → Write Bytes
  written : Write Bytes

-- What the operating system does in one call of the store.
pub record Io (Bytes : Type 0) : Type 0 where
  pub mkdir_ok : Bool
  pub write : Write Bytes
  pub write_latest : Write Bytes
  pub list_ok : Bool
  pub removes : GoString → Bool

abbrev pub latest_name : GoString
latest_name = lit "baseline_latest.json"

abbrev pub snapshot_name : TimeText → ℕ → GoString
snapshot_name times now = lit "baseline_" ++ (times.format now ++ lit ".json")

-- fmt.Sprintf("%s.tmp.%d", path, nanoseconds); the count is an int64.
unfoldable pub temp_name : GoString → ℕ → GoString
unfolding digits
temp_name path nano = path ++ (lit ".tmp." ++ digits 19 nano [])

-- The directory afterwards, and whether there was no error.
unfoldable pub write_file_atomic :
    {Bytes : Type 0}
    → Dict (Node Bytes)
    → GoString
    → GoString
    → Bytes
    → Write Bytes
    → Dict (Node Bytes) × Bool
write_file_atomic dir temp path bytes no_temp = (dir, false)
write_file_atomic dir temp path bytes (partial_temp part) = (Dict.put dir temp (file part), false)
write_file_atomic dir temp path bytes (no_rename false) = (Dict.put dir temp (file bytes), false)
write_file_atomic dir temp path bytes (no_rename true) =
    (Dict.remove (Dict.put dir temp (file bytes)) temp, false)
write_file_atomic dir temp path bytes written =
    (Dict.put (Dict.remove (Dict.put dir temp (file bytes)) temp) path (file bytes), true)

abbrev pub is_file : {Bytes : Type 0} → Node Bytes → Bool
is_file folder = false
is_file locked = true
is_file (file b) = true

unfoldable pub snapshot_names : {Bytes : Type 0} → TimeText → Dict (Node Bytes) → List GoString
snapshot_names times [] = []
snapshot_names times ((name, node) ∷ dir) =
    let rest = snapshot_names times dir in
    if is_file node && times.parses name then name ∷ rest else rest

unfoldable pub list_snapshots : {Bytes : Type 0} → TimeText → Dict (Node Bytes) → List GoString
unfolding snapshot_names
list_snapshots times dir = sort_texts (snapshot_names times dir)

unfoldable pub remove_files :
    {Bytes : Type 0} → (GoString → Bool) → Dict (Node Bytes) → List GoString → Dict (Node Bytes)
remove_files removes dir [] = dir
remove_files removes dir (name ∷ names) =
    remove_files removes (if removes name then Dict.remove dir name else dir) names

-- The names that `pruneSnapshotsLocked` removes: all but the last `keep`, and none for a `keep` of zero.
abbrev pub old_names : ℕ → List GoString → List GoString
old_names keep names =
    if keep == 0 || leb (length names) keep then [] else take (length names - keep) names

unfoldable pub prune_snapshots :
    {Bytes : Type 0} → TimeText → (GoString → Bool) → Dict (Node Bytes) → ℕ → Dict (Node Bytes)
unfolding list_snapshots remove_files
prune_snapshots times removes dir keep =
    remove_files removes dir (old_names keep (list_snapshots times dir))
