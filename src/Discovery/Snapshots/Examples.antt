-- ===== src/Discovery/Snapshots/Examples.antt =====
-- Runs on a small directory, and instances of the theorems (pkg/discovery/atomic.go, baseline.go).
use ztre.Base.{
  ℕ, lit, text_eq, text_lt, true, none, some, List, [], ◌∷◌, ◌++◌, GoString, length, ◌≡◌, refl,
  if◌then◌else◌, has_prefix,
}
use ztre.Base.Dict
use ztre.Base.Dict.{Dict}
use ztre.Base.Sorting.{IsSorted, sort_texts, insert}
use ztre.Discovery.Snapshots.{
  TimeText, Node, folder, file, partial_temp, latest_name, temp_name, write_file_atomic,
  list_snapshots, snapshot_names, prune_snapshots, remove_files,
}
use ztre.Discovery.Snapshots.Atomic.{write_file_atomic_exact}
use ztre.Discovery.Snapshots.Pruning.{one_of, prune_snapshots_exact}

-- Names that parse begin with "baseline_2".
abbrev times : TimeText
times = record { format = λ _. lit "20260101_000000"; parses = has_prefix (lit "baseline_2") }

abbrev dir : Dict (Node ℕ)
dir =
    (lit "baseline_22.json", file 2)
    ∷ (latest_name, file 3)
    ∷ (lit "baseline_23.json", file 3)
    ∷ (lit "baseline_20.json", folder)
    ∷ (lit "baseline_21.json", file 1)
    ∷ []

listed :
    list_snapshots times dir
    ≡ lit "baseline_21.json" ∷ lit "baseline_22.json" ∷ lit "baseline_23.json" ∷ []
unfolding list_snapshots snapshot_names sort_texts insert has_prefix text_lt
listed = refl

newest_kept :
    list_snapshots times (prune_snapshots times (λ _. true) dir 2)
    ≡ lit "baseline_22.json" ∷ lit "baseline_23.json" ∷ []
unfolding list_snapshots prune_snapshots snapshot_names sort_texts insert has_prefix text_lt
    remove_files Dict.remove
newest_kept = refl

-- Of three snapshots two are kept.
prune_snapshots_exact_example :
    let names = list_snapshots times dir in
    (older : List GoString) × (newer : List GoString) × IsSorted names
    × (names ≡ older ++ newer)
    × (length newer ≡ 2)
    × (Dict.get (prune_snapshots times (λ _. true) dir 2) (lit "baseline_21.json") ≡ (
        if one_of older (lit "baseline_21.json")
        then none
        else Dict.get dir (lit "baseline_21.json")))
unfolding list_snapshots snapshot_names sort_texts insert has_prefix text_lt
prune_snapshots_exact_example =
    prune_snapshots_exact ℕ times (λ _. true) dir 2 (lit "baseline_21.json")

-- A write that breaks off leaves the old latest file, and a part of the new one under the temporary name.
write_file_atomic_exact_example :
    let after =
      (write_file_atomic dir (temp_name latest_name 7) latest_name 4 (partial_temp 0)).0 in
    (Dict.get after latest_name ≡ Dict.get dir latest_name)
    × (Dict.get after (temp_name latest_name 7) ≡ some (file 0))
unfolding write_file_atomic temp_name text_eq
write_file_atomic_exact_example =
    write_file_atomic_exact ℕ dir latest_name 7 4 (partial_temp 0) latest_name refl
