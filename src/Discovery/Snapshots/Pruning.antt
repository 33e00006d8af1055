-- ===== src/Discovery/Snapshots/Pruning.antt =====
-- Which snapshots a pruning leaves (pkg/discovery/baseline.go, `pruneSnapshotsLocked`).
use ztre.Base.{
  ℕ, ◌-◌, ◌==◌, ◌++◌, drop, take-drop, length-drop, leb, GoString, text_eq, text_eq_iff, Bool, true,
  false, ◌&&◌, ◌||◌, Option, none, List, [], ◌∷◌, length, take, ◌≡◌, refl, arith, if◌then◌else◌,
  All, if_cases, if_both, Bool-cases, inl, inr, sym, ap, ◌∙◌, zero, suc,
}
use ztre.Base.Dict
use ztre.Base.Dict.{Dict}
use ztre.Base.Sorting.{IsSorted, sort_texts-IsSorted, All-sort_texts}
use ztre.Discovery.Snapshots.{
  TimeText, Node, is_file, snapshot_names, list_snapshots, remove_files, old_names, prune_snapshots,
}

abbrev pub one_of : List GoString → GoString → Bool
one_of [] k = false
one_of (s ∷ rest) k = text_eq s k || one_of rest k

get-remove_files :
    {Bytes : Type 0} (removes : GoString → Bool) (dir : Dict (Node Bytes)) (names : List GoString)
    (k : GoString)
    → Dict.get (remove_files removes dir names) k
      ≡ (if removes k && one_of names k then none else Dict.get dir k)
unfolding remove_files
get-remove_files removes dir [] k = ground arith
get-remove_files removes dir (s ∷ rest) k = ground (
  arith,
  text_eq_iff s k,
  Dict.get-remove dir s k,
  get-remove_files removes (if removes s then Dict.remove dir s else dir) rest k,
)

pub snapshot_names-parse :
    {Bytes : Type 0} (times : TimeText) (dir : Dict (Node Bytes))
    → All (λ s. times.parses s ≡ true) (snapshot_names times dir)
unfolding snapshot_names
snapshot_names-parse times [] = tt
snapshot_names-parse times ((name, node) ∷ dir) =
    if_cases (All (λ s. times.parses s ≡ true)) (is_file node && times.parses name)
      (λ both. (ground arith, snapshot_names-parse times dir)) (λ _. snapshot_names-parse times dir)

one_of-All :
    (p : GoString → Bool) (names : List GoString) (k : GoString)
    → All (λ s. p s ≡ true) names
    → p k ≡ false
    → one_of names k ≡ false
one_of-All p [] k h q = refl
one_of-All p (s ∷ rest) k h q = elim (Bool-cases (text_eq s k)) [
  | inl same ↦
      let e : s ≡ k = (text_eq_iff s k).0 same in
      let both : true ≡ p k = sym h.0 ∙ ap p e in cc (both ∙ q)
  | inr other ↦ rw other (one_of-All p rest k h.1 q)
]

All-take {κ} :
    (P : GoString → Type κ) (n : ℕ) (names : List GoString) → All P names → All P (take n names)
All-take P zero names h = tt
All-take P (suc n) [] h = tt
All-take P (suc n) (s ∷ rest) h = (h.0, All-take P n rest h.1)

-- The pruning by the names that it takes away.
pub get-prune_snapshots :
    {Bytes : Type 0} (times : TimeText) (removes : GoString → Bool) (dir : Dict (Node Bytes))
    (keep : ℕ) (name : GoString)
    → Dict.get (prune_snapshots times removes dir keep) name ≡ (
        if removes name && one_of (old_names keep (list_snapshots times dir)) name
        then none
        else Dict.get dir name)
unfolding prune_snapshots list_snapshots
get-prune_snapshots times removes dir keep name =
    get-remove_files removes dir (old_names keep (list_snapshots times dir)) name

-- The list falls into the names that are taken away and as many of the last as are kept.
old_names_split :
    (keep : ℕ) (names : List GoString)
    → (newest : List GoString) × (names ≡ old_names keep names ++ newest)
      × (length newest ≡ (if keep == 0 || leb (length names) keep then length names else keep))
old_names_split keep names = elim (Bool-cases (keep == 0 || leb (length names) keep)) [
  | inl all ↦ (names, rw all refl, rw all refl)
  | inr more ↦
      let n = length names - keep in
      (
        drop n names,
        rw more (sym (take-drop n names)),
        rw more (ground (arith, length-drop n names, more)),
      )
]

-- A pruning lists the snapshots in the order of their names. The list falls into the older and the newer ones,
-- where the newer are `keep` if there are more snapshots than that, and all of them otherwise, also for a `keep` of
-- zero. The older ones are taken away, as far as the removals work; what every other name holds stays.
pub prune_snapshots_exact :
    (Bytes : Type 0) (times : TimeText) (removes : GoString → Bool) (dir : Dict (Node Bytes))
    (keep : ℕ) (name : GoString)
    → let names = list_snapshots times dir in
      (older : List GoString) × (newer : List GoString) × IsSorted names
      × (names ≡ older ++ newer)
      × (length newer ≡ (if keep == 0 || leb (length names) keep then length names else keep))
      × (Dict.get (prune_snapshots times removes dir keep) name
          ≡ (if removes name && one_of older name then none else Dict.get dir name))
unfolding list_snapshots
prune_snapshots_exact Bytes times removes dir keep name =
    let names = list_snapshots times dir in
    let (newest, split, count) = old_names_split keep names in
    (
      old_names keep names,
      newest,
      sort_texts-IsSorted (snapshot_names times dir),
      split,
      count,
      get-prune_snapshots times removes dir keep name,
    )

not_listed : {A : Type 0} (b m : Bool) (x y : Option A) → m ≡ false → (if b && m then x else y) ≡ y
not_listed true m x y h = rw h refl
not_listed false m x y h = refl

-- A file whose name is no snapshot's is never pruned.
pub prune_snapshots_other :
    {Bytes : Type 0} (times : TimeText) (removes : GoString → Bool) (dir : Dict (Node Bytes))
    (keep : ℕ) (name : GoString)
    → times.parses name ≡ false
    → Dict.get (prune_snapshots times removes dir keep) name ≡ Dict.get dir name
unfolding list_snapshots
prune_snapshots_other {Bytes} times removes dir keep name other =
    let names = list_snapshots times dir in
    let parsed : All (λ s. times.parses s ≡ true) (old_names keep names) =
      if_both (All (λ s. times.parses s ≡ true)) (keep == 0 || leb (length names) keep) tt (
        All-take (λ s. times.parses s ≡ true) (length names - keep) names
          (All-sort_texts (λ s. times.parses s ≡ true) (snapshot_names times dir)
            (snapshot_names-parse times dir))) in
    get-prune_snapshots times removes dir keep name
    ∙ not_listed (removes name) (one_of (old_names keep names) name) none (Dict.get dir name)
        (one_of-All times.parses (old_names keep names) name parsed other)
