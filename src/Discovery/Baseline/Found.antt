-- ===== src/Discovery/Baseline/Found.antt =====
-- Which baseline a load finds (pkg/discovery/baseline.go, `LoadLatestSnapshot`).
use ztre.Base.{
  ℕ, GoString, true, ◌||◌, Option, none, some, List, [], ◌∷◌, reverse, ◌≡◌, refl, arith, All,
  All-reverse, Bool-cases, ◌⊎◌, ◌≢◌, ap, text_eq_refl, inl, inr,
}
use ztre.Base.Dict.{Dict}
use ztre.Base.Sorting.{All-sort_texts}
use ztre.Files.{FileRead, not_exist, unreadable, malformed, decoded}
use ztre.Discovery.Tracker.{BehaviorTracker, load_patterns}
use ztre.Discovery.Snapshots.{TimeText, Node, Io, latest_name, list_snapshots, snapshot_names}
use ztre.Discovery.Snapshots.Pruning.{snapshot_names-parse}
use ztre.Discovery.Baseline.{BaselineSnapshot, BaselineStore, Codec, entries}
use ztre.Discovery.Baseline.Loading.{
  or_older, read_snapshot, first_valid, load_newest_valid, load_from, load_latest_snapshot,
}
use ztre.Discovery.Baseline.Readable.{AllReadable}

module _ (c : Codec) (times : TimeText) where
  find_in_older {ℓ} :
      (P : BaselineSnapshot → Type ℓ) (r : FileRead BaselineSnapshot)
      (older : Option BaselineSnapshot) (snap : BaselineSnapshot)
      → (r ≡ decoded snap → P snap)
      → (older ≡ some snap → P snap)
      → or_older r older ≡ some snap
      → P snap
  find_in_older P not_exist older snap h k e = k e
  find_in_older P unreadable older snap h k e = k e
  find_in_older P malformed older snap h k e = k e
  find_in_older P (decoded s) older snap h k e = h (cc e)

  first_valid-read {ℓ} :
      (P : BaselineSnapshot → Type ℓ) (dir : Dict (Node c.Bytes)) (names : List GoString)
      (snap : BaselineSnapshot)
      → AllReadable c times P dir
      → All (λ s. times.parses s ≡ true) names
      → first_valid c times dir names ≡ some snap
      → P snap
  unfolding first_valid
  first_valid-read P dir [] snap h parsed e = cc e
  first_valid-read P dir (s ∷ names) snap h parsed e =
      find_in_older P (read_snapshot c times dir s) (first_valid c times dir names) snap
        (h s snap (ground (arith, parsed.0))) (first_valid-read P dir names snap h parsed.1) e

  newest-read {ℓ} :
      (P : BaselineSnapshot → Type ℓ) (io : Io c.Bytes) (dir : Dict (Node c.Bytes))
      (snap : BaselineSnapshot)
      → AllReadable c times P dir
      → load_newest_valid c times io dir ≡ some snap
      → P snap
  unfolding load_newest_valid list_snapshots
  newest-read P io dir snap h e = elim (Bool-cases io.list_ok) [
    | inr failed ↦ cc (rw failed at e)
    | inl listed ↦
        first_valid-read P dir (reverse (list_snapshots times dir)) snap h
          (All-reverse (λ s. times.parses s ≡ true) (list_snapshots times dir)
            (All-sort_texts (λ s. times.parses s ≡ true) (snapshot_names times dir)
              (snapshot_names-parse times dir)))
          (rw listed at e)
  ]

  -- The tracker with a snapshot loaded.
  abbrev pub with_snapshot : BehaviorTracker → BaselineSnapshot → BehaviorTracker
  with_snapshot bt s =
      load_patterns bt s.patterns s.total_events s.last_new_pattern s.learning_start

  found_in {ℓ} :
      (P : BaselineSnapshot → Type ℓ) (io : Io c.Bytes) (bs : BaselineStore c.Bytes)
      (bt : BehaviorTracker) (r : FileRead BaselineSnapshot) (newest : Option BaselineSnapshot)
      (now nano : ℕ)
      → ((s : BaselineSnapshot) → r ≡ decoded s → P s)
      → ((s : BaselineSnapshot) → newest ≡ some s → P s)
      → let t = (load_from c times io bs bt r newest now nano).0.1 in
        ((t ≡ bt) × ((s : BaselineSnapshot) → r ≢ decoded s))
        ⊎ ((s : BaselineSnapshot) × P s × (t ≡ with_snapshot bt s))
  found_in P io bs bt not_exist none now nano h k = inl (refl, λ s e. cc e)
  found_in P io bs bt not_exist (some s) now nano h k = inr (s, k s refl, refl)
  found_in P io bs bt unreadable none now nano h k = inl (refl, λ s e. cc e)
  found_in P io bs bt unreadable (some s) now nano h k = inr (s, k s refl, refl)
  found_in P io bs bt malformed none now nano h k = inl (refl, λ s e. cc e)
  found_in P io bs bt malformed (some s) now nano h k = inr (s, k s refl, refl)
  found_in P io bs bt (decoded s) newest now nano h k = inr (s, h s refl, refl)

  -- A load leaves the tracker as it is, if the latest file gives no snapshot, or it loads a snapshot of the
  -- directory.
  pub load_latest_snapshot-found {ℓ} :
      (P : BaselineSnapshot → Type ℓ) (io : Io c.Bytes) (bs : BaselineStore c.Bytes)
      (bt : BehaviorTracker) (now nano : ℕ)
      → AllReadable c times P (entries c times bs.disk)
      → let t = (load_latest_snapshot c times io bs bt now nano).0.1 in
        ((t ≡ bt)
          × ((s : BaselineSnapshot)
              → read_snapshot c times (entries c times bs.disk) latest_name ≢ decoded s))
        ⊎ ((s : BaselineSnapshot) × P s × (t ≡ with_snapshot bt s))
  unfolding load_latest_snapshot
  load_latest_snapshot-found P io bs bt now nano h =
      let dir = entries c times bs.disk in
      found_in P io bs bt (read_snapshot c times dir latest_name) (load_newest_valid c times io dir)
        now nano
        (λ s. h latest_name s (ap (λ b. b || times.parses latest_name) (text_eq_refl latest_name)))
        (λ s e. newest-read P io dir s h e)
