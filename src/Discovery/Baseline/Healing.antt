-- ===== src/Discovery/Baseline/Healing.antt =====
-- A restart with a damaged latest file (pkg/discovery/baseline.go, `LoadLatestSnapshot`).
use ztre.Base.{
  ℕ, GoString, Bool, true, false, Option, none, some, List, [], ◌∷◌, ◌++◌, reverse, ◌≡◌, refl, sym,
  ap, ◌∙◌, if◌then◌else◌, All, All-reverse,
}
use mathlib.Core.List.{append_assoc, append-nil}
use ztre.Base.Dict.{Dict}
use ztre.Files.{FileRead, not_exist, unreadable, malformed, decoded}
use ztre.Discovery.Tracker.{BehaviorTracker, load_patterns}
use ztre.Discovery.Snapshots.{TimeText, Node, written, Io, latest_name, list_snapshots}
use ztre.Discovery.Baseline.{BaselineSnapshot, BaselineStore, Codec, entries}
use ztre.Discovery.Baseline.Loading.{
  or_older, read_snapshot, first_valid, load_newest_valid, heal, load_from, load_latest_snapshot,
}
use ztre.Discovery.Baseline.Restoring.{IsCodec, read_written, read_marshal}

-- The read gives a snapshot.
abbrev pub is_valid : FileRead BaselineSnapshot → Bool
is_valid not_exist = false
is_valid unreadable = false
is_valid malformed = false
is_valid (decoded snap) = true

-- The file is there, and gives none.
abbrev pub is_damaged : FileRead BaselineSnapshot → Bool
is_damaged not_exist = false
is_damaged unreadable = true
is_damaged malformed = true
is_damaged (decoded snap) = false

reverse-append {ℓ} : {A : Type ℓ} (xs ys : List A) → reverse (xs ++ ys) ≡ reverse ys ++ reverse xs
reverse-append [] ys = sym (append-nil (reverse ys))
reverse-append (x ∷ xs) ys =
    ap (λ zs. zs ++ (x ∷ [])) (reverse-append xs ys)
    ∙ append_assoc (reverse ys) (reverse xs) (x ∷ [])

reverse_split {ℓ} :
    {A : Type ℓ} (xs ys : List A) (y : A)
    → reverse (xs ++ (y ∷ ys)) ≡ reverse ys ++ (y ∷ reverse xs)
reverse_split xs ys y = reverse-append xs (y ∷ ys) ∙ append_assoc (reverse ys) (y ∷ []) (reverse xs)

listing : {A : Type 0} (b : Bool) (o : Option A) → b ≡ true → (if b then o else none) ≡ o
listing b o h = rw h refl

module _ (c : Codec) (times : TimeText) where
  next_invalid :
      (r : FileRead BaselineSnapshot) (older : Option BaselineSnapshot)
      → is_valid r ≡ false
      → or_older r older ≡ older
  next_invalid not_exist older h = refl
  next_invalid unreadable older h = refl
  next_invalid malformed older h = refl
  next_invalid (decoded snap) older h = cc

  first_valid_after :
      (dir : Dict (Node c.Bytes)) (newer older : List GoString) (name : GoString)
      (snap : BaselineSnapshot)
      → All (λ s. is_valid (read_snapshot c times dir s) ≡ false) newer
      → read_snapshot c times dir name ≡ decoded snap
      → first_valid c times dir (newer ++ (name ∷ older)) ≡ some snap
  unfolding first_valid
  first_valid_after dir [] older name snap h e =
      ap (λ r. or_older r (first_valid c times dir older)) e
  first_valid_after dir (s ∷ newer) older name snap h e =
      next_invalid (read_snapshot c times dir s) (first_valid c times dir (newer ++ (name ∷ older)))
        h.0
      ∙ first_valid_after dir newer older name snap h.1 e

  load_damaged :
      (io : Io c.Bytes) (bs : BaselineStore c.Bytes) (bt : BehaviorTracker)
      (r : FileRead BaselineSnapshot) (newest : Option BaselineSnapshot) (now nano : ℕ)
      → is_damaged r ≡ true
      → load_from c times io bs bt r newest now nano ≡ heal c times io bs bt newest now nano
  load_damaged io bs bt not_exist newest now nano h = cc
  load_damaged io bs bt unreadable newest now nano h = refl
  load_damaged io bs bt malformed newest now nano h = refl
  load_damaged io bs bt (decoded snap) newest now nano h = cc

  -- A latest file that is damaged costs nothing but the time since the last good snapshot: the tracker
  -- gets the newest timestamped snapshot that can be read, in the order of the names, however many
  -- newer ones are damaged too, and the latest file is written again with it.
  pub load_latest_snapshot_heals :
      IsCodec c
      → (io : Io c.Bytes) (bs : BaselineStore c.Bytes) (bt : BehaviorTracker) (now nano : ℕ)
        (older newer : List GoString) (name : GoString) (snap : BaselineSnapshot)
      → is_damaged (read_snapshot c times (entries c times bs.disk) latest_name) ≡ true
      → io.list_ok ≡ true
      → io.write_latest ≡ written
      → list_snapshots times (entries c times bs.disk) ≡ older ++ (name ∷ newer)
      → All (λ s. is_valid (read_snapshot c times (entries c times bs.disk) s) ≡ false) newer
      → read_snapshot c times (entries c times bs.disk) name ≡ decoded snap
      → let (found, ok) = load_latest_snapshot c times io bs bt now nano in
        (found.1
          ≡ load_patterns bt snap.patterns snap.total_events snap.last_new_pattern
              snap.learning_start)
        × (read_snapshot c times (entries c times found.0.disk) latest_name ≡ decoded snap)
        × (ok ≡ true)
  unfolding load_latest_snapshot load_newest_valid
  load_latest_snapshot_heals laws io bs bt now nano older newer name snap damaged listed ok names
        lost good =
      let dir = entries c times bs.disk in
      let newest : load_newest_valid c times io dir ≡ some snap =
        listing io.list_ok (first_valid c times dir (reverse (list_snapshots times dir))) listed
        ∙ ap (λ l. first_valid c times dir (reverse l)) names
        ∙ ap (first_valid c times dir) (reverse_split older newer name)
        ∙ first_valid_after dir (reverse newer) (reverse older) name snap
            (All-reverse (λ s. is_valid (read_snapshot c times dir s) ≡ false) newer lost) good in
      let whole =
        load_damaged io bs bt (read_snapshot c times dir latest_name)
          (load_newest_valid c times io dir) now nano damaged
        ∙ ap (λ o. heal c times io bs bt o now nano) newest in
      let written_latest =
        read_marshal c times laws _ snap
          (read_written c times dir nano (c.marshal snap) io.write_latest ok) in
      (
        ap (λ r. r.0.1) whole,
        ap (λ r. read_snapshot c times (entries c times r.0.0.disk) latest_name) whole
            ∙ written_latest,
        ap (λ r. r.1) whole,
      )
