-- ===== src/Discovery/Baseline/Readable.antt =====
-- Which snapshots a directory holds, whatever writes ended half-way (pkg/discovery/baseline.go and
-- atomic.go).
use ztre.Base.{
  ℕ, ◌+◌, ◌≤◌, ◌==◌, GoString, text_eq, text_eq_iff, Bool, true, false, not, ◌&&◌, ◌||◌, Option,
  none, some, [], ◌∷◌, ◌++◌, ◌≡◌, sym, ap, ◌∙◌, arith, if◌then◌else◌, if_both, Bool-cases, inl, inr,
}
use mathlib.Core.Path.{subst}
use ztre.Base.Dict
use ztre.Base.Dict.{Dict}
use ztre.Files.{decoded}
use ztre.Discovery.Tracker.{BehaviorTracker}
use ztre.Discovery.Snapshots.{
  TimeText, Node, file, Write, Io, latest_name, snapshot_name, temp_name, write_file_atomic,
  list_snapshots, prune_snapshots, old_names,
}
use ztre.Discovery.Snapshots.Atomic.{get-write_file_atomic}
use ztre.Discovery.Snapshots.Pruning.{one_of, get-prune_snapshots}
use ztre.Discovery.Baseline.{
  BaselineSnapshot, BaselineStore, Codec, snapshot, stability, entries, max_keep, complete, saved,
  save_snapshot, tick,
}
use ztre.Discovery.Baseline.Loading.{decode, read_bytes, read_snapshot}
use ztre.Discovery.Baseline.Restoring.{IsCodec}

-- The time library: the name of a temporary file is no snapshot's, whose name ends after ".json".
pub record IsTimeText (times : TimeText) : Type 0 where
  pub temp : (path : GoString) (nano : ℕ) → times.parses (temp_name path nano) ≡ false

abbrev pub dots : GoString → ℕ
dots [] = 0
dots (c ∷ s) = (if c == b'.' then 1 else 0) + dots s

dots-append : (s t : GoString) → dots (s ++ t) ≡ dots s + dots t
dots-append [] t = omega arith
dots-append (c ∷ s) t = omega (arith, dots-append s t)

pub dots-temp_name : (path : GoString) (nano : ℕ) → 2 ≤ dots (temp_name path nano)
unfolding temp_name
dots-temp_name path nano = omega (arith, dots-append path _)

temp_not_latest : (path : GoString) (nano : ℕ) → text_eq latest_name (temp_name path nano) ≡ false
temp_not_latest path nano = elim (Bool-cases (text_eq latest_name (temp_name path nano))) [
  | inr other ↦ other
  | inl same ↦
      let e : 1 ≡ dots (temp_name path nano) =
        ap dots ((text_eq_iff latest_name (temp_name path nano)).0 same) in
      absurd (omega (arith, e, dots-temp_name path nano))
]

-- The names that a load reads.
abbrev pub is_read : TimeText → GoString → Bool
is_read times name = text_eq latest_name name || times.parses name

temp_unread :
    (times : TimeText)
    → IsTimeText times
    → (path : GoString) (nano : ℕ) (name : GoString) → is_read times name ≡ true
    → text_eq (temp_name path nano) name ≡ false
temp_unread times laws path nano name read =
    elim (Bool-cases (text_eq (temp_name path nano) name)) [
      | inr other ↦ other
      | inl same ↦
          let e = (text_eq_iff (temp_name path nano) name).0 same in
          let it : is_read times (temp_name path nano) ≡ true = ap (is_read times) e ∙ read in
          ground (arith, it, temp_not_latest path nano, laws.temp path nano)
    ]

module _ (c : Codec) (times : TimeText) where
  -- Every snapshot that a load can find in the directory satisfies `P`.
  abbrev pub AllReadable {ℓ} : (BaselineSnapshot → Type ℓ) → Dict (Node c.Bytes) → Type ℓ
  AllReadable P dir =
      (name : GoString) (snap : BaselineSnapshot)
      → is_read times name ≡ true
      → read_snapshot c times dir name ≡ decoded snap
      → P snap

  -- A file of the directory that is one of two.
  read_either {ℓ} :
      (P : BaselineSnapshot → Type ℓ) (b : Bool) (o o' : Option (Node c.Bytes))
      (snap : BaselineSnapshot)
      → (read_bytes c times o ≡ decoded snap → P snap)
      → (read_bytes c times o' ≡ decoded snap → P snap)
      → read_bytes c times (if b then o else o') ≡ decoded snap
      → P snap
  read_either P true o o' snap h k e = h e
  read_either P false o o' snap h k e = k e

module _ (c : Codec) (times : TimeText) (laws : IsCodec c) (text_laws : IsTimeText times) where
  read_marshalled {ℓ} :
      (P : BaselineSnapshot → Type ℓ) (s snap : BaselineSnapshot)
      → P s
      → read_bytes c times (some (file (c.marshal s))) ≡ decoded snap
      → P snap
  read_marshalled P s snap p e =
      let back : decoded s ≡ decoded snap = sym (ap decode (laws.round_trip s)) ∙ e in
      subst P (cc back) p

  written-AllReadable {ℓ} :
      (P : BaselineSnapshot → Type ℓ) (dir : Dict (Node c.Bytes)) (path : GoString) (nano : ℕ)
      (s : BaselineSnapshot) (w : Write c.Bytes)
      → P s
      → AllReadable c times P dir
      → AllReadable c times P (write_file_atomic dir (temp_name path nano) path (c.marshal s) w).0
  unfolding read_snapshot
  written-AllReadable P dir path nano s w p h name snap read e =
      let r = write_file_atomic dir (temp_name path nano) path (c.marshal s) w in
      let exact =
        get-write_file_atomic c.Bytes dir path nano (c.marshal s) w name
          (temp_unread times text_laws path nano name read) in
      read_either c times P (r.1 && text_eq path name) (some (file (c.marshal s)))
        (Dict.get dir name) snap (read_marshalled P s snap p) (h name snap read)
        (sym (ap (read_bytes c times) exact) ∙ e)

  pruned-AllReadable {ℓ} :
      (P : BaselineSnapshot → Type ℓ) (removes : GoString → Bool) (dir : Dict (Node c.Bytes))
      (keep : ℕ)
      → AllReadable c times P dir
      → AllReadable c times P (prune_snapshots times removes dir keep)
  unfolding read_snapshot
  pruned-AllReadable P removes dir keep h name snap read e =
      let exact = get-prune_snapshots times removes dir keep name in
      read_either c times P
        (removes name && one_of (old_names keep (list_snapshots times dir)) name) none
        (Dict.get dir name) snap (λ missing. cc missing) (h name snap read)
        (sym (ap (read_bytes c times) exact) ∙ e)

  complete-AllReadable {ℓ} :
      (P : BaselineSnapshot → Type ℓ) (io : Io c.Bytes) (keep : ℕ) (s : BaselineSnapshot) (nano : ℕ)
      (dir : Dict (Node c.Bytes))
      → P s
      → AllReadable c times P dir
      → AllReadable c times P (complete c times io keep (c.marshal s) nano dir)
  complete-AllReadable P io keep s nano dir p h =
      let copied =
        write_file_atomic dir (temp_name latest_name nano) latest_name (c.marshal s)
          io.write_latest in
      let all = written-AllReadable P dir latest_name nano s io.write_latest p h in
      if_both (AllReadable c times P) io.list_ok (pruned-AllReadable P io.removes copied.0 keep all)
        all

  saved-AllReadable {ℓ} :
      (P : BaselineSnapshot → Type ℓ) (io : Io c.Bytes) (bs : BaselineStore c.Bytes)
      (s : BaselineSnapshot) (nano : ℕ) (r : Dict (Node c.Bytes) × Bool)
      → P s
      → AllReadable c times P r.0
      → AllReadable c times P (entries c times (saved c times io bs (c.marshal s) nano r).0.disk)
  saved-AllReadable P io bs s nano (dir, false) p h = h
  saved-AllReadable P io bs s nano (dir, true) p h =
      complete-AllReadable P io (max_keep c times bs.max_snapshots) s nano dir p h

  -- However the writes, the listing and the removals of a `SaveSnapshot` end.
  pub save_snapshot-AllReadable {ℓ} :
      (P : BaselineSnapshot → Type ℓ) (io : Io c.Bytes) (bs : BaselineStore c.Bytes)
      (bt : BehaviorTracker) (now nano nano' : ℕ)
      → P (snapshot c times bs bt now)
      → AllReadable c times P (entries c times bs.disk)
      → AllReadable c times P
          (entries c times (save_snapshot c times io bs bt now nano nano').0.disk)
  unfolding save_snapshot
  save_snapshot-AllReadable P io bs bt now nano nano' p h =
      let s = snapshot c times bs bt now in
      let name = snapshot_name times now in
      let bs1 : BaselineStore c.Bytes = record bs {
        gauge = stability bs.stability_threshold bt now;
      } in
      let first =
        write_file_atomic (entries c times bs.disk) (temp_name name nano) name (c.marshal s)
          io.write in
      if_both
        (λ (r : BaselineStore c.Bytes × Bool). AllReadable c times P (entries c times r.0.disk))
        (not io.mkdir_ok) h
        (saved-AllReadable P io bs1 s nano' first p
          (written-AllReadable P (entries c times bs.disk) name nano s io.write p h))

  pub tick-AllReadable {ℓ} :
      (P : BaselineSnapshot → Type ℓ) (io : Io c.Bytes) (bs : BaselineStore c.Bytes)
      (bt : BehaviorTracker) (now nano nano' : ℕ)
      → P (snapshot c times bs bt now)
      → AllReadable c times P (entries c times bs.disk)
      → AllReadable c times P (entries c times (tick c times io bs bt now nano nano').disk)
  unfolding tick
  tick-AllReadable P io bs bt now nano nano' p h =
      let status = stability bs.stability_threshold bt now in
      save_snapshot-AllReadable P io (record bs { gauge = status; last_status = status }) bt now
        nano nano' p h
