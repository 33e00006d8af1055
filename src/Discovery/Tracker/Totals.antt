-- ===== src/Discovery/Tracker/Totals.antt =====
-- How the counts of a tracker grow from any state (pkg/discovery/tracker.go, `Track`).
use ztre.Base.{
  ℕ, ◌+◌, ◌%◌, ◌^◌, GoString, true, Option, none, some, List, [], ◌∷◌, length, ◌≡◌, ap, inl, inr,
  arith, if◌then◌else◌, Bool-cases, Option-cases,
}
use ztre.Base.Dict
use ztre.Base.Dict.{Dict}
use ztre.Discovery.Tracker.{ExecutionPattern, BehaviorTracker, see_again, first_sight, track}
use ztre.Discovery.Tracker.Counts.{
  Sighting, track_all, sees, times, track_unseen, track_new, track_known,
}

-- The count of a pattern, and zero where there is none.
abbrev pub count_in : Option ExecutionPattern → ℕ
count_in none = 0
count_in (some p) = p.count

seen_first :
    (bt : BehaviorTracker) (s : Sighting) (k : GoString)
    → sees k s ≡ true
    → Dict.get bt.patterns k ≡ none
    → count_in (Dict.get (track bt (some s.event) s.clock s.wall).patterns k) ≡ 1
unfolding first_sight
seen_first bt s k h absent = ap count_in (track_new bt s k h absent)

seen_again :
    (bt : BehaviorTracker) (s : Sighting) (k : GoString) (p : ExecutionPattern)
    → sees k s ≡ true
    → Dict.get bt.patterns k ≡ some p
    → count_in (Dict.get (track bt (some s.event) s.clock s.wall).patterns k)
      ≡ (p.count + 1) % 2 ^ 64
unfolding see_again
seen_again bt s k p h there = ap count_in (track_known bt s k p h there)

track-count :
    (bt : BehaviorTracker) (s : Sighting) (k : GoString)
    → count_in (Dict.get (track bt (some s.event) s.clock s.wall).patterns k) % 2 ^ 64
      ≡ (count_in (Dict.get bt.patterns k) + (if sees k s then 1 else 0)) % 2 ^ 64
track-count bt s k = elim (Bool-cases (sees k s)) [
  | inr other ↦ rw (other, track_unseen bt s k other) (omega arith)
  | inl same ↦ elim (Option-cases (Dict.get bt.patterns k)) [
    | inl absent ↦ rw (same, seen_first bt s k same absent, absent) (omega arith)
    | inr (p, there) ↦ rw (same, seen_again bt s k p same there, there) (omega arith)
  ]
]

-- From any tracker, a restored one too: a history of events adds, for every key, the number of events of that
-- lineage to the count under the key (modulo 2^64).
pub track_all-count :
    (bt : BehaviorTracker) (history : List Sighting) (k : GoString)
    → count_in (Dict.get (track_all bt history).patterns k) % 2 ^ 64
      ≡ (count_in (Dict.get bt.patterns k) + length (times k history)) % 2 ^ 64
unfolding track_all
track_all-count bt [] k = omega arith
track_all-count bt (s ∷ earlier) k =
    ground (arith, track_all-count bt earlier k, track-count (track_all bt earlier) s k)
