-- ===== src/Discovery/Tracker/Counts.antt =====
-- What the tracker holds of a lineage, against the history of the events that it was given
-- (pkg/discovery/tracker.go, `Track`).
use ztre.Base.{
  ℕ, ◌+◌, ◌%◌, ◌^◌, ◌≤◌, ◌==◌, GoString, text_eq, text_eq_iff, Bool, true, false, not, ◌&&◌, ◌||◌,
  Option, none, some, List, [], ◌∷◌, length, ◌≡◌, refl, inl, inr, arith, if◌then◌else◌, Bool-cases,
  Option-cases, All,
}
use ztre.Base.Dict
use ztre.Base.FilePath.{base}
use ztre.Collector.Event.{SecurityEvent}
use ztre.Discovery.Tracker.{
  ExecutionPattern, BehaviorTracker, new_tracker, pattern_key, is_execve, is_nameless, see_again,
  first_sight, or_now, track,
}

-- An event with the clock readings of its `Track`.
pub record Sighting : Type 0 where
  pub event : SecurityEvent
  pub clock : ℕ
  pub wall : ℕ

-- A history has the newest sighting first.
unfoldable pub track_all : BehaviorTracker → List Sighting → BehaviorTracker
track_all bt [] = bt
track_all bt (s ∷ earlier) = track (track_all bt earlier) (some s.event) s.clock s.wall

abbrev pub key_of : Sighting → GoString
key_of s =
    pattern_key s.event.namespace s.event.workload_name (base s.event.parent_binary)
      (base s.event.binary)

abbrev pub time_of : Sighting → ℕ
time_of s = or_now s.event.timestamp s.clock

-- The sighting is of the lineage with the key `k`.
abbrev pub sees : GoString → Sighting → Bool
sees k s =
    is_execve s.event.event_type
    && not (is_nameless (base s.event.parent_binary) || is_nameless (base s.event.binary))
    && text_eq (key_of s) k

abbrev pub times : GoString → List Sighting → List ℕ
times k [] = []
times k (s ∷ earlier) = let rest = times k earlier in if sees k s then time_of s ∷ rest else rest

abbrev pub elem : ℕ → List ℕ → Bool
elem t [] = false
elem t (x ∷ xs) = x == t || elem t xs

-- A pattern sums up the times of its sightings.
pub record SumsUp (p : ExecutionPattern) (ts : List ℕ) : Type 0 where
  pub counted : p.count ≡ length ts % 2 ^ 64
  pub earliest : All (λ t. p.first_seen ≤ t) ts
  pub latest : All (λ t. t ≤ p.last_seen) ts
  pub first_in : elem p.first_seen ts ≡ true
  pub last_in : elem p.last_seen ts ≡ true

abbrev pub Holds : Option ExecutionPattern → List ℕ → Type 0
Holds none ts = ts ≡ []
Holds (some p) ts = SumsUp p ts

All-from : {a b : ℕ} (ts : List ℕ) → b ≤ a → All (λ t. a ≤ t) ts → All (λ t. b ≤ t) ts
All-from [] h k = tt
All-from (t ∷ ts) h k = (omega arith, All-from ts h k.1)

All-to : {a b : ℕ} (ts : List ℕ) → a ≤ b → All (λ t. t ≤ a) ts → All (λ t. t ≤ b) ts
All-to [] h k = tt
All-to (t ∷ ts) h k = (omega arith, All-to ts h k.1)

see_again_bounds :
    (p : ExecutionPattern) (t : ℕ) (node : GoString)
    → ((see_again p t node).first_seen ≤ t)
      × ((see_again p t node).first_seen ≤ p.first_seen)
      × (t ≤ (see_again p t node).last_seen)
      × (p.last_seen ≤ (see_again p t node).last_seen)
unfolding see_again
see_again_bounds p t node = ground arith

see_again-SumsUp :
    (p : ExecutionPattern) (ts : List ℕ) (t : ℕ) (node : GoString)
    → SumsUp p ts
    → SumsUp (see_again p t node) (t ∷ ts)
see_again-SumsUp p ts t node h =
    let (first, from, last, to) = see_again_bounds p t node in
    record {
      counted = unfold see_again in ground arith;
      earliest = (first, All-from ts from h.earliest);
      latest = (last, All-to ts to h.latest);
      first_in = unfold see_again in ground arith;
      last_in = unfold see_again in ground arith;
    }

first_sight-SumsUp :
    (parent child : GoString) (e : SecurityEvent) (t : ℕ)
    → SumsUp (first_sight parent child e t) (t ∷ [])
unfolding first_sight
first_sight-SumsUp parent child e t = ground arith

pub track_unseen :
    (bt : BehaviorTracker) (s : Sighting) (k : GoString)
    → sees k s ≡ false
    → Dict.get (track bt (some s.event) s.clock s.wall).patterns k ≡ Dict.get bt.patterns k
unfolding track
track_unseen bt s k h =
    let fresh =
      first_sight (base s.event.parent_binary) (base s.event.binary) s.event (time_of s) in
    elim (Option-cases (Dict.get bt.patterns (key_of s))) [
      | inl absent ↦ ground (arith, Dict.get-put bt.patterns (key_of s) k fresh)
      | inr (p, there) ↦
          ground (
            arith,
            Dict.get-put bt.patterns (key_of s) k (see_again p (time_of s) s.event.node_name),
          )
    ]

pub track_new :
    (bt : BehaviorTracker) (s : Sighting) (k : GoString)
    → sees k s ≡ true
    → Dict.get bt.patterns k ≡ none
    → Dict.get (track bt (some s.event) s.clock s.wall).patterns k
      ≡ some (first_sight (base s.event.parent_binary) (base s.event.binary) s.event (time_of s))
unfolding track
track_new bt s k h e =
    let fresh =
      first_sight (base s.event.parent_binary) (base s.event.binary) s.event (time_of s) in
    ground (arith, text_eq_iff (key_of s) k, Dict.get-put bt.patterns (key_of s) k fresh)

pub track_known :
    (bt : BehaviorTracker) (s : Sighting) (k : GoString) (p : ExecutionPattern)
    → sees k s ≡ true
    → Dict.get bt.patterns k ≡ some p
    → Dict.get (track bt (some s.event) s.clock s.wall).patterns k
      ≡ some (see_again p (time_of s) s.event.node_name)
unfolding track
track_known bt s k p h e = ground (
  arith,
  text_eq_iff (key_of s) k,
  Dict.get-put bt.patterns (key_of s) k (see_again p (time_of s) s.event.node_name),
)

track-Holds :
    (bt : BehaviorTracker) (s : Sighting) (k : GoString) (earlier : List Sighting)
    → Holds (Dict.get bt.patterns k) (times k earlier)
    → Holds (Dict.get (track bt (some s.event) s.clock s.wall).patterns k) (times k (s ∷ earlier))
track-Holds bt s k earlier h = elim (Bool-cases (sees k s)) [
  | inr other ↦ rw (other, track_unseen bt s k other) h
  | inl same ↦ elim (Option-cases (Dict.get bt.patterns k)) [
    | inl absent ↦
        let ts : times k earlier ≡ [] = rw absent at h in
        rw (same, track_new bt s k same absent, ts)
          (first_sight-SumsUp (base s.event.parent_binary) (base s.event.binary) s.event
            (time_of s))
    | inr (p, there) ↦
        let old : SumsUp p (times k earlier) = rw there at h in
        rw (same, track_known bt s k p same there)
          (see_again-SumsUp p (times k earlier) (time_of s) s.event.node_name old)
  ]
]

-- The tracker refines the history of its events: for every key, after any history from a new tracker,
-- there is no pattern if no execve event of that lineage came, and else the pattern counts those
-- events (modulo 2^64) and has the earliest and the latest of their times.
pub track_all-Holds :
    (now : ℕ) (history : List Sighting) (k : GoString)
    → Holds (Dict.get (track_all (new_tracker now) history).patterns k) (times k history)
unfolding track_all Dict.get
track_all-Holds now [] k = refl
track_all-Holds now (s ∷ earlier) k =
    track-Holds (track_all (new_tracker now) earlier) s k earlier (track_all-Holds now earlier k)

track_total :
    (bt : BehaviorTracker) (e : SecurityEvent) (clock wall : ℕ)
    → (track bt (some e) clock wall).total_events ≡ (bt.total_events + 1) % 2 ^ 64
unfolding track
track_total bt e clock wall = ground arith

-- Every event that is given to the tracker counts, whatever its kind: the total is the number of
-- events, modulo 2^64.
pub total-track_all :
    (now : ℕ) (history : List Sighting)
    → (track_all (new_tracker now) history).total_events ≡ length history % 2 ^ 64
unfolding track_all
total-track_all now [] = refl
total-track_all now (s ∷ earlier) = omega (
  arith,
  total-track_all now earlier,
  track_total (track_all (new_tracker now) earlier) s.event s.clock s.wall,
)
