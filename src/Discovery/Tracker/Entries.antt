-- ===== src/Discovery/Tracker/Entries.antt =====
-- What every pattern of the tracker satisfies (pkg/discovery/tracker.go).
use ztre.Base.{
  ℕ, ◌+◌, ◌%◌, ◌^◌, ◌≤◌, GoString, text_eq, text_eq_iff, Bool, true, false, not, ◌&&◌, ◌||◌, some,
  List, [], ◌∷◌, ◌++◌, ◌≡◌, refl, inl, inr, arith, Bool-cases, Option-cases, All,
}
use ztre.Base.Dict
use ztre.Base.Dict.{Dict}
use ztre.Base.FilePath.{base, base_idem}
use ztre.Collector.Event.{SecurityEvent}
use ztre.Discovery.Tracker.{
  ExecutionPattern, BehaviorTracker, new_tracker, pattern_key, is_nameless, is_execve, contains_str,
  see_again, first_sight, or_now, record_lineage, track, unique_pattern_count,
}
use ztre.Discovery.Tracker.Counts.{Sighting, track_all}

abbrev pub distinct : List GoString → Bool
distinct [] = true
distinct (x ∷ xs) = not (contains_str xs x) && distinct xs

contains_str-append :
    (xs : List GoString) (x y : GoString)
    → contains_str (xs ++ (y ∷ [])) x ≡ (contains_str xs x || text_eq y x)
unfolding contains_str
contains_str-append [] x y = ground arith
contains_str-append (z ∷ xs) x y = ground (arith, contains_str-append xs x y)

distinct-append :
    (xs : List GoString) (y : GoString)
    → distinct xs ≡ true
    → contains_str xs y ≡ false
    → distinct (xs ++ (y ∷ [])) ≡ true
unfolding contains_str
distinct-append [] y h k = refl
distinct-append (x ∷ xs) y h k =
    ground
      (arith, contains_str-append xs x y, distinct-append xs y, text_eq_iff x y, text_eq_iff y x)

-- An entry of the map: its key is made of its fields, its binaries are base names that name
-- something, its times are in order and no node is listed twice.
pub record IsEntry (entry : GoString × ExecutionPattern) : Type 0 where
  pub keyed :
      entry.0
      ≡ pattern_key entry.1.namespace entry.1.workload_name entry.1.parent_binary
          entry.1.child_binary
  pub parent_base : base entry.1.parent_binary ≡ entry.1.parent_binary
  pub child_base : base entry.1.child_binary ≡ entry.1.child_binary
  pub parent_named : is_nameless entry.1.parent_binary ≡ false
  pub child_named : is_nameless entry.1.child_binary ≡ false
  pub in_time : entry.1.first_seen ≤ entry.1.last_seen
  pub nodes_distinct : distinct entry.1.nodes ≡ true

see_again-IsEntry :
    (k : GoString) (p : ExecutionPattern) (t : ℕ) (node : GoString)
    → IsEntry (k, p)
    → IsEntry (k, see_again p t node)
unfolding see_again
see_again-IsEntry k p t node h = record {
  keyed = h.keyed;
  parent_base = h.parent_base;
  child_base = h.child_base;
  parent_named = h.parent_named;
  child_named = h.child_named;
  in_time = ground (arith, h.in_time);
  nodes_distinct = ground (arith, h.nodes_distinct, distinct-append p.nodes node);
}

first_sight-IsEntry :
    (e : SecurityEvent) (t : ℕ)
    → is_nameless (base e.parent_binary) ≡ false
    → is_nameless (base e.binary) ≡ false
    → IsEntry (
      pattern_key e.namespace e.workload_name (base e.parent_binary) (base e.binary),
      first_sight (base e.parent_binary) (base e.binary) e t,
    )
unfolding first_sight contains_str
first_sight-IsEntry e t hp hc = record {
  keyed = refl;
  parent_base = base_idem e.parent_binary;
  child_base = base_idem e.binary;
  parent_named = hp;
  child_named = hc;
  in_time = omega arith;
  nodes_distinct = ground arith;
}

-- A tracker whose entries are well formed and whose metric counts them.
pub record IsTracker (bt : BehaviorTracker) : Type 0 where
  pub entries : All IsEntry bt.patterns
  pub metric : bt.patterns_total ≡ unique_pattern_count bt

abbrev key_for : SecurityEvent → GoString
key_for e = pattern_key e.namespace e.workload_name (base e.parent_binary) (base e.binary)

-- The tracker with the lineage of the event recorded.
abbrev recorded : BehaviorTracker → SecurityEvent → ℕ → ℕ → BehaviorTracker
recorded bt e clock wall =
    let now = or_now e.timestamp clock in
    let fresh = first_sight (base e.parent_binary) (base e.binary) e now in
    record_lineage bt (key_for e) fresh (Dict.get bt.patterns (key_for e)) now e.node_name wall

recorded-entries :
    (bt : BehaviorTracker) (e : SecurityEvent) (clock wall : ℕ)
    → is_nameless (base e.parent_binary) ≡ false
    → is_nameless (base e.binary) ≡ false
    → All IsEntry bt.patterns
    → All IsEntry (recorded bt e clock wall).patterns
recorded-entries bt e clock wall hp hc h =
    let key = key_for e in
    let now = or_now e.timestamp clock in
    let fresh = first_sight (base e.parent_binary) (base e.binary) e now in
    elim (Option-cases (Dict.get bt.patterns key)) [
      | inl absent ↦
          rw absent (Dict.All-put IsEntry bt.patterns key fresh h (first_sight-IsEntry e now hp hc))
      | inr (p, there) ↦ rw there (
          Dict.All-put IsEntry bt.patterns key (see_again p now e.node_name) h (
            see_again-IsEntry key p now e.node_name
              (Dict.All-get IsEntry bt.patterns key p h there)))
    ]

recorded-metric :
    (bt : BehaviorTracker) (e : SecurityEvent) (clock wall : ℕ)
    → bt.patterns_total ≡ unique_pattern_count bt
    → (recorded bt e clock wall).patterns_total ≡ unique_pattern_count (recorded bt e clock wall)
recorded-metric bt e clock wall h =
    let key = key_for e in
    let now = or_now e.timestamp clock in
    let fresh = first_sight (base e.parent_binary) (base e.binary) e now in
    elim (Option-cases (Dict.get bt.patterns key)) [
      | inl absent ↦ rw absent (omega (arith, h, Dict.length-put_new bt.patterns key fresh absent))
      | inr (p, there) ↦ rw there (
          omega
            (arith, h, Dict.length-put_known bt.patterns key (see_again p now e.node_name) p there))
    ]

-- What `Track` keeps if the update of the map under the event's key keeps it.
track-keeps {ℓ} :
    (P : BehaviorTracker → Type ℓ) (bt : BehaviorTracker) (e : SecurityEvent) (clock wall : ℕ)
    → let counted : BehaviorTracker = record bt { total_events = (bt.total_events + 1) % 2 ^ 64 } in
      P counted
      → (is_nameless (base e.parent_binary) ≡ false
          → is_nameless (base e.binary) ≡ false
          → P (recorded counted e clock wall))
      → P (track bt (some e) clock wall)
unfolding track
track-keeps P bt e clock wall same changed = elim (Bool-cases (is_execve e.event_type)) [
  | inr other ↦ rw other same
  | inl lineage ↦
      elim (Bool-cases (is_nameless (base e.parent_binary) || is_nameless (base e.binary))) [
        | inl nameless ↦ rw (lineage, nameless) same
        | inr named ↦ rw (lineage, named) (changed (ground arith) (ground arith))
      ]
]

-- Any history keeps well-formed entries well formed, from any tracker, a restored one too.
pub track_all-entries :
    (bt : BehaviorTracker) (history : List Sighting)
    → All IsEntry bt.patterns
    → All IsEntry (track_all bt history).patterns
unfolding track_all
track_all-entries bt [] h = h
track_all-entries bt (s ∷ earlier) h =
    let before = track_all bt earlier in
    let kept = track_all-entries bt earlier h in
    track-keeps (λ (t : BehaviorTracker). All IsEntry t.patterns) before s.event s.clock s.wall kept
      (λ hp hc. recorded-entries _ s.event s.clock s.wall hp hc kept)

track_all-metric :
    (now : ℕ) (history : List Sighting)
    → let bt = track_all (new_tracker now) history in bt.patterns_total ≡ unique_pattern_count bt
unfolding track_all
track_all-metric now [] = refl
track_all-metric now (s ∷ earlier) =
    let before = track_all (new_tracker now) earlier in
    let kept = track_all-metric now earlier in
    track-keeps (λ (t : BehaviorTracker). t.patterns_total ≡ unique_pattern_count t) before s.event
      s.clock s.wall kept (λ hp hc. recorded-metric _ s.event s.clock s.wall kept)

-- From a new tracker, after any history of events, every entry is well formed (its key fits its fields,
-- its binaries are base names, its times are in order, its nodes are distinct) and the pattern metric is
-- the number of patterns.
pub track_all-IsTracker :
    (now : ℕ) (history : List Sighting) → IsTracker (track_all (new_tracker now) history)
track_all-IsTracker now history = record {
  entries = track_all-entries (new_tracker now) history tt;
  metric = track_all-metric now history;
}
