-- ===== src/Discovery/Tracker/Restored.antt =====
-- A tracker that is filled from another's patterns (pkg/discovery/tracker.go, `LoadPatterns`).
use ztre.Base.{
  ℕ, GoString, text_eq_iff, not, ◌||◌, Option, none, some, List, [], ◌∷◌, ◌≡◌, refl, arith, if_both,
  ◌∙◌, All,
}
use ztre.Base.Dict
use ztre.Base.Dict.{Dict}
use ztre.Base.Dict.Keys.{IsMap, put-IsMap}
use ztre.Base.FilePath.{base}
use ztre.Collector.Event.{SecurityEvent}
use ztre.Discovery.Tracker.{
  ExecutionPattern, BehaviorTracker, new_tracker, is_execve, is_nameless, record_lineage, track,
  load_patterns, put_all,
}
use ztre.Discovery.Tracker.Entries.{IsEntry}
use ztre.Discovery.Tracker.Counts.{Sighting, track_all}

abbrev pub or_else {ℓ} : {V : Type ℓ} → Option V → Option V → Option V
or_else none o = o
or_else (some v) o = some v

pub get-put_all {ℓ} :
    {V : Type ℓ} (m p : Dict V) (k : GoString)
    → IsMap p
    → Dict.get (put_all m p) k ≡ or_else (Dict.get p k) (Dict.get m k)
unfolding put_all Dict.get
get-put_all m [] k h = refl
get-put_all m ((j, v) ∷ rest) k h =
    ground
      (arith, get-put_all (Dict.put m j v) rest k h.1, Dict.get-put m j k v, text_eq_iff j k, h.0)

recorded-IsMap :
    (bt : BehaviorTracker) (key : GoString) (fresh : ExecutionPattern) (o : Option ExecutionPattern)
    (now : ℕ) (node : GoString) (wall : ℕ)
    → IsMap bt.patterns
    → IsMap (record_lineage bt key fresh o now node wall).patterns
recorded-IsMap bt key fresh none now node wall h = put-IsMap bt.patterns key _ h
recorded-IsMap bt key fresh (some pat) now node wall h = put-IsMap bt.patterns key _ h

track-IsMap :
    (bt : BehaviorTracker) (e : SecurityEvent) (clock wall : ℕ)
    → IsMap bt.patterns
    → IsMap (track bt (some e) clock wall).patterns
unfolding track
track-IsMap bt e clock wall h =
    if_both (λ (t : BehaviorTracker). IsMap t.patterns) (not (is_execve e.event_type)) h
      (if_both (λ (t : BehaviorTracker). IsMap t.patterns)
        (is_nameless (base e.parent_binary) || is_nameless (base e.binary)) h
        (recorded-IsMap _ _ _ (Dict.get bt.patterns _) _ _ _ h))

pub track_all-IsMap :
    (bt : BehaviorTracker) (history : List Sighting)
    → IsMap bt.patterns
    → IsMap (track_all bt history).patterns
unfolding track_all
track_all-IsMap bt [] h = h
track_all-IsMap bt (s ∷ earlier) h =
    track-IsMap (track_all bt earlier) s.event s.clock s.wall (track_all-IsMap bt earlier h)

put_all-IsMap {ℓ} : {V : Type ℓ} (m p : Dict V) → IsMap m → IsMap (put_all m p)
unfolding put_all
put_all-IsMap m [] h = h
put_all-IsMap m ((k, v) ∷ rest) h = put_all-IsMap (Dict.put m k v) rest (put-IsMap m k v h)

pub load_patterns-IsMap :
    (bt : BehaviorTracker) (patterns : Dict ExecutionPattern) (total last_new started : ℕ)
    → IsMap bt.patterns
    → IsMap (load_patterns bt patterns total last_new started).patterns
unfolding load_patterns
load_patterns-IsMap bt patterns total last_new started h = put_all-IsMap bt.patterns patterns h

-- A new tracker that a map of patterns is loaded into holds that map's pattern under every key.
pub get-load_patterns :
    (now : ℕ) (patterns : Dict ExecutionPattern) (total last_new started : ℕ) (k : GoString)
    → IsMap patterns
    → Dict.get (load_patterns (new_tracker now) patterns total last_new started).patterns k
      ≡ Dict.get patterns k
unfolding load_patterns
get-load_patterns now patterns total last_new started k h =
    get-put_all [] patterns k h ∙ unfold Dict.get in (or_else_none (Dict.get patterns k))
  where
    or_else_none : (o : Option ExecutionPattern) → or_else o none ≡ o
    or_else_none none = refl
    or_else_none (some p) = refl

put_all-entries :
    (m patterns : Dict ExecutionPattern)
    → All IsEntry m
    → All IsEntry patterns
    → All IsEntry (put_all m patterns)
unfolding put_all
put_all-entries m [] h k = h
put_all-entries m ((j, p) ∷ rest) h k =
    put_all-entries (Dict.put m j p) rest (Dict.All-put IsEntry m j p h k.0) k.1

-- Restoring a snapshot of well-formed entries into a tracker keeps every entry well formed.
pub load_patterns-entries :
    (bt : BehaviorTracker) (patterns : Dict ExecutionPattern) (total last_new started : ℕ)
    → All IsEntry bt.patterns
    → All IsEntry patterns
    → All IsEntry (load_patterns bt patterns total last_new started).patterns
unfolding load_patterns
load_patterns-entries bt patterns total last_new started h k =
    put_all-entries bt.patterns patterns h k
