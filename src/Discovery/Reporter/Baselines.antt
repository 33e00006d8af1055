-- ===== src/Discovery/Reporter/Baselines.antt =====
-- The generated whitelist against the patterns of the tracker themselves, without the order of the
-- patterns and the table of their statistics (pkg/discovery/reporter.go, pkg/discovery/tracker.go).
use ztre.Base.{
  GoString, text_eq, text_eq_iff, Bool, false, ◌&&◌, ◌||◌, none, some, List, [], ◌∷◌, ◌≡◌, refl,
  sym, ap, ◌∙◌, arith, if◌then◌else◌, Bool-cases, inl, inr, All,
}
use ztre.Base.Dict
use ztre.Base.Dict.{Dict}
use ztre.Base.FilePath.{base}
use ztre.Files.{decoded}
use ztre.Validator.{Allow, normal, suspicious, anomalous, load, classify}
use ztre.Base.Dict.Keys.{IsMap}
use ztre.Discovery.Tracker.{ExecutionPattern, BehaviorTracker, pattern_key}
use ztre.Discovery.Tracker.Entries.{IsEntry}
use ztre.Discovery.Reporter.{
  PatternStats, is_high_confidence, stats_of, get_stats, comes_before, insert_pattern, get_patterns,
  generate_whitelist,
}
use ztre.Discovery.Reporter.Grouping.{is_lineage, trusted, stats_for}
use ztre.Discovery.Reporter.Groups.{has_parent}
use ztre.Discovery.Reporter.Entries.{read_entries}
use ztre.Discovery.Reporter.Learned.{classify-generate_whitelist}

-- Some pattern of the tracker has the parent.
abbrev pub starts : Dict ExecutionPattern → GoString → Bool
starts [] parent = false
starts ((key, p) ∷ m) parent = text_eq p.parent_binary parent || starts m parent

-- Some pattern of the tracker is of the lineage and has high confidence.
abbrev pub learned : Dict ExecutionPattern → GoString → GoString → Bool
learned [] parent child = false
learned ((key, p) ∷ m) parent child =
    (is_lineage p parent child && is_high_confidence (some (stats_of p))) || learned m parent child

has_parent-insert_pattern :
    (p : ExecutionPattern) (ps : List ExecutionPattern) (parent : GoString)
    → has_parent (insert_pattern p ps) parent
      ≡ (text_eq p.parent_binary parent || has_parent ps parent)
unfolding insert_pattern
has_parent-insert_pattern p [] parent = refl
has_parent-insert_pattern p (q ∷ ps) parent = elim (Bool-cases (comes_before q p)) [
  | inl before ↦ rw before (ground (arith, has_parent-insert_pattern p ps parent))
  | inr after ↦ rw after refl
]

has_parent-get_patterns :
    (m : Dict ExecutionPattern) (parent : GoString)
    → has_parent (get_patterns m) parent ≡ starts m parent
unfolding get_patterns
has_parent-get_patterns [] parent = refl
has_parent-get_patterns ((k, p) ∷ m) parent =
    has_parent-insert_pattern p (get_patterns m) parent
    ∙ ap (λ b. text_eq p.parent_binary parent || b) (has_parent-get_patterns m parent)

trusted-insert_pattern :
    (stats : Dict PatternStats) (p : ExecutionPattern) (ps : List ExecutionPattern)
    (parent child : GoString)
    → trusted stats (insert_pattern p ps) parent child ≡ trusted stats (p ∷ ps) parent child
unfolding insert_pattern
trusted-insert_pattern stats p [] parent child = refl
trusted-insert_pattern stats p (q ∷ ps) parent child = elim (Bool-cases (comes_before q p)) [
  | inl before ↦ rw before (ground (arith, trusted-insert_pattern stats p ps parent child))
  | inr after ↦ rw after refl
]

-- The statistics of a pattern are found under its key.
abbrev IsFound : Dict PatternStats → GoString × ExecutionPattern → Type 0
IsFound stats (k, p) = stats_for stats p ≡ some (stats_of p)

trusted-get_patterns :
    (stats : Dict PatternStats) (m : Dict ExecutionPattern) (parent child : GoString)
    → All (IsFound stats) m
    → trusted stats (get_patterns m) parent child ≡ learned m parent child
unfolding get_patterns
trusted-get_patterns stats [] parent child h = refl
trusted-get_patterns stats ((k, p) ∷ m) parent child h =
    trusted-insert_pattern stats p (get_patterns m) parent child
    ∙ ap
        (λ o.
          (is_lineage p parent child && is_high_confidence o)
          || trusted stats (get_patterns m) parent child)
        h.0
    ∙ ap (λ b. (is_lineage p parent child && is_high_confidence (some (stats_of p))) || b)
        (trusted-get_patterns stats m parent child h.1)

get_stats-absent :
    (m : Dict ExecutionPattern) (k : GoString)
    → Dict.get m k ≡ none
    → Dict.get (get_stats m) k ≡ none
unfolding get_stats Dict.get
get_stats-absent [] k h = refl
get_stats-absent ((j, p) ∷ m) k h = elim (Bool-cases (text_eq j k)) [
  | inl same ↦ cc (rw same at h)
  | inr other ↦ rw other (get_stats-absent m k (rw other at h))
]

-- An entry found in a part of the table is found in the whole, where no key comes twice.
found_later :
    (k j : GoString) (s : PatternStats) (stats : Dict PatternStats) (t : PatternStats)
    → Dict.get stats j ≡ none
    → Dict.get stats k ≡ some t
    → Dict.get ((j, s) ∷ stats) k ≡ some t
unfolding Dict.get
found_later k j s stats t absent found = elim (Bool-cases (text_eq j k)) [
  | inl same ↦
      let e : Dict.get stats j ≡ Dict.get stats k =
        ap (Dict.get stats) ((text_eq_iff j k).0 same) in
      cc (sym absent ∙ (e ∙ found))
  | inr other ↦ rw other found
]

all-IsFound_later :
    (j : GoString) (s : PatternStats) (stats : Dict PatternStats) (m : Dict ExecutionPattern)
    → Dict.get stats j ≡ none
    → All (IsFound stats) m
    → All (IsFound ((j, s) ∷ stats)) m
all-IsFound_later j s stats [] absent h = tt
all-IsFound_later j s stats ((k, p) ∷ m) absent h = (
  found_later (pattern_key p.namespace p.workload_name p.parent_binary p.child_binary) j s stats
      (stats_of p) absent h.0,
  all-IsFound_later j s stats m absent h.1,
)

get-head :
    (k j : GoString) (s : PatternStats) (stats : Dict PatternStats)
    → k ≡ j
    → Dict.get ((k, s) ∷ stats) j ≡ some s
unfolding Dict.get
get-head k j s stats e = rw ((text_eq_iff k j).1 e) refl

get_stats-IsFound :
    (m : Dict ExecutionPattern) → IsMap m → All IsEntry m → All (IsFound (get_stats m)) m
unfolding get_stats
get_stats-IsFound [] d h = tt
get_stats-IsFound ((k, p) ∷ m) d h = (
  get-head k (pattern_key p.namespace p.workload_name p.parent_binary p.child_binary) (stats_of p)
      (get_stats m) h.0.keyed,
  all-IsFound_later k (stats_of p) (get_stats m) m (get_stats-absent m k d.0)
      (get_stats-IsFound m d.1 h.1),
)

-- The discovery's whitelist, loaded by the validator, classifies as the baseline was learned, whatever
-- the validator held before: SUSPICIOUS if no pattern has the parent's base name, NORMAL if some pattern
-- of the two base names, in some namespace and workload, has the confidence that is asked for, and
-- ANOMALOUS otherwise. The tracker's entries are well formed, with no key twice.
pub classify-learned :
    (bt : BehaviorTracker) (allow : Allow) (parent child : GoString)
    → IsMap bt.patterns
    → All IsEntry bt.patterns
    → classify (load allow (decoded (read_entries (generate_whitelist bt)))).0 parent child ≡ (
        if starts bt.patterns (base parent)
        then (if learned bt.patterns (base parent) (base child) then normal else anomalous)
        else suspicious)
classify-learned bt allow parent child d h =
    let m = bt.patterns in
    classify-generate_whitelist bt allow parent child h
    ∙ ap
        (λ b.
          if b
          then (if trusted (get_stats m) (get_patterns m) (base parent) (base child)
              then normal
              else anomalous)
          else suspicious)
        (has_parent-get_patterns m (base parent))
    ∙ ap (λ b. if starts m (base parent) then (if b then normal else anomalous) else suspicious)
        (trusted-get_patterns (get_stats m) m (base parent) (base child) (get_stats-IsFound m d h))
