-- ===== src/Discovery/Reporter.antt =====
-- pkg/discovery/reporter.go: the whitelist that the baseline becomes, with the statistics of
-- pkg/discovery/tracker.go that it rests on. A confidence is one of the literals of the source, in
-- thousandths; the frequencies, percentiles and z-scores only stand in the report.
pub mod Grouping
pub mod Entries
pub mod Groups
pub mod Learned
pub mod Baselines
mod Examples
use ztre.Base.{
  ℕ, ℤ, pos, ltb_ℤ, ◌+◌, ◌*◌, ◌%◌, ◌^◌, ltb, leb, ◌==◌, GoString, lit, text_eq, text_lt, Bool, true,
  false, not, ◌&&◌, ◌||◌, Option, none, some, List, [], ◌∷◌, map, length, if◌then◌else◌,
}
use ztre.Base.Dict
use ztre.Base.Dict.{Dict}
use ztre.Base.Sorting.{sort_texts}
use ztre.Config.{hour}
use ztre.Discovery.Tracker.{ExecutionPattern, BehaviorTracker, pattern_key}
use ztre.Discovery.Baseline.{since}

pub record PatternStats : Type 0 where
  pub is_burst : Bool
  pub is_recurring : Bool
  pub is_cross_node : Bool
  pub confidence : ℕ
  pub review_flag : Bool

unfoldable pub compute_confidence : ℕ → Bool → ℕ
compute_confidence count is_recurring =
    if leb 100 count && is_recurring
    then 990
    else if leb 50 count && is_recurring
    then 950
    else if leb 10 count && is_recurring
    then 850
    else if leb 10 count
    then 700
    else if leb 3 count
    then 500
    else 300

abbrev pub minute : ℕ
minute = 60000000000

unfoldable pub stats_of : ExecutionPattern → PatternStats
unfolding since compute_confidence
stats_of p =
    let lifespan = since p.last_seen p.first_seen in
    let is_recurring = ltb_ℤ (pos hour) lifespan in
    let confidence = compute_confidence p.count is_recurring in
    record {
      is_burst = ltb_ℤ lifespan (pos (5 * minute)) && ltb 1 p.count;
      is_recurring = is_recurring;
      is_cross_node = ltb 1 (length p.nodes);
      confidence = confidence;
      review_flag = ltb confidence 700;
    }

-- `GetStats`, under the keys of the patterns.
unfoldable pub get_stats : Dict ExecutionPattern → Dict PatternStats
unfolding stats_of
get_stats [] = []
get_stats ((key, p) ∷ rest) = (key, stats_of p) ∷ get_stats rest

-- The order of `GetPatterns`.
unfoldable pub comes_before : ExecutionPattern → ExecutionPattern → Bool
comes_before p q =
    if not (text_eq p.namespace q.namespace)
    then text_lt p.namespace q.namespace
    else if not (text_eq p.workload_name q.workload_name)
    then text_lt p.workload_name q.workload_name
    else if not (text_eq p.parent_binary q.parent_binary)
    then text_lt p.parent_binary q.parent_binary
    else text_lt p.child_binary q.child_binary

unfoldable pub insert_pattern : ExecutionPattern → List ExecutionPattern → List ExecutionPattern
unfolding comes_before
insert_pattern p [] = p ∷ []
insert_pattern p (q ∷ qs) =
    let rest = insert_pattern p qs in if comes_before q p then q ∷ rest else p ∷ (q ∷ qs)

-- `GetPatterns`
unfoldable pub get_patterns : Dict ExecutionPattern → List ExecutionPattern
unfolding insert_pattern
get_patterns [] = []
get_patterns ((key, p) ∷ rest) = insert_pattern p (get_patterns rest)

-- `parentGroup`; `total_count` is a uint64.
pub record ParentGroup : Type 0 where
  pub allowed_children : Dict Bool
  pub quarantined_children : Dict Bool
  pub total_count : ℕ
  pub min_allowed_confidence : ℕ
  pub has_allowed : Bool
  pub has_quarantined : Bool

abbrev pub new_group : ParentGroup
new_group = record {
  allowed_children = [];
  quarantined_children = [];
  total_count = 0;
  min_allowed_confidence = 1000;
  has_allowed = false;
  has_quarantined = false;
}

abbrev pub group_or_new : Option ParentGroup → ParentGroup
group_or_new none = new_group
group_or_new (some g) = g

-- `children[child]` on a map[string]bool.
abbrev pub holds : Option Bool → Bool
holds none = false
holds (some b) = b

-- `s != nil && s.Confidence >= 0.85 && !s.ReviewFlag`
abbrev pub is_high_confidence : Option PatternStats → Bool
is_high_confidence none = false
is_high_confidence (some s) = leb 850 s.confidence && not s.review_flag

abbrev pub allow : ParentGroup → GoString → ℕ → ParentGroup
allow g child confidence =
    let lower = not g.has_allowed || ltb confidence g.min_allowed_confidence in
    record g {
      allowed_children = Dict.put g.allowed_children child true;
      quarantined_children = Dict.remove g.quarantined_children child;
      min_allowed_confidence = if lower then confidence else g.min_allowed_confidence;
      has_allowed = if lower then true else g.has_allowed;
    }

abbrev pub hold_back : ParentGroup → GoString → ParentGroup
hold_back g child = record g {
  quarantined_children =
      if not (holds (Dict.get g.allowed_children child))
      then Dict.put g.quarantined_children child true
      else g.quarantined_children;
  has_quarantined = true;
}

abbrev pub confidence_of : Option PatternStats → ℕ
confidence_of none = 0
confidence_of (some s) = s.confidence

-- What a pattern does to its parent's group.
unfoldable pub judge : ParentGroup → Option PatternStats → ExecutionPattern → ParentGroup
judge g s p =
    let counted : ParentGroup = record g { total_count = (g.total_count + p.count) % 2 ^ 64 } in
    if is_high_confidence s
    then allow counted p.child_binary (confidence_of s)
    else hold_back counted p.child_binary

-- The loop over the patterns.
unfoldable pub group_patterns :
    Dict PatternStats → Dict ParentGroup → List ExecutionPattern → Dict ParentGroup
unfolding judge pattern_key
group_patterns stats groups [] = groups
group_patterns stats groups (p ∷ ps) =
    let key = pattern_key p.namespace p.workload_name p.parent_binary p.child_binary in
    let g = group_or_new (Dict.get groups p.parent_binary) in
    group_patterns stats (Dict.put groups p.parent_binary (judge g (Dict.get stats key) p)) ps

pub record WhitelistEntry : Type 0 where
  pub parent : GoString
  pub allowed_children : List GoString
  pub quarantined_candidates : List GoString
  pub confidence : ℕ
  pub source : GoString
  pub observed_count : ℕ
  pub review_flag : Bool

abbrev pub keys : Dict Bool → List GoString
keys [] = []
keys ((k, b) ∷ rest) = k ∷ keys rest

unfoldable pub entry_of : GoString → ParentGroup → WhitelistEntry
unfolding sort_texts
entry_of parent g =
    let quarantined = sort_texts (keys g.quarantined_children) in
    let confidence = if g.has_allowed then g.min_allowed_confidence else 0 in
    record {
      parent = parent;
      allowed_children = sort_texts (keys g.allowed_children);
      quarantined_candidates = quarantined;
      confidence = confidence;
      source = lit "auto-discovered";
      observed_count = g.total_count;
      review_flag =
          g.has_quarantined
          || ltb 0 (length quarantined)
          || not g.has_allowed
          || ltb confidence 700;
    }

-- Confidence descending, then the parent's name.
abbrev pub ranks_before : WhitelistEntry → WhitelistEntry → Bool
ranks_before e d =
    if not (e.confidence == d.confidence)
    then ltb d.confidence e.confidence
    else text_lt e.parent d.parent

unfoldable pub insert_entry : WhitelistEntry → List WhitelistEntry → List WhitelistEntry
insert_entry e [] = e ∷ []
insert_entry e (d ∷ ds) =
    let rest = insert_entry e ds in if ranks_before d e then d ∷ rest else e ∷ (d ∷ ds)

unfoldable pub build_entries : Dict ParentGroup → List WhitelistEntry
unfolding entry_of insert_entry
build_entries [] = []
build_entries ((parent, g) ∷ rest) = insert_entry (entry_of parent g) (build_entries rest)

-- The lineages of `GenerateWhitelist`.
unfoldable pub generate_whitelist : BehaviorTracker → List WhitelistEntry
unfolding get_patterns get_stats group_patterns build_entries
generate_whitelist bt =
    build_entries (group_patterns (get_stats bt.patterns) [] (get_patterns bt.patterns))
