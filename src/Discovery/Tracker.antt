-- ===== src/Discovery/Tracker.antt =====
-- pkg/discovery/tracker.go: the patterns of parents and children, keyed by workload. The lock makes
-- each method one step, and the methods that read hand out copies.
pub mod Keys
pub mod Counts
pub mod Totals
pub mod Entries
pub mod Restored
mod Examples
use ztre.Base.{
  ℕ, zero, suc, ◌+◌, ◌%◌, ◌^◌, ltb, ◌==◌, GoString, lit, text_eq, is_empty, Bool, true, false, not,
  ◌&&◌, ◌||◌, Option, none, some, List, [], ◌∷◌, ◌++◌, length, if◌then◌else◌,
}
use ztre.Base.Dict
use ztre.Base.Dict.{Dict}
use ztre.Base.FilePath.{base}
use ztre.Collector.Event.{SecurityEvent, EventType, execve, exit, file_access, kprobe, unknown}

-- Times are in nanoseconds since Go's zero time. `count` is a uint64.
pub record ExecutionPattern : Type 0 where
  pub parent_binary : GoString
  pub child_binary : GoString
  pub namespace : GoString
  pub workload_name : GoString
  pub count : ℕ
  pub first_seen : ℕ
  pub last_seen : ℕ
  pub nodes : List GoString

-- `total_events` is a uint64; `patterns_total` is the metric DiscoveryPatternsTotal.
pub record BehaviorTracker : Type 0 where
  pub patterns : Dict ExecutionPattern
  pub started : ℕ
  pub session_started : ℕ
  pub last_new_pattern : ℕ
  pub total_events : ℕ
  pub patterns_total : ℕ

abbrev pub new_tracker : ℕ → BehaviorTracker
new_tracker now = record {
  patterns = [];
  started = now;
  session_started = now;
  last_new_pattern = now;
  total_events = 0;
  patterns_total = 0;
}

-- fmt.Sprintf("%s/%s/%s→%s", …)
unfoldable pub pattern_key : GoString → GoString → GoString → GoString → GoString
pattern_key namespace workload parent child =
    namespace ++ (lit "/" ++ (workload ++ (lit "/" ++ (parent ++ (lit "→" ++ child)))))

abbrev pub is_execve : EventType → Bool
is_execve execve = true
is_execve exit = false
is_execve file_access = false
is_execve kprobe = false
is_execve unknown = false

-- The names that are no lineage.
unfoldable pub is_nameless : GoString → Bool
is_nameless name = text_eq name [] || text_eq name (lit ".") || text_eq name (lit "/")

unfoldable pub contains_str : List GoString → GoString → Bool
contains_str [] s = false
contains_str (v ∷ rest) s = text_eq v s || contains_str rest s

abbrev node_list : GoString → List GoString
node_list node = if is_empty node then [] else node ∷ []

abbrev add_node : List GoString → GoString → List GoString
add_node nodes node =
    if not (is_empty node) && not (contains_str nodes node) then nodes ++ (node ∷ []) else nodes

-- A pattern that is seen again.
unfoldable pub see_again : ExecutionPattern → ℕ → GoString → ExecutionPattern
see_again pat now node = record pat {
  count = (pat.count + 1) % 2 ^ 64;
  first_seen = if ltb now pat.first_seen then now else pat.first_seen;
  last_seen = if ltb pat.last_seen now then now else pat.last_seen;
  nodes = add_node pat.nodes node;
}

unfoldable pub first_sight : GoString → GoString → SecurityEvent → ℕ → ExecutionPattern
first_sight parent child event now = record {
  parent_binary = parent;
  child_binary = child;
  namespace = event.namespace;
  workload_name = event.workload_name;
  count = 1;
  first_seen = now;
  last_seen = now;
  nodes = node_list event.node_name;
}

abbrev or_now : ℕ → ℕ → ℕ
or_now timestamp now = if timestamp == 0 then now else timestamp

abbrev pub record_lineage :
    BehaviorTracker
    → GoString
    → ExecutionPattern
    → Option ExecutionPattern
    → ℕ
    → GoString
    → ℕ
    → BehaviorTracker
record_lineage bt key fresh none now node wall = record bt {
  patterns = Dict.put bt.patterns key fresh;
  last_new_pattern = wall;
  patterns_total = bt.patterns_total + 1;
}
record_lineage bt key fresh (some pat) now node wall = record bt {
  patterns = Dict.put bt.patterns key (see_again pat now node);
}

-- `Track`, with the two readings of the clock: for an event without a time, and for a new pattern.
unfoldable pub track : BehaviorTracker → Option SecurityEvent → ℕ → ℕ → BehaviorTracker
track bt none clock wall = bt
track bt (some event) clock wall =
    let counted = record bt { total_events = (bt.total_events + 1) % 2 ^ 64 } in
    let parent = base event.parent_binary in
    let child = base event.binary in
    let key = pattern_key event.namespace event.workload_name parent child in
    let now = or_now event.timestamp clock in
    if not (is_execve event.event_type)
    then counted
    else if is_nameless parent || is_nameless child
    then counted
    else record_lineage counted key (first_sight parent child event now) (Dict.get bt.patterns key)
        now event.node_name wall

unfoldable pub put_all {ℓ} : {V : Type ℓ} → Dict V → Dict V → Dict V
put_all m [] = m
put_all m ((k, p) ∷ rest) = put_all (Dict.put m k p) rest

unfoldable pub load_patterns : BehaviorTracker → Dict ExecutionPattern → ℕ → ℕ → ℕ → BehaviorTracker
unfolding put_all
load_patterns bt patterns total_events last_new started = record bt {
  patterns = put_all bt.patterns patterns;
  total_events = total_events;
  last_new_pattern = if last_new == 0 then bt.last_new_pattern else last_new;
  started = if started == 0 then bt.started else started;
}

abbrev pub unique_pattern_count : BehaviorTracker → ℕ
unique_pattern_count bt = length bt.patterns
