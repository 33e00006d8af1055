-- ===== src/Discovery/Reporter/Examples.antt =====
-- A run of the whitelist's generation, and an instance of its theorem (pkg/discovery/reporter.go).
use ztre.Base.{
  ℕ, ◌*◌, GoString, lit, text_eq, text_lt, true, false, not, ◌&&◌, [], ◌∷◌, ◌++◌, ◌≡◌, refl, All,
  arith, ◌≤◌,
}
use ztre.Base.Dict
use ztre.Base.Dict.{Dict}
use ztre.Base.Sorting.{sort_texts, insert}
use ztre.Config.{hour}
use ztre.Base.FilePath.{base}
use ztre.Base.Dict.Keys.{IsMap}
use ztre.Discovery.Tracker.Entries.{IsEntry}
use ztre.Discovery.Tracker.{
  ExecutionPattern, BehaviorTracker, new_tracker, pattern_key, is_nameless,
}
use ztre.Discovery.Baseline.{since}
use ztre.Discovery.Reporter.{
  compute_confidence, stats_of, get_stats, comes_before, insert_pattern, get_patterns, judge,
  group_patterns, entry_of, insert_entry, build_entries, generate_whitelist,
}
use ztre.Discovery.Reporter.Grouping.{allows, holds_back, seen, trusted, group_patterns_exact}

abbrev pattern : GoString → GoString → ℕ → ℕ → GoString × ExecutionPattern
pattern namespace child count last = (
  namespace ++ (lit "/web/nginx→" ++ child),
  record {
    parent_binary = lit "nginx";
    child_binary = child;
    namespace = namespace;
    workload_name = lit "web";
    count = count;
    first_seen = 10;
    last_seen = last;
    nodes = [];
  },
)

abbrev patterns : Dict ExecutionPattern
patterns =
    pattern (lit "shop") (lit "sh") 2 20
    ∷ pattern (lit "shop") (lit "php") 120 (2 * hour)
    ∷ pattern (lit "blog") (lit "php") 4 20
    ∷ []

abbrev baseline : BehaviorTracker
baseline = record (new_tracker 10) { patterns = patterns }

pattern-IsEntry :
    (namespace child : GoString) (count last : ℕ)
    → base child ≡ child
    → is_nameless child ≡ false
    → 10 ≤ last
    → IsEntry (pattern namespace child count last)
unfolding base is_nameless pattern_key text_eq
pattern-IsEntry namespace child count last own named late = record {
  keyed = refl;
  parent_base = refl;
  child_base = own;
  parent_named = refl;
  child_named = named;
  in_time = late;
  nodes_distinct = refl;
}

patterns-IsEntry : All IsEntry patterns
unfolding base is_nameless text_eq
patterns-IsEntry = (
  pattern-IsEntry (lit "shop") (lit "sh") 2 20 refl refl (omega arith),
  (
    pattern-IsEntry (lit "shop") (lit "php") 120 (2 * hour) refl refl (omega arith),
    (pattern-IsEntry (lit "blog") (lit "php") 4 20 refl refl (omega arith), tt),
  ),
)

patterns-IsMap : IsMap patterns
unfolding Dict.get text_eq
patterns-IsMap = (refl, (refl, (refl, tt)))

generated :
    generate_whitelist baseline
    ≡ record {
      parent = lit "nginx";
      allowed_children = lit "php" ∷ [];
      quarantined_candidates = lit "sh" ∷ [];
      confidence = 990;
      source = lit "auto-discovered";
      observed_count = 126;
      review_flag = true;
    }
      ∷ []
unfolding generate_whitelist get_patterns insert_pattern comes_before get_stats stats_of since
    compute_confidence group_patterns judge pattern_key build_entries entry_of insert_entry
    sort_texts insert text_lt text_eq Dict.get Dict.put Dict.remove
generated = refl

group_patterns_exact_example :
    let ps = get_patterns patterns in
    let groups = group_patterns (get_stats patterns) [] ps in
    (allows groups (lit "nginx") (lit "sh")
      ≡ trusted (get_stats patterns) ps (lit "nginx") (lit "sh"))
    × (holds_back groups (lit "nginx") (lit "sh") ≡ (
        seen ps (lit "nginx") (lit "sh")
        && not (trusted (get_stats patterns) ps (lit "nginx") (lit "sh"))))
group_patterns_exact_example =
    group_patterns_exact (get_stats patterns) (get_patterns patterns) (lit "nginx") (lit "sh")
