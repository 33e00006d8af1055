-- ===== src/Discovery/Profiles/Examples.antt =====
-- Profiles of two workloads (pkg/discovery/tracker.go, `GetProfiles`).
use ztre.Base.{ℕ, GoString, lit, text_eq, text_lt, [], ◌∷◌, map, ◌≡◌, refl}
use ztre.Base.Dict
use ztre.Base.Dict.{Dict}
use ztre.Discovery.Tracker.{ExecutionPattern}
use ztre.Discovery.Profiles.{
  LineageProfile, workload_key, draft_profiles, place_pattern, sort_patterns, finish_profile,
  place_profile, finish_all, get_profiles,
}
use ztre.Discovery.Profiles.Workloads.{of_workload, Covers, draft_profiles_exact}

abbrev ran : GoString → GoString → GoString → ℕ → ExecutionPattern
ran workload parent child count = record {
  parent_binary = parent;
  child_binary = child;
  namespace = lit "shop";
  workload_name = workload;
  count = count;
  first_seen = 1;
  last_seen = 2;
  nodes = [];
}

abbrev patterns : Dict ExecutionPattern
patterns =
    (lit "1", ran (lit "web") (lit "nginx") (lit "sh") 3)
    ∷ (lit "2", ran (lit "db") (lit "postgres") (lit "sh") 1)
    ∷ (lit "3", ran (lit "web") (lit "nginx") (lit "cat") 4)
    ∷ []

abbrev counts : LineageProfile → GoString × (ℕ × ℕ)
counts a = (a.workload_name, (a.total_events, a.unique_processes))

two_profiles : map counts (get_profiles patterns) ≡ (lit "db", (1, 2)) ∷ (lit "web", (7, 3)) ∷ []
unfolding get_profiles draft_profiles finish_all finish_profile place_profile sort_patterns
    place_pattern workload_key text_eq text_lt Dict.get Dict.put
two_profiles = refl

draft_profiles_exact_example :
    Covers
      (Dict.get (draft_profiles [] patterns) (lit "shop/web"))
      (of_workload (lit "shop/web") patterns)
draft_profiles_exact_example = draft_profiles_exact patterns (lit "shop/web")
