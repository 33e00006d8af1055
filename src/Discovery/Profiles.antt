-- ===== src/Discovery/Profiles.antt =====
-- pkg/discovery/tracker.go, `GetProfiles`: the patterns by workload.
pub mod Workloads
mod Examples
use ztre.Base.{
  ℕ, ◌+◌, ◌%◌, ◌^◌, GoString, lit, text_eq, text_lt, Bool, true, false, not, Option, none, some,
  List, [], ◌∷◌, ◌++◌, length, if◌then◌else◌,
}
use ztre.Base.Dict
use ztre.Base.Dict.{Dict}
use ztre.Discovery.Tracker.{ExecutionPattern}

-- `total_events` is a uint64. No code sets `workload_kind`.
pub record LineageProfile : Type 0 where
  pub namespace : GoString
  pub workload_name : GoString
  pub workload_kind : GoString
  pub patterns : List ExecutionPattern
  pub total_events : ℕ
  pub unique_processes : ℕ

-- A profile in the making, with its set of binaries.
pub record Draft : Type 0 where
  pub profile : LineageProfile
  pub binaries : Dict Bool

-- fmt.Sprintf("%s/%s", p.Namespace, p.WorkloadName)
unfoldable pub workload_key : ExecutionPattern → GoString
workload_key p = p.namespace ++ (lit "/" ++ p.workload_name)

abbrev pub draft_or_new : ExecutionPattern → Option Draft → Draft
draft_or_new p none = record {
  profile = record {
    namespace = p.namespace;
    workload_name = p.workload_name;
    workload_kind = [];
    patterns = [];
    total_events = 0;
    unique_processes = 0;
  };
  binaries = [];
}
draft_or_new p (some d) = d

abbrev pub add_pattern : Draft → ExecutionPattern → Draft
add_pattern d p =
    let prof = d.profile in
    record {
      profile = record prof {
        patterns = prof.patterns ++ (p ∷ []);
        total_events = (prof.total_events + p.count) % 2 ^ 64;
      };
      binaries = Dict.put (Dict.put d.binaries p.parent_binary true) p.child_binary true;
    }

-- The loop over the patterns.
unfoldable pub draft_profiles : Dict Draft → Dict ExecutionPattern → Dict Draft
unfolding workload_key
draft_profiles drafts [] = drafts
draft_profiles drafts ((key, p) ∷ rest) =
    let d = draft_or_new p (Dict.get drafts (workload_key p)) in
    draft_profiles (Dict.put drafts (workload_key p) (add_pattern d p)) rest

-- The order of a profile's patterns.
abbrev pub starts_before : ExecutionPattern → ExecutionPattern → Bool
starts_before p q =
    if not (text_eq p.parent_binary q.parent_binary)
    then text_lt p.parent_binary q.parent_binary
    else text_lt p.child_binary q.child_binary

unfoldable pub place_pattern : ExecutionPattern → List ExecutionPattern → List ExecutionPattern
place_pattern p [] = p ∷ []
place_pattern p (q ∷ qs) =
    let rest = place_pattern p qs in if starts_before q p then q ∷ rest else p ∷ (q ∷ qs)

unfoldable pub sort_patterns : List ExecutionPattern → List ExecutionPattern
unfolding place_pattern
sort_patterns [] = []
sort_patterns (p ∷ ps) = place_pattern p (sort_patterns ps)

unfoldable pub finish_profile : Draft → LineageProfile
unfolding sort_patterns
finish_profile d = record d.profile {
  patterns = sort_patterns d.profile.patterns;
  unique_processes = length d.binaries;
}

abbrev pub profile_before : LineageProfile → LineageProfile → Bool
profile_before a b =
    if not (text_eq a.namespace b.namespace)
    then text_lt a.namespace b.namespace
    else text_lt a.workload_name b.workload_name

unfoldable pub place_profile : LineageProfile → List LineageProfile → List LineageProfile
place_profile a [] = a ∷ []
place_profile a (b ∷ bs) =
    let rest = place_profile a bs in if profile_before b a then b ∷ rest else a ∷ (b ∷ bs)

unfoldable pub finish_all : Dict Draft → List LineageProfile
unfolding finish_profile place_profile
finish_all [] = []
finish_all ((key, d) ∷ rest) = place_profile (finish_profile d) (finish_all rest)

-- `GetProfiles`
unfoldable pub get_profiles : Dict ExecutionPattern → List LineageProfile
unfolding draft_profiles finish_all
get_profiles patterns = finish_all (draft_profiles [] patterns)
