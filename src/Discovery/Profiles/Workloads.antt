-- ===== src/Discovery/Profiles/Workloads.antt =====
-- What a profile says of its workload (pkg/discovery/tracker.go, `GetProfiles`).
use ztre.Base.{
  ℕ, ◌+◌, ◌%◌, ◌^◌, GoString, text_eq, text_eq_iff, Bool, true, false, ◌||◌, Option, none, some,
  List, [], ◌∷◌, ◌++◌, ◌≡◌, refl, ap, arith, if◌then◌else◌, inl, inr, Bool-cases, is_some,
}
use mathlib.Core.List.{append-nil, append_assoc}
use ztre.Base.Dict
use ztre.Base.Dict.{Dict}
use ztre.Base.Dict.Keys.{IsMap, put-IsMap}
use ztre.Discovery.Tracker.{ExecutionPattern}
use ztre.Discovery.Profiles.{Draft, workload_key, draft_or_new, add_pattern, draft_profiles}

-- The patterns of the workload with the key.
abbrev pub of_workload : GoString → Dict ExecutionPattern → List ExecutionPattern
of_workload w [] = []
of_workload w ((key, p) ∷ rest) =
    let others = of_workload w rest in if text_eq (workload_key p) w then p ∷ others else others

abbrev pub total_count : List ExecutionPattern → ℕ
total_count [] = 0
total_count (p ∷ ps) = p.count + total_count ps

-- The binary is the parent or the child of some pattern.
abbrev pub runs : List ExecutionPattern → GoString → Bool
runs [] b = false
runs (p ∷ ps) b = text_eq p.parent_binary b || text_eq p.child_binary b || runs ps b

-- A draft sums up the patterns of its workload.
pub record Describes (d : Draft) (ps : List ExecutionPattern) : Type 0 where
  pub patterns : d.profile.patterns ≡ ps
  pub total : d.profile.total_events ≡ total_count ps % 2 ^ 64
  pub binaries : (b : GoString) → is_some (Dict.get d.binaries b) ≡ runs ps b
  pub distinct : IsMap d.binaries

abbrev pub Covers : Option Draft → List ExecutionPattern → Type 0
Covers none ps = ps ≡ []
Covers (some d) ps = Describes d ps

total-append :
    (ps qs : List ExecutionPattern) → total_count (ps ++ qs) ≡ total_count ps + total_count qs
total-append [] qs = omega arith
total-append (p ∷ ps) qs = omega (arith, total-append ps qs)

runs-append :
    (ps qs : List ExecutionPattern) (b : GoString) → runs (ps ++ qs) b ≡ (runs ps b || runs qs b)
runs-append [] qs b = refl
runs-append (p ∷ ps) qs b = ground (arith, runs-append ps qs b)

add_pattern-Describes :
    (d : Draft) (ps : List ExecutionPattern) (p : ExecutionPattern)
    → Describes d ps
    → Describes (add_pattern d p) (ps ++ (p ∷ []))
add_pattern-Describes d ps p h = record {
  patterns = ap (λ qs. qs ++ (p ∷ [])) h.patterns;
  total = omega (arith, h.total, total-append ps (p ∷ []));
  binaries = λ b. ground (
    arith,
    h.binaries b,
    runs-append ps (p ∷ []) b,
    Dict.get-put (Dict.put d.binaries p.parent_binary true) p.child_binary b true,
    Dict.get-put d.binaries p.parent_binary b true,
  );
  distinct =
      put-IsMap (Dict.put d.binaries p.parent_binary true) p.child_binary true
        (put-IsMap d.binaries p.parent_binary true h.distinct);
}

add_to-Describes :
    (o : Option Draft) (ps : List ExecutionPattern) (p : ExecutionPattern)
    → Covers o ps
    → Describes (add_pattern (draft_or_new p o) p) (ps ++ (p ∷ []))
add_to-Describes none ps p h = rw h (
    add_pattern-Describes (draft_or_new p none) [] p (record {
      patterns = refl;
      total = refl;
      binaries = λ b. unfold Dict.get in refl;
      distinct = tt;
    }))
add_to-Describes (some d) ps p h = add_pattern-Describes d ps p h

draft_profiles-Covers :
    (drafts : Dict Draft) (m : Dict ExecutionPattern) (w : GoString) (done : List ExecutionPattern)
    → Covers (Dict.get drafts w) done
    → Covers (Dict.get (draft_profiles drafts m) w) (done ++ of_workload w m)
unfolding draft_profiles
draft_profiles-Covers drafts [] w done h = rw (append-nil done) h
draft_profiles-Covers drafts ((key, p) ∷ m) w done h =
    let k = workload_key p in
    let d = add_pattern (draft_or_new p (Dict.get drafts k)) p in
    elim (Bool-cases (text_eq k w)) [
      | inl same ↦
          let e : k ≡ w = (text_eq_iff k w).0 same in
          let here : Covers (Dict.get (Dict.put drafts k d) w) (done ++ (p ∷ [])) =
            rw (Dict.get-put drafts k w d, same)
              (add_to-Describes (Dict.get drafts k) done p (rw e h)) in
          rw (same, ← append_assoc done (p ∷ []) (of_workload w m))
            (draft_profiles-Covers (Dict.put drafts k d) m w (done ++ (p ∷ [])) here)
      | inr other ↦ rw other (
          draft_profiles-Covers (Dict.put drafts k d) m w done
            (rw (Dict.get-put drafts k w d, other) h))
    ]

-- The profiles partition the patterns: under the key of a namespace and a workload there is no profile if no
-- pattern has that key, and otherwise one that holds exactly the patterns with the key, whose total is the sum
-- of their counts (modulo 2^64) and whose set of binaries has, once each, the parents and children of these patterns.
pub draft_profiles_exact :
    (m : Dict ExecutionPattern) (w : GoString)
    → Covers (Dict.get (draft_profiles [] m) w) (of_workload w m)
draft_profiles_exact m w = draft_profiles-Covers [] m w [] (unfold Dict.get in refl)
