-- ===== src/Discovery/Reporter/Groups.antt =====
-- What every group of the loop over the patterns satisfies (pkg/discovery/reporter.go).
use ztre.Base.{
  GoString, text_eq, Bool, true, false, ◌||◌, Option, List, [], ◌∷◌, ◌≡◌, refl, arith, if_both,
  Option-cases, inl, inr, is_some, All,
}
use ztre.Base.Dict
use ztre.Base.Dict.{Dict}
use ztre.Base.Dict.Keys.{IsMap, put-IsMap}
use ztre.Base.FilePath.{base}
use ztre.Discovery.Tracker.{ExecutionPattern}
use ztre.Discovery.Reporter.{
  PatternStats, ParentGroup, group_or_new, is_high_confidence, judge, group_patterns,
}
use ztre.Discovery.Reporter.Grouping.{stats_for}
use ztre.Discovery.Reporter.Entries.{IsChild, IsGroup}

-- Some pattern has the parent.
abbrev pub has_parent : List ExecutionPattern → GoString → Bool
has_parent [] parent = false
has_parent (p ∷ ps) parent = text_eq p.parent_binary parent || has_parent ps parent

abbrev pub HasBases : ExecutionPattern → Type 0
HasBases p = (base p.parent_binary ≡ p.parent_binary) × (base p.child_binary ≡ p.child_binary)

judge-IsChild :
    (g : ParentGroup) (s : Option PatternStats) (p : ExecutionPattern)
    → HasBases p
    → All IsChild g.allowed_children
    → All IsChild (judge g s p).allowed_children
unfolding judge
judge-IsChild g s p b h =
    if_both (λ (x : ParentGroup). All IsChild x.allowed_children) (is_high_confidence s)
      (Dict.All-put IsChild g.allowed_children p.child_binary true h (b.1, refl)) h

group_or_new-IsChild :
    (groups : Dict ParentGroup) (k : GoString)
    → All IsGroup groups
    → All IsChild (group_or_new (Dict.get groups k)).allowed_children
group_or_new-IsChild groups k h = elim (Option-cases (Dict.get groups k)) [
  | inl absent ↦ rw absent tt
  | inr (g, present) ↦ rw present (Dict.All-get IsGroup groups k g h present).1
]

pub group_patterns-IsGroup :
    (stats : Dict PatternStats) (groups : Dict ParentGroup) (ps : List ExecutionPattern)
    → All HasBases ps
    → All IsGroup groups
    → IsMap groups
    → All IsGroup (group_patterns stats groups ps) × IsMap (group_patterns stats groups ps)
unfolding group_patterns
group_patterns-IsGroup stats groups [] b h k = (h, k)
group_patterns-IsGroup stats groups (p ∷ ps) b h k =
    let g = judge (group_or_new (Dict.get groups p.parent_binary)) (stats_for stats p) p in
    group_patterns-IsGroup stats (Dict.put groups p.parent_binary g) ps b.1
      (Dict.All-put IsGroup groups p.parent_binary g h (
        b.0.0,
        judge-IsChild (group_or_new (Dict.get groups p.parent_binary)) (stats_for stats p) p b.0
            (group_or_new-IsChild groups p.parent_binary h),
      ))
      (put-IsMap groups p.parent_binary g k)

pub group_patterns-known :
    (stats : Dict PatternStats) (groups : Dict ParentGroup) (ps : List ExecutionPattern)
    (parent : GoString)
    → is_some (Dict.get (group_patterns stats groups ps) parent)
      ≡ (is_some (Dict.get groups parent) || has_parent ps parent)
unfolding group_patterns
group_patterns-known stats groups [] parent = ground arith
group_patterns-known stats groups (p ∷ ps) parent =
    let g = judge (group_or_new (Dict.get groups p.parent_binary)) (stats_for stats p) p in
    ground (
      arith,
      Dict.get-put groups p.parent_binary parent g,
      group_patterns-known stats (Dict.put groups p.parent_binary g) ps parent,
    )
