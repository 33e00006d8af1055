-- ===== src/Discovery/Reporter/Grouping.antt =====
-- Which children a parent's group allows and which it holds back (pkg/discovery/reporter.go).
use ztre.Base.{
  GoString, text_eq, text_eq_iff, Bool, true, false, not, ◌&&◌, ◌||◌, Option, List, [], ◌∷◌, ◌≡◌,
  refl, ap, ◌∙◌, arith, if◌then◌else◌, Bool-cases, inl, inr,
}
use ztre.Base.Dict
use ztre.Base.Dict.{Dict}
use ztre.Discovery.Tracker.{ExecutionPattern, pattern_key}
use ztre.Discovery.Reporter.{
  PatternStats, ParentGroup, group_or_new, holds, is_high_confidence, judge, group_patterns,
}

abbrev pub stats_for : Dict PatternStats → ExecutionPattern → Option PatternStats
stats_for stats p =
    Dict.get stats (pattern_key p.namespace p.workload_name p.parent_binary p.child_binary)

abbrev pub is_lineage : ExecutionPattern → GoString → GoString → Bool
is_lineage p parent child = text_eq p.parent_binary parent && text_eq p.child_binary child

-- Some pattern, of whichever namespace and workload, is of the lineage.
abbrev pub seen : List ExecutionPattern → GoString → GoString → Bool
seen [] parent child = false
seen (p ∷ ps) parent child = is_lineage p parent child || seen ps parent child

-- Some pattern of the lineage has high confidence.
abbrev pub trusted : Dict PatternStats → List ExecutionPattern → GoString → GoString → Bool
trusted stats [] parent child = false
trusted stats (p ∷ ps) parent child =
    (is_lineage p parent child && is_high_confidence (stats_for stats p))
    || trusted stats ps parent child

abbrev pub allows : Dict ParentGroup → GoString → GoString → Bool
allows groups parent child =
    holds (Dict.get (group_or_new (Dict.get groups parent)).allowed_children child)

abbrev pub holds_back : Dict ParentGroup → GoString → GoString → Bool
holds_back groups parent child =
    holds (Dict.get (group_or_new (Dict.get groups parent)).quarantined_children child)

judge-allowed :
    (g : ParentGroup) (s : Option PatternStats) (p : ExecutionPattern) (c : GoString)
    → holds (Dict.get (judge g s p).allowed_children c) ≡ (
        holds (Dict.get g.allowed_children c) || (text_eq p.child_binary c && is_high_confidence s))
unfolding judge
judge-allowed g s p c = elim (Bool-cases (is_high_confidence s)) [
  | inl high ↦ rw (high, Dict.get-put g.allowed_children p.child_binary c true) (ground arith)
  | inr low ↦ rw low (ground arith)
]

held_back :
    (q a : Dict Bool) (k c : GoString)
    → (holds (Dict.get q c) && holds (Dict.get a c)) ≡ false
    → holds (Dict.get (if not (holds (Dict.get a k)) then Dict.put q k true else q) c)
      ≡ ((holds (Dict.get q c) || text_eq k c) && not (holds (Dict.get a c)))
held_back q a k c h = elim (Bool-cases (text_eq k c)) [
  | inl same ↦
      let e : holds (Dict.get a k) ≡ holds (Dict.get a c) =
        ap (λ j. holds (Dict.get a j)) ((text_eq_iff k c).0 same) in
      elim (Bool-cases (holds (Dict.get a c))) [
        | inl known ↦ rw (e, known, same) (ground arith)
        | inr new ↦ rw (e, new, Dict.get-put q k c true, same) (ground arith)
      ]
  | inr other ↦ elim (Bool-cases (holds (Dict.get a k))) [
    | inl known ↦ rw (known, other) (ground arith)
    | inr new ↦ rw (new, Dict.get-put q k c true, other) (ground arith)
  ]
]

judge-quarantined :
    (g : ParentGroup) (s : Option PatternStats) (p : ExecutionPattern) (c : GoString)
    → (holds (Dict.get g.quarantined_children c) && holds (Dict.get g.allowed_children c)) ≡ false
    → holds (Dict.get (judge g s p).quarantined_children c) ≡ (
        (holds (Dict.get g.quarantined_children c) || text_eq p.child_binary c)
        && not (holds (Dict.get (judge g s p).allowed_children c)))
unfolding judge
judge-quarantined g s p c h = elim (Bool-cases (is_high_confidence s)) [
  | inl high ↦
      rw
        (
          high,
          Dict.get-put g.allowed_children p.child_binary c true,
          Dict.get-remove g.quarantined_children p.child_binary c,
        )
        (ground arith)
  | inr low ↦ rw low (held_back g.quarantined_children g.allowed_children p.child_binary c h)
]

-- The groups after one pattern.
abbrev add : Dict PatternStats → Dict ParentGroup → ExecutionPattern → Dict ParentGroup
add stats groups p =
    Dict.put groups p.parent_binary
      (judge (group_or_new (Dict.get groups p.parent_binary)) (stats_for stats p) p)

allows-add :
    (stats : Dict PatternStats) (groups : Dict ParentGroup) (p : ExecutionPattern)
    (parent child : GoString)
    → allows (add stats groups p) parent child ≡ (
        allows groups parent child
        || (is_lineage p parent child && is_high_confidence (stats_for stats p)))
allows-add stats groups p parent child = elim (Bool-cases (text_eq p.parent_binary parent)) [
  | inl same ↦
      let e = (text_eq_iff p.parent_binary parent).0 same in
      let g = group_or_new (Dict.get groups p.parent_binary) in
      rw (Dict.get-put groups p.parent_binary parent (judge g (stats_for stats p) p), same)
        (judge-allowed g (stats_for stats p) p child
          ∙ ap
              (λ k.
                allows groups k child
                || (text_eq p.child_binary child && is_high_confidence (stats_for stats p)))
              e)
  | inr other ↦
      rw
        (
          Dict.get-put groups p.parent_binary parent
              (judge (group_or_new (Dict.get groups p.parent_binary)) (stats_for stats p) p),
          other,
        )
        (ground arith)
]

holds_back-add :
    (stats : Dict PatternStats) (groups : Dict ParentGroup) (p : ExecutionPattern)
    (parent child : GoString)
    → (holds_back groups parent child && allows groups parent child) ≡ false
    → holds_back (add stats groups p) parent child ≡ (
        (holds_back groups parent child || is_lineage p parent child)
        && not (allows (add stats groups p) parent child))
holds_back-add stats groups p parent child h = elim (Bool-cases (text_eq p.parent_binary parent)) [
  | inl same ↦
      let e = (text_eq_iff p.parent_binary parent).0 same in
      let g = group_or_new (Dict.get groups p.parent_binary) in
      let disjoint : (holds_back groups p.parent_binary child
            && allows groups p.parent_binary child)
          ≡ false =
        ap (λ k. holds_back groups k child && allows groups k child) e ∙ h in
      rw (Dict.get-put groups p.parent_binary parent (judge g (stats_for stats p) p), same)
        (judge-quarantined g (stats_for stats p) p child disjoint
          ∙ ap
              (λ k.
                (holds_back groups k child || text_eq p.child_binary child)
                && not (holds (Dict.get (judge g (stats_for stats p) p).allowed_children child)))
              e)
  | inr other ↦
      rw
        (
          Dict.get-put groups p.parent_binary parent
              (judge (group_or_new (Dict.get groups p.parent_binary)) (stats_for stats p) p),
          other,
        )
        (ground (arith, h))
]

disjoint_after : (x q a : Bool) → x ≡ (q && not a) → (x && a) ≡ false
disjoint_after x q a h = ground arith

combine :
    {x y z : Bool} (a1 tr hb lin later : Bool)
    → z ≡ (a1 || tr)
    → y ≡ ((hb || lin) && not a1)
    → x ≡ ((y || later) && not z)
    → x ≡ ((hb || (lin || later)) && not z)
combine a1 tr hb lin later e f g = ground arith

grouped :
    (stats : Dict PatternStats) (groups : Dict ParentGroup) (ps : List ExecutionPattern)
    (parent child : GoString)
    → (holds_back groups parent child && allows groups parent child) ≡ false
    → (allows (group_patterns stats groups ps) parent child
        ≡ (allows groups parent child || trusted stats ps parent child))
      × (holds_back (group_patterns stats groups ps) parent child ≡ (
          (holds_back groups parent child || seen ps parent child)
          && not (allows (group_patterns stats groups ps) parent child)))
unfolding group_patterns
grouped stats groups [] parent child h = (ground arith, ground arith)
grouped stats groups (p ∷ ps) parent child h =
    let one = allows-add stats groups p parent child in
    let two = holds_back-add stats groups p parent child h in
    let rest = grouped stats (add stats groups p) ps parent child (
      disjoint_after (holds_back (add stats groups p) parent child)
        (holds_back groups parent child || is_lineage p parent child)
        (allows (add stats groups p) parent child) two) in
    (
      ground (arith, one, rest.0),
      combine (allows (add stats groups p) parent child) (trusted stats ps parent child)
          (holds_back groups parent child) (is_lineage p parent child) (seen ps parent child) rest.0
          two rest.1,
    )

-- From no groups, whatever the order of the patterns: a parent allows exactly the children that some
-- pattern of the two, in some namespace and workload, shows with high confidence, and holds back exactly
-- the other children that it was seen to start. No child is both.
pub group_patterns_exact :
    (stats : Dict PatternStats) (ps : List ExecutionPattern) (parent child : GoString)
    → let groups = group_patterns stats [] ps in
      (allows groups parent child ≡ trusted stats ps parent child)
      × (holds_back groups parent child
          ≡ (seen ps parent child && not (trusted stats ps parent child)))
unfolding Dict.get
group_patterns_exact stats ps parent child =
    let result = grouped stats [] ps parent child refl in
    (result.0, result.1 ∙ ap (λ a. seen ps parent child && not a) result.0)
