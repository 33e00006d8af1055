-- ===== src/Discovery/Reporter/Learned.antt =====
-- The whitelist that is generated, in the hands of the validator (pkg/discovery/reporter.go with
-- pkg/validator/validator.go).
use ztre.Base.{
  GoString, text_eq, text_eq_iff, Bool, true, false, ◌&&◌, ◌||◌, none, some, List, [], ◌∷◌, ◌≡◌,
  refl, sym, ap, ◌∙◌, arith, if◌then◌else◌, if_both, Bool-cases, inl, inr, is_some, All,
}
use ztre.Base.Dict
use ztre.Base.Dict.{Dict}
use ztre.Base.FilePath.{base}
use ztre.Files.{decoded}
use ztre.Validator.{Allow, normal, suspicious, anomalous, load, classify}
use ztre.Validator.Lineage.{lists, classify-load}
use ztre.Validator.Overrides.{names, grants}
use ztre.Base.Dict.Keys.{IsMap}
use ztre.Discovery.Tracker.{ExecutionPattern, BehaviorTracker}
use ztre.Discovery.Tracker.Entries.{IsEntry}
use ztre.Discovery.Reporter.{
  ParentGroup, group_or_new, holds, group_patterns, keys, entry_of, insert_pattern, comes_before,
  get_patterns, get_stats, build_entries, generate_whitelist,
}
use ztre.Discovery.Reporter.Grouping.{allows, trusted, group_patterns_exact}
use ztre.Discovery.Reporter.Groups.{
  has_parent, HasBases, group_patterns-IsGroup, group_patterns-known,
}
use ztre.Discovery.Reporter.Entries.{
  read_entries, IsChild, IsGroup, AreDistinct, lists-keys, lists-sort_texts, names-insert_entry,
  grants-insert_entry, insert_entry-AreDistinct, verdict_distinct,
}

names-build_entries :
    (groups : Dict ParentGroup) (p : GoString)
    → All IsGroup groups
    → names (read_entries (build_entries groups)) p ≡ is_some (Dict.get groups p)
unfolding build_entries Dict.get entry_of
names-build_entries [] p h = refl
names-build_entries ((k, g) ∷ groups) p h =
    names-insert_entry (entry_of k g) (build_entries groups) p
    ∙ ap (λ j. text_eq j p || names (read_entries (build_entries groups)) p) h.0.0
    ∙ ap (λ b. text_eq k p || b) (names-build_entries groups p h.1)
    ∙ ground arith

lists-entry_of :
    (k : GoString) (g : ParentGroup) (c : GoString)
    → All IsChild g.allowed_children
    → lists (entry_of k g).allowed_children c ≡ holds (Dict.get g.allowed_children c)
unfolding entry_of
lists-entry_of k g c h =
    lists-sort_texts (keys g.allowed_children) c ∙ lists-keys g.allowed_children c h

get-first :
    (k : GoString) (g : ParentGroup) (groups : Dict ParentGroup) (p : GoString)
    → text_eq k p ≡ true
    → Dict.get ((k, g) ∷ groups) p ≡ some g
unfolding Dict.get
get-first k g groups p h = rw h refl

get-later :
    (k : GoString) (g : ParentGroup) (groups : Dict ParentGroup) (p : GoString)
    → text_eq k p ≡ false
    → Dict.get ((k, g) ∷ groups) p ≡ Dict.get groups p
unfolding Dict.get
get-later k g groups p h = rw h refl

allows-cons :
    (k : GoString) (g : ParentGroup) (groups : Dict ParentGroup) (p c : GoString)
    → Dict.get groups k ≡ none
    → (text_eq k p && holds (Dict.get g.allowed_children c) || allows groups p c)
      ≡ allows ((k, g) ∷ groups) p c
allows-cons k g groups p c absent = elim (Bool-cases (text_eq k p)) [
  | inl same ↦
      let gone : allows groups p c ≡ false =
        ap (λ j. allows groups j c) (sym ((text_eq_iff k p).0 same))
        ∙ ap (λ o. holds (Dict.get (group_or_new o).allowed_children c)) absent
        ∙ unfold Dict.get in refl in
      ap (λ b. b && holds (Dict.get g.allowed_children c) || allows groups p c) same
      ∙ ap (λ b. holds (Dict.get g.allowed_children c) || b) gone
      ∙ or-false (holds (Dict.get g.allowed_children c))
      ∙ sym (
          ap (λ o. holds (Dict.get (group_or_new o).allowed_children c))
            (get-first k g groups p same))
  | inr other ↦
      ap (λ b. b && holds (Dict.get g.allowed_children c) || allows groups p c) other
      ∙ sym (
          ap (λ o. holds (Dict.get (group_or_new o).allowed_children c))
            (get-later k g groups p other))
]
  where
    or-false : (b : Bool) → (b || false) ≡ b
    or-false true = refl
    or-false false = refl

grants-build_entries :
    (groups : Dict ParentGroup) (p c : GoString)
    → All IsGroup groups
    → IsMap groups
    → grants (read_entries (build_entries groups)) p c ≡ allows groups p c
unfolding build_entries
grants-build_entries [] p c h d = unfold Dict.get in refl
grants-build_entries ((k, g) ∷ groups) p c h d =
    let rest = read_entries (build_entries groups) in
    grants-insert_entry (entry_of k g) (build_entries groups) p c
    ∙ ap (λ j. text_eq j p && lists (entry_of k g).allowed_children c || grants rest p c)
        (unfold entry_of in h.0.0)
    ∙ ap (λ b. text_eq k p && b || grants rest p c) (lists-entry_of k g c h.0.1)
    ∙ ap (λ b. text_eq k p && holds (Dict.get g.allowed_children c) || b)
        (grants-build_entries groups p c h.1 d.1)
    ∙ allows-cons k g groups p c d.0

build_entries-AreDistinct :
    (groups : Dict ParentGroup)
    → All IsGroup groups
    → IsMap groups
    → AreDistinct (build_entries groups)
unfolding build_entries
build_entries-AreDistinct [] h d = tt
build_entries-AreDistinct ((k, g) ∷ groups) h d =
    insert_entry-AreDistinct (entry_of k g) (build_entries groups)
      (unfold entry_of in
        (names-build_entries groups (base k) h.1
          ∙ ap (λ j. is_some (Dict.get groups j)) h.0.0
          ∙ ap is_some d.0))
      (build_entries-AreDistinct groups h.1 d.1)

insert_pattern-HasBases :
    (p : ExecutionPattern) (ps : List ExecutionPattern)
    → HasBases p
    → All HasBases ps
    → All HasBases (insert_pattern p ps)
unfolding insert_pattern
insert_pattern-HasBases p [] b h = (b, tt)
insert_pattern-HasBases p (q ∷ ps) b h =
    if_both (All HasBases) (comes_before q p) (h.0, insert_pattern-HasBases p ps b h.1) (b, h)

get_patterns-HasBases : (m : Dict ExecutionPattern) → All IsEntry m → All HasBases (get_patterns m)
unfolding get_patterns
get_patterns-HasBases [] h = tt
get_patterns-HasBases ((k, p) ∷ m) h =
    insert_pattern-HasBases p (get_patterns m) (h.0.parent_base, h.0.child_base)
      (get_patterns-HasBases m h.1)

-- The discovery's whitelist, loaded by the validator, classifies as the baseline was learned, whatever
-- the validator held before: SUSPICIOUS if no pattern has the parent's base name, NORMAL if some pattern
-- of the two base names has high confidence, and ANOMALOUS otherwise. The patterns are those of a
-- tracker with well-formed entries.
pub classify-generate_whitelist :
    (bt : BehaviorTracker) (allow : Allow) (parent child : GoString)
    → All IsEntry bt.patterns
    → let ps = get_patterns bt.patterns in
      classify (load allow (decoded (read_entries (generate_whitelist bt)))).0 parent child ≡ (
        if has_parent ps (base parent)
        then (if trusted (get_stats bt.patterns) ps (base parent) (base child)
            then normal
            else anomalous)
        else suspicious)
unfolding generate_whitelist
classify-generate_whitelist bt allow parent child h =
    let ps = get_patterns bt.patterns in
    let stats = get_stats bt.patterns in
    let groups = group_patterns stats [] ps in
    let es = build_entries groups in
    let good = group_patterns-IsGroup stats [] ps (get_patterns-HasBases bt.patterns h) tt tt in
    let named : names (read_entries es) (base parent) ≡ has_parent ps (base parent) =
      names-build_entries groups (base parent) good.0
      ∙ group_patterns-known stats [] ps (base parent)
      ∙ unfold Dict.get in refl in
    let granted : grants (read_entries es) (base parent) (base child)
        ≡ trusted stats ps (base parent) (base child) =
      grants-build_entries groups (base parent) (base child) good.0 good.1
      ∙ (group_patterns_exact stats ps (base parent) (base child)).0 in
    classify-load allow (read_entries es) parent child
    ∙ verdict_distinct es (base parent) (base child)
        (build_entries-AreDistinct groups good.0 good.1)
    ∙ ap
        (λ b.
          if b
          then (if grants (read_entries es) (base parent) (base child) then normal else anomalous)
          else suspicious)
        named
    ∙ ap
        (λ b. if has_parent ps (base parent) then (if b then normal else anomalous) else suspicious)
        granted
