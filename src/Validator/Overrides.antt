-- ===== src/Validator/Overrides.antt =====
-- What merging override files does (`LoadMulti` of pkg/validator/validator.go).
use ztre.Base.{
  GoString, text_eq, text_eq_iff, Bool, false, ◌&&◌, ◌||◌, none, List, [], ◌∷◌, ◌++◌, map, ◌≡◌,
  refl, ◌∙◌, arith, if◌then◌else◌, is_some,
}
use ztre.Base.Dict
use ztre.Base.Dict.{Dict}
use ztre.Base.FilePath.{base}
use ztre.Files.{FileRead, not_exist, unreadable, malformed, decoded}
use ztre.Validator.{
  normal, suspicious, anomalous, WhitelistEntry, Allow, add_children, children_or_empty,
  merge_entries, load_multi, holds, classify,
}
use ztre.Validator.Lineage.{lists, holds-add_children}

-- An entry has the parent's base name `p`.
abbrev pub names : List WhitelistEntry → GoString → Bool
names [] p = false
names (e ∷ es) p = text_eq (base e.parent) p || names es p

-- An entry for the parent `p` lists the child `c`.
abbrev pub grants : List WhitelistEntry → GoString → GoString → Bool
grants [] p c = false
grants (e ∷ es) p c = text_eq (base e.parent) p && lists e.allowed_children c || grants es p c

abbrev pub knows : Allow → GoString → Bool
knows allow p = is_some (Dict.get allow p)

abbrev pub permits : Allow → GoString → GoString → Bool
permits allow p c = holds (Dict.get (children_or_empty (Dict.get allow p)) c)

knows-merge_entries :
    (allow : Allow) (es : List WhitelistEntry) (p : GoString)
    → knows (merge_entries allow es) p ≡ (knows allow p || names es p)
unfolding merge_entries
knows-merge_entries allow [] p = ground arith
knows-merge_entries allow (e ∷ es) p =
    let parent = base e.parent in
    let children = add_children (children_or_empty (Dict.get allow parent)) e.allowed_children in
    ground (
      arith,
      Dict.get-put allow parent p children,
      knows-merge_entries (Dict.put allow parent children) es p,
    )

permits-merge_entries :
    (allow : Allow) (es : List WhitelistEntry) (p c : GoString)
    → permits (merge_entries allow es) p c ≡ (permits allow p c || grants es p c)
unfolding merge_entries
permits-merge_entries allow [] p c = ground arith
permits-merge_entries allow (e ∷ es) p c =
    let parent = base e.parent in
    let existing = children_or_empty (Dict.get allow parent) in
    let children = add_children existing e.allowed_children in
    ground (
      arith,
      Dict.get-put allow parent p children,
      text_eq_iff parent p,
      holds-add_children existing e.allowed_children c,
      permits-merge_entries (Dict.put allow parent children) es p c,
    )

classify_parts :
    (allow : Allow) (p c : GoString)
    → classify allow p c ≡ (
        if knows allow (base p)
        then (if permits allow (base p) (base c) then normal else anomalous)
        else suspicious)
unfolding classify
classify_parts allow p c = ground arith

-- Merging entries unites: the parent is known if it was known or an entry names it, and the child is
-- allowed if it was allowed or some entry for the parent lists it, whatever the order and the
-- repetitions of the entries.
pub classify-merge_entries :
    (allow : Allow) (es : List WhitelistEntry) (p c : GoString)
    → classify (merge_entries allow es) p c ≡ (
        if knows allow (base p) || names es (base p)
        then (if permits allow (base p) (base c) || grants es (base p) (base c)
            then normal
            else anomalous)
        else suspicious)
classify-merge_entries allow es p c =
    classify_parts (merge_entries allow es) p c
    ∙ rw (knows-merge_entries allow es (base p), permits-merge_entries allow es (base p) (base c))

merge_entries_keeps :
    (allow : Allow) (es : List WhitelistEntry) (p c : GoString)
    → classify allow p c ≡ normal
    → classify (merge_entries allow es) p c ≡ normal
merge_entries_keeps allow es p c h =
    ground (arith, classify_parts allow p c, classify-merge_entries allow es p c)

-- Overrides only widen: a lineage that is NORMAL stays NORMAL after `LoadMulti`, whichever of its
-- files are missing, unreadable or malformed.
pub load_multi_keeps_normal :
    (allow : Allow) (files : List (FileRead (List WhitelistEntry))) (p c : GoString)
    → classify allow p c ≡ normal
    → classify (load_multi allow files).0 p c ≡ normal
unfolding load_multi
load_multi_keeps_normal allow [] p c h = h
load_multi_keeps_normal allow (not_exist ∷ files) p c h = load_multi_keeps_normal allow files p c h
load_multi_keeps_normal allow (unreadable ∷ files) p c h = h
load_multi_keeps_normal allow (malformed ∷ files) p c h = h
load_multi_keeps_normal allow (decoded es ∷ files) p c h =
    load_multi_keeps_normal (merge_entries allow es) files p c (merge_entries_keeps allow es p c h)

merge_entries-append :
    (allow : Allow) (es fs : List WhitelistEntry)
    → merge_entries allow (es ++ fs) ≡ merge_entries (merge_entries allow es) fs
unfolding merge_entries
merge_entries-append allow [] fs = refl
merge_entries-append allow (e ∷ es) fs =
    let parent = base e.parent in
    let existing = children_or_empty (Dict.get allow parent) in
    merge_entries-append (Dict.put allow parent (add_children existing e.allowed_children)) es fs

abbrev pub all_entries : List (List WhitelistEntry) → List WhitelistEntry
all_entries [] = []
all_entries (es ∷ rest) = es ++ all_entries rest

-- When every file decodes, `LoadMulti` reports no error and merges the entries of all files, in
-- order, as if they stood in one file.
pub load_multi_decoded :
    (allow : Allow) (files : List (List WhitelistEntry))
    → load_multi allow (map decoded files) ≡ (merge_entries allow (all_entries files), none)
unfolding load_multi
load_multi_decoded allow [] = unfold merge_entries in refl
load_multi_decoded allow (es ∷ files) =
    rw (merge_entries-append allow es (all_entries files))
      (load_multi_decoded (merge_entries allow es) files)
