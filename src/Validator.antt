-- ===== src/Validator.antt =====
-- pkg/validator/validator.go: the whitelist of parent and child binaries, its loading, merging and
-- the classification of a lineage. The mutex makes each method one step.
pub mod Lineage
pub mod Overrides
mod Examples
use ztre.Base.{GoString, lit, Bool, true, false, Option, none, some, List, [], ◌∷◌, if◌then◌else◌}
use ztre.Base.Dict
use ztre.Base.Dict.{Dict}
use ztre.Base.FilePath.{base}
use ztre.Files.{
  FileRead, not_exist, unreadable, malformed, decoded, FileError, not_exist_error, unreadable_error,
  malformed_error,
}

pub data Classification : Type 0 where
  normal suspicious anomalous : Classification

-- The text of the Go constant.
abbrev pub class_name : Classification → GoString
class_name normal = lit "NORMAL"
class_name suspicious = lit "SUSPICIOUS"
class_name anomalous = lit "ANOMALOUS"

pub record WhitelistEntry : Type 0 where
  pub parent : GoString
  pub allowed_children : List GoString

-- parent → set of children; the field `allow` of `Whitelist`.
abbrev pub Allow : Type 0
Allow = Dict (Dict Bool)

-- `for _, c := range entry.AllowedChildren { children[filepath.Base(c)] = true }`
unfoldable pub add_children : Dict Bool → List GoString → Dict Bool
add_children children [] = children
add_children children (c ∷ cs) = add_children (Dict.put children (base c) true) cs

-- The loop of `Load`: an entry replaces what stood under its parent.
unfoldable pub replace_entries : Allow → List WhitelistEntry → Allow
unfolding add_children
replace_entries allow [] = allow
replace_entries allow (entry ∷ rest) =
    replace_entries (Dict.put allow (base entry.parent) (add_children [] entry.allowed_children))
      rest

abbrev pub children_or_empty : Option (Dict Bool) → Dict Bool
children_or_empty none = []
children_or_empty (some children) = children

-- The loop of `LoadMulti`: an entry adds to what stands under its parent.
unfoldable pub merge_entries : Allow → List WhitelistEntry → Allow
unfolding add_children
merge_entries allow [] = allow
merge_entries allow (entry ∷ rest) =
    let parent = base entry.parent in
    let existing = children_or_empty (Dict.get allow parent) in
    merge_entries (Dict.put allow parent (add_children existing entry.allowed_children)) rest

unfoldable pub load : Allow → FileRead (List WhitelistEntry) → Allow × Option FileError
unfolding replace_entries
load allow not_exist = (allow, some not_exist_error)
load allow unreadable = (allow, some unreadable_error)
load allow malformed = (allow, some malformed_error)
load allow (decoded entries) = (replace_entries [] entries, none)

-- A missing file starts the whitelist empty; any other error is returned.
abbrev start_from : Allow × Option FileError → Option Allow
start_from (allow, some not_exist_error) = some allow
start_from (allow, some unreadable_error) = none
start_from (allow, some malformed_error) = none
start_from (allow, none) = some allow

unfoldable pub new_whitelist : FileRead (List WhitelistEntry) → Option Allow
unfolding load
new_whitelist file = start_from (load [] file)

-- `LoadMulti`: a missing file is skipped, another error ends the loop, and what was merged stays.
unfoldable pub load_multi : Allow → List (FileRead (List WhitelistEntry)) → Allow × Option FileError
unfolding merge_entries
load_multi allow [] = (allow, none)
load_multi allow (not_exist ∷ files) = load_multi allow files
load_multi allow (unreadable ∷ files) = (allow, some unreadable_error)
load_multi allow (malformed ∷ files) = (allow, some malformed_error)
load_multi allow (decoded entries ∷ files) = load_multi (merge_entries allow entries) files

-- `children[child]` on a map[string]bool
abbrev pub holds : Option Bool → Bool
holds none = false
holds (some b) = b

abbrev pub classify_in : Option (Dict Bool) → GoString → Classification
classify_in none child = suspicious
classify_in (some children) child = if holds (Dict.get children child) then normal else anomalous

unfoldable pub classify : Allow → GoString → GoString → Classification
classify allow parent child = classify_in (Dict.get allow (base parent)) (base child)
