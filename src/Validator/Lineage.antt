-- ===== src/Validator/Lineage.antt =====
-- What a loaded whitelist says of a lineage (`Load` and `Classify` of pkg/validator/validator.go),
-- against a description on the list of entries.
use ztre.Base.{
  GoString, text_eq, Bool, true, false, ◌||◌, Option, none, some, List, [], ◌∷◌, ◌≡◌, refl, arith,
  if◌then◌else◌,
}
use ztre.Base.Dict
use ztre.Base.Dict.{Dict}
use ztre.Base.FilePath.{base, base_idem}
use ztre.Files.{decoded}
use ztre.Validator.{
  Classification, normal, suspicious, anomalous, WhitelistEntry, Allow, add_children,
  replace_entries, load, holds, classify_in, classify,
}

-- A listed child has the base name `c`.
abbrev pub lists : List GoString → GoString → Bool
lists [] c = false
lists (x ∷ xs) c = text_eq (base x) c || lists xs c

pub holds-add_children :
    (m : Dict Bool) (cs : List GoString) (c : GoString)
    → holds (Dict.get (add_children m cs) c) ≡ (holds (Dict.get m c) || lists cs c)
unfolding add_children
holds-add_children m [] c = ground arith
holds-add_children m (x ∷ xs) c =
    ground
      (arith, Dict.get-put m (base x) c true, holds-add_children (Dict.put m (base x) true) xs c)

-- The children of the last entry whose parent has the base name `p`.
abbrev pub last_entry : List WhitelistEntry → GoString → Option (List GoString)
last_entry [] p = none
last_entry (e ∷ es) p = elim (last_entry es p) [
  | some cs ↦ some cs
  | none ↦ if text_eq (base e.parent) p then some e.allowed_children else none
]

abbrev built : Allow → Option (List GoString) → GoString → Option (Dict Bool)
built allow none p = Dict.get allow p
built allow (some cs) p = some (add_children [] cs)

get-replace_entries :
    (allow : Allow) (es : List WhitelistEntry) (p : GoString)
    → Dict.get (replace_entries allow es) p ≡ built allow (last_entry es p) p
unfolding replace_entries
get-replace_entries allow [] p = refl
get-replace_entries allow (e ∷ es) p =
    let children = add_children [] e.allowed_children in
    ground (
      arith,
      Dict.get-put allow (base e.parent) p children,
      get-replace_entries (Dict.put allow (base e.parent) children) es p,
    )

-- The classification that a lineage should have, by the entry that governs its parent.
abbrev pub verdict : Option (List GoString) → GoString → Classification
verdict none c = suspicious
verdict (some cs) c = if lists cs c then normal else anomalous

classify_built :
    (o : Option (List GoString)) (p c : GoString) → classify_in (built [] o p) c ≡ verdict o c
unfolding Dict.get
classify_built none p c = refl
classify_built (some cs) p c = ground (arith, holds-add_children [] cs c)

-- After a successful `Load`, whatever was there before, `Classify` follows the last entry whose
-- parent has the queried parent's base name: SUSPICIOUS where there is none, NORMAL where it lists a
-- child with the queried child's base name, and ANOMALOUS otherwise.
pub classify-load :
    (allow : Allow) (es : List WhitelistEntry) (p c : GoString)
    → classify (load allow (decoded es)).0 p c ≡ verdict (last_entry es (base p)) (base c)
unfolding classify load
classify-load allow es p c =
    rw (get-replace_entries [] es (base p))
      (classify_built (last_entry es (base p)) (base p) (base c))

-- `Classify` gives a lineage by full paths what it gives the lineage of their base names, which are
-- what the discovery engine records.
pub classify-base :
    (allow : Allow) (p c : GoString) → classify allow (base p) (base c) ≡ classify allow p c
unfolding classify
classify-base allow p c = rw (base_idem p, base_idem c)
