-- ===== src/Discovery/Reporter/Entries.antt =====
-- The entries built from the groups, as the validator reads them (pkg/discovery/reporter.go with
-- pkg/validator/validator.go).
use ztre.Base.{
  GoString, text_eq, text_eq_iff, Bool, true, false, ◌&&◌, ◌||◌, none, List, [], ◌∷◌, map, ◌≡◌,
  refl, sym, ap, ◌∙◌, arith, if◌then◌else◌, Bool-cases, inl, inr, All,
}
use ztre.Base.Dict
use ztre.Base.Dict.{Dict}
use ztre.Base.FilePath.{base}
use ztre.Base.Sorting.{insert, sort_texts}
use ztre.Validator as V
use ztre.Validator.{Classification, normal, suspicious, anomalous}
use ztre.Validator.Lineage.{lists, last_entry, verdict}
use ztre.Validator.Overrides.{names, grants}
use ztre.Discovery.Reporter.{ParentGroup, WhitelistEntry, holds, keys, ranks_before, insert_entry}

-- The fields of an entry of the file that the validator decodes.
abbrev pub as_read : WhitelistEntry → V.WhitelistEntry
as_read e = record { parent = e.parent; allowed_children = e.allowed_children }

abbrev pub read_entries : List WhitelistEntry → List V.WhitelistEntry
read_entries es = map as_read es

lists-insert :
    (s : GoString) (cs : List GoString) (c : GoString)
    → lists (insert s cs) c ≡ (text_eq (base s) c || lists cs c)
unfolding insert
lists-insert s [] c = ground arith
lists-insert s (t ∷ cs) c = ground (arith, lists-insert s cs c)

pub lists-sort_texts : (cs : List GoString) (c : GoString) → lists (sort_texts cs) c ≡ lists cs c
unfolding sort_texts
lists-sort_texts [] c = refl
lists-sort_texts (s ∷ cs) c =
    lists-insert s (sort_texts cs) c ∙ ap (λ b. text_eq (base s) c || b) (lists-sort_texts cs c)

-- A child under its base name, with the value that is written.
abbrev pub IsChild : GoString × Bool → Type 0
IsChild (k, b) = (base k ≡ k) × (b ≡ true)

pub lists-keys :
    (m : Dict Bool) (c : GoString) → All IsChild m → lists (keys m) c ≡ holds (Dict.get m c)
unfolding Dict.get
lists-keys [] c h = refl
lists-keys ((k, b) ∷ m) c h =
    ap (λ j. text_eq j c || lists (keys m) c) h.0.0
    ∙ ap (λ x. text_eq k c || x) (lists-keys m c h.1)
    ∙ (elim (Bool-cases (text_eq k c)) [
      | inl same ↦ rw (same, h.0.1) refl
      | inr other ↦ rw other refl
    ])

-- A group under the base name of its parent.
abbrev pub IsGroup : GoString × ParentGroup → Type 0
IsGroup (k, g) = (base k ≡ k) × All IsChild g.allowed_children

pub names-insert_entry :
    (e : WhitelistEntry) (es : List WhitelistEntry) (p : GoString)
    → names (read_entries (insert_entry e es)) p
      ≡ (text_eq (base e.parent) p || names (read_entries es) p)
unfolding insert_entry
names-insert_entry e [] p = refl
names-insert_entry e (d ∷ es) p = elim (Bool-cases (ranks_before d e)) [
  | inl before ↦ rw before (ground (arith, names-insert_entry e es p))
  | inr after ↦ rw after refl
]

pub grants-insert_entry :
    (e : WhitelistEntry) (es : List WhitelistEntry) (p c : GoString)
    → grants (read_entries (insert_entry e es)) p c
      ≡ (text_eq (base e.parent) p && lists e.allowed_children c || grants (read_entries es) p c)
unfolding insert_entry
grants-insert_entry e [] p c = refl
grants-insert_entry e (d ∷ es) p c = elim (Bool-cases (ranks_before d e)) [
  | inl before ↦ rw before (ground (arith, grants-insert_entry e es p c))
  | inr after ↦ rw after refl
]

-- No two entries are of one parent.
abbrev pub AreDistinct : List WhitelistEntry → Type 0
AreDistinct [] = Unit
AreDistinct (e ∷ es) = (names (read_entries es) (base e.parent) ≡ false) × AreDistinct es

pub insert_entry-AreDistinct :
    (e : WhitelistEntry) (es : List WhitelistEntry)
    → names (read_entries es) (base e.parent) ≡ false
    → AreDistinct es
    → AreDistinct (insert_entry e es)
unfolding insert_entry
insert_entry-AreDistinct e [] h k = (refl, tt)
insert_entry-AreDistinct e (d ∷ es) h k = elim (Bool-cases (ranks_before d e)) [
  | inl before ↦ rw before (
    ground (
      arith,
      names-insert_entry e es (base d.parent),
      text_eq_iff (base e.parent) (base d.parent),
      text_eq_iff (base d.parent) (base e.parent),
      k.0,
    ),
    insert_entry-AreDistinct e es (ground arith) k.1,
  )
  | inr after ↦ rw after (h, k)
]

grants→names :
    (es : List WhitelistEntry) (p c : GoString)
    → names (read_entries es) p ≡ false
    → grants (read_entries es) p c ≡ false
grants→names [] p c h = refl
grants→names (e ∷ es) p c h = ground (arith, grants→names es p c)

last_entry_absent :
    (es : List WhitelistEntry) (p : GoString)
    → names (read_entries es) p ≡ false
    → last_entry (read_entries es) p ≡ none
last_entry_absent [] p h = refl
last_entry_absent (e ∷ es) p h = ground (arith, last_entry_absent es p)

-- With one entry for each parent, the last entry of a parent is the only one.
pub verdict_distinct :
    (es : List WhitelistEntry) (p c : GoString)
    → AreDistinct es
    → verdict (last_entry (read_entries es) p) c ≡ (
        if names (read_entries es) p
        then (if grants (read_entries es) p c then normal else anomalous)
        else suspicious)
verdict_distinct [] p c h = refl
verdict_distinct (e ∷ es) p c h = elim (Bool-cases (text_eq (base e.parent) p)) [
  | inl same ↦
      let only : names (read_entries es) p ≡ false =
        ap (names (read_entries es)) (sym ((text_eq_iff (base e.parent) p).0 same)) ∙ h.0 in
      rw (last_entry_absent es p only, grants→names es p c only, same) (ground arith)
  | inr other ↦ ground (arith, verdict_distinct es p c h.1)
]
