-- ===== src/Base/Sorting.antt =====
-- sort.Strings as an insertion sort.
use mathlib.Core.Path.{◌≡◌}
use mathlib.Core.Bool.{true, false}
use mathlib.Core.Logic.{inl, inr}
use mathlib.Core.List.{List, [], ◌∷◌}
use native.Mathlib.Omega.{arith}
use ztre.Base.Tests.{if◌then◌else◌, Bool-cases}
use ztre.Base.Lists.{All}
use ztre.Base.Text.{GoString, text_lt}

unfoldable pub insert : GoString → List GoString → List GoString
insert s [] = s ∷ []
insert s (t ∷ ts) = let rest = insert s ts in if text_lt t s then t ∷ rest else s ∷ (t ∷ ts)

unfoldable pub sort_texts : List GoString → List GoString
unfolding insert
sort_texts [] = []
sort_texts (s ∷ ss) = insert s (sort_texts ss)

-- No element is before an earlier one.
abbrev pub IsSorted : List GoString → Type 0
IsSorted [] = Unit
IsSorted (s ∷ ss) = All (λ t. text_lt t s ≡ false) ss × IsSorted ss

text_lt_asym : (s t : GoString) → text_lt s t ≡ true → text_lt t s ≡ false
unfolding text_lt
text_lt_asym [] [] h = ground arith
text_lt_asym [] (y ∷ t) h = ground arith
text_lt_asym (x ∷ s) [] h = ground arith
text_lt_asym (x ∷ s) (y ∷ t) h = ground (arith, text_lt_asym s t)

-- Not being before is transitive.
text_le_trans : (s t r : GoString) → text_lt t s ≡ false → text_lt r t ≡ false → text_lt r s ≡ false
unfolding text_lt
text_le_trans [] t r h k = ground arith
text_le_trans (x ∷ s) [] r h k = ground arith
text_le_trans (x ∷ s) (y ∷ t) [] h k = ground arith
text_le_trans (x ∷ s) (y ∷ t) (z ∷ r) h k = ground (arith, text_le_trans s t r)

All-insert {κ} :
    (P : GoString → Type κ) (s : GoString) (ts : List GoString)
    → P s
    → All P ts
    → All P (insert s ts)
unfolding insert
All-insert P s [] p h = (p, tt)
All-insert P s (t ∷ ts) p h = elim (Bool-cases (text_lt t s)) [
  | inl before ↦ rw before (h.0, All-insert P s ts p h.1)
  | inr after ↦ rw after (p, h)
]

insert-IsSorted : (s : GoString) (ts : List GoString) → IsSorted ts → IsSorted (insert s ts)
unfolding insert
insert-IsSorted s [] h = (tt, tt)
insert-IsSorted s (t ∷ ts) h = elim (Bool-cases (text_lt t s)) [
  | inl before ↦ rw before (
    All-insert (λ r. text_lt r t ≡ false) s ts (text_lt_asym t s before) h.0,
    insert-IsSorted s ts h.1,
  )
  | inr after ↦ rw after ((after, later s t ts after h.0), h)
]
  where
    later :
        (s t : GoString) (ts : List GoString)
        → text_lt t s ≡ false
        → All (λ r. text_lt r t ≡ false) ts
        → All (λ r. text_lt r s ≡ false) ts
    later s t [] k h = tt
    later s t (r ∷ rs) k h = (text_le_trans s t r k h.0, later s t rs k h.1)

pub sort_texts-IsSorted : (ss : List GoString) → IsSorted (sort_texts ss)
unfolding sort_texts
sort_texts-IsSorted [] = tt
sort_texts-IsSorted (s ∷ ss) = insert-IsSorted s (sort_texts ss) (sort_texts-IsSorted ss)

pub All-sort_texts {κ} :
    (P : GoString → Type κ) (ss : List GoString) → All P ss → All P (sort_texts ss)
unfolding sort_texts
All-sort_texts P [] h = tt
All-sort_texts P (s ∷ ss) h = All-insert P s (sort_texts ss) h.0 (All-sort_texts P ss h.1)
