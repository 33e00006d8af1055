-- ===== src/Base/Dict.antt =====
-- Go maps with string keys as association lists. An update of a key that is there keeps its place;
-- a new key goes to the end.
pub mod Keys
use mathlib.Core.Path.{◌≡◌, refl}
use mathlib.Core.List.{List, [], ◌∷◌}
use mathlib.Core.Option.{Option, none, some}
use native.Mathlib.Omega.{arith}
use mathlib.Core.Path.{ap, subst, sym}
use mathlib.Core.Logic.{inl, inr}
use Prim.Native.Nat.{suc}
use ztre.Base.Tests.{if◌then◌else◌, Bool-cases}
use ztre.Base.Lists.{length, All}
use ztre.Base.Text.{GoString, text_eq, text_eq_iff, text_eq_refl}

abbrev pub Dict {ℓ} : Type ℓ → Type ℓ
Dict V = List (GoString × V)

module _ {ℓ} {V : Type ℓ} where
  -- m[k]
  unfoldable pub get : Dict V → GoString → Option V
  unfolding text_eq
  get [] k = none
  get ((j, v) ∷ m) k = if text_eq j k then some v else get m k

  -- m[k] = v
  unfoldable pub put : Dict V → GoString → V → Dict V
  unfolding text_eq
  put [] k v = (k, v) ∷ []
  put ((j, w) ∷ m) k v = if text_eq j k then (j, v) ∷ m else (j, w) ∷ put m k v

  -- delete(m, k)
  unfoldable pub remove : Dict V → GoString → Dict V
  unfolding text_eq
  remove [] k = []
  remove ((j, w) ∷ m) k = let rest = remove m k in if text_eq j k then rest else (j, w) ∷ rest

  pub get-put :
      (m : Dict V) (k j : GoString) (v : V)
      → get (put m k v) j ≡ (if text_eq k j then some v else get m j)
  unfolding get put
  get-put [] k j v = refl
  get-put ((i, w) ∷ m) k j v =
      ground (arith, text_eq_iff k j, text_eq_iff i k, text_eq_iff i j, get-put m k j v)

  pub get-put_self : (m : Dict V) (k : GoString) (v : V) → get (put m k v) k ≡ some v
  get-put_self m k v = rw (get-put m k k v, text_eq_refl k)

  pub get-remove :
      (m : Dict V) (k j : GoString) → get (remove m k) j ≡ (if text_eq k j then none else get m j)
  unfolding get remove
  get-remove [] k j = ground arith
  get-remove ((i, w) ∷ m) k j =
      ground (arith, text_eq_iff k j, text_eq_iff i k, text_eq_iff i j, get-remove m k j)

  -- A new key adds one entry, and taking it out again gives the map back.
  pub length-put_new :
      (m : Dict V) (k : GoString) (v : V) → get m k ≡ none → length (put m k v) ≡ suc (length m)
  unfolding get put
  length-put_new [] k v h = refl
  length-put_new ((j, w) ∷ m) k v h = elim (Bool-cases (text_eq j k)) [
    | inl same ↦ cc (rw same at h)
    | inr other ↦ rw other (ap suc (length-put_new m k v (rw other at h)))
  ]

  pub remove_absent : (m : Dict V) (k : GoString) → get m k ≡ none → remove m k ≡ m
  unfolding get remove
  remove_absent [] k h = refl
  remove_absent ((j, w) ∷ m) k h = elim (Bool-cases (text_eq j k)) [
    | inl same ↦ cc (rw same at h)
    | inr other ↦ rw other (ap (λ rest. (j, w) ∷ rest) (remove_absent m k (rw other at h)))
  ]

  pub remove-put_new :
      (m : Dict V) (k : GoString) (v : V) → get m k ≡ none → remove (put m k v) k ≡ m
  unfolding get put remove
  remove-put_new [] k v h = rw (text_eq_refl k)
  remove-put_new ((j, w) ∷ m) k v h = elim (Bool-cases (text_eq j k)) [
    | inl same ↦ cc (rw same at h)
    | inr other ↦
        rw (other, other) (ap (λ rest. (j, w) ∷ rest) (remove-put_new m k v (rw other at h)))
  ]

  -- A predicate of every entry holds of what a key reads, and is kept by a write of an entry that has it.
  pub All-get {κ} :
      (P : GoString × V → Type κ) (m : Dict V) (k : GoString) (v : V)
      → All P m
      → get m k ≡ some v
      → P (k, v)
  unfolding get
  All-get P [] k v h e = cc
  All-get P ((j, w) ∷ m) k v h e = elim (Bool-cases (text_eq j k)) [
    | inl same ↦
        let first : some w ≡ some v = rw same at e in
        let key : j ≡ k = (text_eq_iff j k).0 same in
        let value : w ≡ v = cc first in subst P (λ i. (key i, value i)) h.0
    | inr other ↦ All-get P m k v h.1 (rw other at e)
  ]

  pub All-put {κ} :
      (P : GoString × V → Type κ) (m : Dict V) (k : GoString) (v : V)
      → All P m
      → P (k, v)
      → All P (put m k v)
  unfolding put
  All-put P [] k v h p = (p, tt)
  All-put P ((j, w) ∷ m) k v h p = elim (Bool-cases (text_eq j k)) [
    | inl same ↦
        let key : k ≡ j = sym ((text_eq_iff j k).0 same) in
        rw same (subst P (λ i. (key i, v)) p, h.1)
    | inr other ↦ rw other (h.0, All-put P m k v h.1 p)
  ]

  pub All-remove {κ} :
      (P : GoString × V → Type κ) (m : Dict V) (k : GoString) → All P m → All P (remove m k)
  unfolding remove
  All-remove P [] k h = tt
  All-remove P ((j, w) ∷ m) k h = elim (Bool-cases (text_eq j k)) [
    | inl same ↦ rw same (All-remove P m k h.1)
    | inr other ↦ rw other (h.0, All-remove P m k h.1)
  ]

  pub length-put_known :
      (m : Dict V) (k : GoString) (v w : V) → get m k ≡ some w → length (put m k v) ≡ length m
  unfolding get put
  length-put_known [] k v w h = cc
  length-put_known ((j, u) ∷ m) k v w h = elim (Bool-cases (text_eq j k)) [
    | inl same ↦ rw same
    | inr other ↦ rw other (ap suc (length-put_known m k v w (rw other at h)))
  ]
