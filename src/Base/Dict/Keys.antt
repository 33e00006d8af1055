-- ===== src/Base/Dict/Keys.antt =====
-- Maps in which no key stands twice, as every Go map.
use mathlib.Core.Path.{◌≡◌, refl}
use mathlib.Core.List.{[], ◌∷◌}
use mathlib.Core.Option.{none}
use mathlib.Core.Logic.{inl, inr}
use native.Mathlib.Omega.{arith}
use ztre.Base.Tests.{Bool-cases}
use ztre.Base.Text.{GoString, text_eq, text_eq_iff}
use ztre.Base.Dict.{Dict, get, put, get-put}

abbrev pub IsMap {ℓ} : {V : Type ℓ} → Dict V → Type ℓ
IsMap [] = Unit
IsMap ((k, v) ∷ m) = (get m k ≡ none) × IsMap m

pub put-IsMap {ℓ} : {V : Type ℓ} (m : Dict V) (k : GoString) (v : V) → IsMap m → IsMap (put m k v)
unfolding put get
put-IsMap [] k v h = (refl, tt)
put-IsMap ((j, w) ∷ m) k v h = elim (Bool-cases (text_eq j k)) [
  | inl same ↦ rw same h
  | inr other ↦
      rw other
        (ground (arith, get-put m k j v, text_eq_iff j k, text_eq_iff k j), put-IsMap m k v h.1)
]
