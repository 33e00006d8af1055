-- ===== src/Risk/Assets.antt =====
-- The namespace cache against the tiers that it is built from (pkg/risk/engine.go).
use ztre.Base.{
  ℕ, GoString, Bool-cases, inl, inr, text_eq, Bool, false, ◌||◌, List, [], ◌∷◌, none, some, ◌≡◌,
  refl, arith, if◌then◌else◌,
}
use ztre.Base.Dict
use ztre.Base.Dict.{Dict}
use ztre.Float64.{Float64}
use ztre.Risk.{
  PolicyConfig, Engine, cache_tier, build_namespace_cache, new_engine_from_policy, asset_score,
  or_else, valid_weights,
}

abbrev pub member : List GoString → GoString → Bool
member [] k = false
member (x ∷ xs) k = text_eq x k || member xs k

get-cache_tier {ℓ} :
    {V : Type ℓ} (cache : Dict V) (xs : List GoString) (v : V) (k : GoString)
    → Dict.get (cache_tier cache xs v) k ≡ (if member xs k then some v else Dict.get cache k)
unfolding cache_tier
get-cache_tier cache [] v k = refl
get-cache_tier cache (x ∷ xs) v k =
    ground (arith, Dict.get-put cache x k v, get-cache_tier (Dict.put cache x v) xs v k)

-- The score of a namespace by the tiers, the least critical first.
abbrev pub tier_score : (f : Float64) → PolicyConfig f → GoString → f.Num
tier_score f p ns =
    if member p.low.namespaces ns
    then p.low.score
    else if member p.medium.namespaces ns
    then p.medium.score
    else if member p.high.namespaces ns
    then p.high.score
    else if member p.critical.namespaces ns
    then p.critical.score
    else p.default_score

or_else_tiers :
    {V : Type 0} (a b c d : Bool) (v w x y z : V)
    → or_else
        (if a
          then some v
          else if b
          then some w
          else if c
          then some x
          else if d
          then some y
          else none)
        z
      ≡ (if a then v else if b then w else if c then x else if d then y else z)
or_else_tiers a b c d v w x y z = ground arith

pub engine_of_policy :
    (f : Float64) (p : PolicyConfig f) {e : Engine f}
    → new_engine_from_policy f p ≡ some e
    → record { policy = p; ns_score_cache = build_namespace_cache f p } ≡ e
unfolding new_engine_from_policy
engine_of_policy f p {e} h = elim (Bool-cases (valid_weights f p)) [
  | inl good ↦
      let made : some (record { policy = p; ns_score_cache = build_namespace_cache f p }) ≡ some e =
        rw good at h in
      cc
  | inr bad ↦ cc (rw bad at h)
]

get-build_namespace_cache :
    (f : Float64) (p : PolicyConfig f) (ns : GoString)
    → or_else (Dict.get (build_namespace_cache f p) ns) p.default_score ≡ tier_score f p ns
unfolding build_namespace_cache Dict.get
get-build_namespace_cache f p ns =
    rw (get-cache_tier, get-cache_tier, get-cache_tier, get-cache_tier)
      (or_else_tiers (member p.low.namespaces ns) (member p.medium.namespaces ns)
        (member p.high.namespaces ns) (member p.critical.namespaces ns) p.low.score p.medium.score
        p.high.score p.critical.score p.default_score)

-- An engine made from a policy scores a namespace by the tier that lists it. A namespace that stands
-- in several tiers gets the score of the least critical of them, and one in no tier the default.
pub asset_score-tier_score :
    (u : ℕ → ℕ) (f : Float64) (p : PolicyConfig f) (e : Engine f) (ns : GoString)
    → new_engine_from_policy f p ≡ some e
    → asset_score u f e ns ≡ tier_score f p ns
unfolding asset_score
asset_score-tier_score u f p e ns h =
    rw (← engine_of_policy f p h) (get-build_namespace_cache f p ns)
