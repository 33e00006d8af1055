-- ===== src/Observability/Registration/Examples.antt =====
-- A registry that is a list of metrics (pkg/observability/metrics.go).
use ztre.Base.{
  text_eq, text_eq_iff, Bool, true, false, ◌&&◌, ◌||◌, List, [], ◌∷◌, ◌≡◌, refl, arith,
  if◌then◌else◌, All, length,
}
use ztre.Observability.{
  Metric, fresh, already, Registry, done, panicked, register_safe, register_metrics, all_metrics,
}
use ztre.Observability.Registration.{IsRegistry, register_metrics_idem}

-- Two metrics are one collector if their names are the same.
abbrev same : Metric → Metric → Bool
same m k = text_eq m.subsystem k.subsystem && text_eq m.name k.name

abbrev has : List Metric → Metric → Bool
has [] k = false
has (m ∷ ms) k = same m k || has ms k

abbrev names : Registry
names = record {
  State = List Metric;
  register = λ s m. if has s m then (s, already) else (m ∷ s, fresh);
}

same_refl : (m : Metric) → same m m ≡ true
same_refl m = ground (arith, text_eq_iff m.subsystem m.subsystem, text_eq_iff m.name m.name)

names-IsRegistry : IsRegistry names
names-IsRegistry = record {
  Holds = λ s m. has s m ≡ true;
  repeats = λ s m h. rw h refl;
  takes = λ s m h. ground (arith, same_refl m);
  had = λ s m h. ground (arith, same_refl m);
  keeps = λ s m k h. ground arith;
}

abbrev listed : List Metric
listed = elim (register_metrics names []) [ done s ↦ s | panicked s ↦ s ]

all_listed : length listed ≡ 13
unfolding register_safe text_eq
all_listed = refl

register_metrics_idem_example :
    All (λ m. has listed m ≡ true) all_metrics × (register_metrics names listed ≡ done listed)
unfolding register_safe text_eq names-IsRegistry
register_metrics_idem_example = register_metrics_idem names names-IsRegistry [] listed refl
