-- ===== src/Observability/Registration.antt =====
-- Registering twice does no harm (pkg/observability/metrics.go).
mod Examples
use ztre.Base.{
  ℕ, GoString, Bool, true, false, List, [], ◌∷◌, ◌≡◌, refl, ap, ◌∙◌, sym, All, inl, inr,
}
use mathlib.Core.Path.{subst}
use ztre.Observability.{
  Metric, Registered, fresh, already, refused, Registry, Loop, done, panicked, after_turn,
  register_safe, register_metrics, all_metrics,
}

-- A registry remembers what it has: a collector that it took, or said it already had, it answers with
-- AlreadyRegisteredError from then on, and stays as it is.
pub record IsRegistry (r : Registry) : Type 1 where
  pub Holds : r.State → Metric → Type 0
  pub repeats : (s : r.State) (m : Metric) → Holds s m → r.register s m ≡ (s, already)
  pub takes : (s : r.State) (m : Metric) → (r.register s m).1 ≡ fresh → Holds (r.register s m).0 m
  pub had : (s : r.State) (m : Metric) → (r.register s m).1 ≡ already → Holds (r.register s m).0 m
  pub keeps : (s : r.State) (m k : Metric) → Holds s k → Holds (r.register s m).0 k

done_inj : {A : Type 0} (s t : A) → done s ≡ done t → s ≡ t
done_inj s t h = cc

module _ (r : Registry) (laws : IsRegistry r) where
  -- A collector whose turn did not panic is held after it.
  turn-Holds :
      (s : r.State) (m : Metric) (answer : Registered)
      → (r.register s m).1 ≡ answer
      → ¬ (answer ≡ refused)
      → laws.Holds (r.register s m).0 m
  turn-Holds s m fresh e h = laws.takes s m e
  turn-Holds s m already e h = laws.had s m e
  turn-Holds s m refused e h = absurd (h refl)

  after_turn-done :
      (answer : Registered) (s t : r.State) (rest : Loop r.State)
      → after_turn r answer s rest ≡ done t
      → (¬ (answer ≡ refused)) × (rest ≡ done t)
  after_turn-done fresh s t rest h = ((λ e. cc), h)
  after_turn-done already s t rest h = ((λ e. cc), h)
  after_turn-done refused s t rest h = cc

  loop-keeps :
      (s t : r.State) (ms : List Metric) (k : Metric)
      → register_safe r s ms ≡ done t
      → laws.Holds s k
      → laws.Holds t k
  unfolding register_safe
  loop-keeps s t [] k h held = subst (λ x. laws.Holds x k) (done_inj s t h) held
  loop-keeps s t (m ∷ ms) k h held =
      let (ok, rest) = after_turn-done (r.register s m).1 (r.register s m).0 t _ h in
      loop-keeps (r.register s m).0 t ms k rest (laws.keeps s m k held)

  loop-Holds :
      (s t : r.State) (ms : List Metric) → register_safe r s ms ≡ done t → All (laws.Holds t) ms
  unfolding register_safe
  loop-Holds s t [] h = tt
  loop-Holds s t (m ∷ ms) h =
      let s' = (r.register s m).0 in
      let (ok, rest) = after_turn-done (r.register s m).1 s' t _ h in
      (
        loop-keeps s' t ms m rest (turn-Holds s m (r.register s m).1 refl ok),
        loop-Holds s' t ms rest,
      )

  loop-again :
      (t : r.State) (ms : List Metric) → All (laws.Holds t) ms → register_safe r t ms ≡ done t
  unfolding register_safe
  loop-again t [] h = refl
  loop-again t (m ∷ ms) h = rw (laws.repeats t m h.0) (loop-again t ms h.1)

  -- After a `RegisterMetrics` that did not panic, every metric is registered, and calling it again (the
  -- package's `init` has called it already) neither panics nor changes the registry.
  pub register_metrics_idem :
      (s t : r.State)
      → register_metrics r s ≡ done t
      → All (laws.Holds t) all_metrics × (register_metrics r t ≡ done t)
  register_metrics_idem s t h =
      let held = loop-Holds s t all_metrics h in (held, loop-again t all_metrics held)
