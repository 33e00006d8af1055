-- ===== src/Agent/Modes.antt =====
-- Discovery and shadow mode only observe (cmd/ztre-agent/main.go).
use ztre.Base.{ℕ, ◌≡◌, refl, ◌∙◌, not, ◌≢◌, if_both}
use ztre.Float64.{Float64}
use ztre.Containment.{Retry}
use ztre.Agent.{
  AgentMode, discovery, shadow, enforcement, Agent, Input, observe, rehearse, is_classified,
  is_routine, class_of, in_mode, process,
}
use ztre.Config.{is_namespace_excluded}

-- The second agent has done nothing that the first has not, and is in the same mode.
pub record IsPassive {f : Float64} (a b : Agent f) : Type 0 where
  pub mode : b.mode ≡ a.mode
  pub executor : b.executor ≡ a.executor
  pub dispatcher : b.dispatcher ≡ a.dispatcher
  pub effects : b.effects ≡ a.effects

module _ (retry : Retry) (u : ℕ → ℕ) (f : Float64) where
  pub passive : (a : Agent f) → IsPassive a a
  passive a = record { mode = refl; executor = refl; dispatcher = refl; effects = refl }

  pub after-IsPassive : {a b c : Agent f} → IsPassive a b → IsPassive b c → IsPassive a c
  after-IsPassive p q = record {
    mode = q.mode ∙ p.mode;
    executor = q.executor ∙ p.executor;
    dispatcher = q.dispatcher ∙ p.dispatcher;
    effects = q.effects ∙ p.effects;
  }

  observe-IsPassive : (a : Agent f) (i : Input) → IsPassive a (observe retry u f a i)
  unfolding observe
  observe-IsPassive a i = record { mode = refl; executor = refl; dispatcher = refl; effects = refl }

  rehearse-IsPassive : (a : Agent f) (i : Input) → IsPassive a (rehearse retry u f a i)
  unfolding rehearse
  rehearse-IsPassive a i =
      if_both (IsPassive a) (not (is_classified i.event.event_type)) (passive a) (
        if_both (IsPassive a) (is_routine (class_of retry u f a i) i.event.event_type)
          (record { mode = refl; executor = refl; dispatcher = refl; effects = refl })
          (record { mode = refl; executor = refl; dispatcher = refl; effects = refl }))

  in_mode-IsPassive :
      (m : AgentMode) (a : Agent f) (i : Input)
      → m ≢ enforcement
      → IsPassive a (in_mode retry u f m a i)
  in_mode-IsPassive discovery a i h = observe-IsPassive a i
  in_mode-IsPassive shadow a i h =
      after-IsPassive (observe-IsPassive a i) (rehearse-IsPassive (observe retry u f a i) i)
  in_mode-IsPassive enforcement a i h = absurd (h refl)

  pub process-IsPassive :
      (a : Agent f) (i : Input) → a.mode ≢ enforcement → IsPassive a (process retry u f a i)
  unfolding process
  process-IsPassive a i h =
      if_both (IsPassive a) (is_namespace_excluded a.exclude_namespaces i.event.namespace)
        (passive a) (in_mode-IsPassive a.mode a i h)
