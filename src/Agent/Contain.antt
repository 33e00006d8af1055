-- ===== src/Agent/Contain.antt =====
-- A severe event is contained, and a worse classification never leads to a milder response
-- (cmd/ztre-agent/main.go).
use ztre.Base.{
  ℕ, pos, inc_int64, int64_max, ◌<ℤ◌, ◌≤◌, true, false, Option, some, [], ◌∷◌, ◌++◌, ◌≡◌, refl, ◌∙◌,
}
use mathlib.Core.List.{append_assoc}
use ztre.Float64.{Float64, IsIeee}
use ztre.Validator.{Classification}
use ztre.Collector.Event.{SecurityEvent}
use ztre.Risk.{Engine, calculate, severity_score, context_score, asset_score}
use ztre.Risk.Order.{HasWeights, InRange, calculate_mono}
use ztre.Containment.{Executor, Retry, quarantine}
use ztre.Config.{is_namespace_excluded}
use ztre.Decision.{Action, auto_containment, ThresholdConfig, evaluate_risk_score}
use ztre.Decision.Thresholds.{IsOrdered}
use ztre.Decision.Alert.{Alert}
use ztre.Decision.Tiers.{rank, evaluate_mono, evaluate_red}
use ztre.Agent.{
  AgentMode, enforcement, alerted, contained, Agent, Input, enforce, is_classified, is_routine,
  class_of, score_of, action_of, alert_of, send_alert, contain, respond, in_mode, process,
}

module _ (retry : Retry) (u : ℕ → ℕ) (f : Float64) (ieee : IsIeee f) where
  enforce_scored :
      (a : Agent f) (i : Input)
      → is_classified i.event.event_type ≡ true
      → is_routine (class_of retry u f a i) i.event.event_type ≡ false
      → enforce retry u f a i
        ≡ respond retry u f
            (record a {
              classified = a.classified ++ (class_of retry u f a i ∷ []);
              observed = a.observed ++ ((score_of retry u f a i).total_score ∷ []);
            })
            (action_of retry u f a i)
            (alert_of retry u f a i)
            i
            (score_of retry u f a i).total_score
  unfolding enforce
  enforce_scored a i classified scored = rw (classified, scored)

  contain_active :
      (a : Agent f) (o : Option Executor) (i : Input) (total : f.Num) (e : Executor)
      → o ≡ some e
      → let (e', err) = quarantine retry e i.event.namespace i.event.pod_name i.answers in
        ((contain retry u f a o i total).executor ≡ some e')
        × ((contain retry u f a o i total).effects
            ≡ a.effects ++ (contained i.event.namespace i.event.pod_name total err ∷ []))
  contain_active a o i total e h = rw h (refl, refl)

  -- The answer to a red score of an agent with an executor.
  respond_red :
      (a : Agent f) (action : Action) (alert : Alert f) (i : Input) (total : f.Num) (e : Executor)
      → action ≡ auto_containment
      → a.executor ≡ some e
      → let (e', err) = quarantine retry e i.event.namespace i.event.pod_name i.answers in
        ((respond retry u f a action alert i total).executor ≡ some e')
        × ((respond retry u f a action alert i total).effects
            ≡ a.effects
              ++ (alerted alert ∷ contained i.event.namespace i.event.pod_name total err ∷ []))
  respond_red a action alert i total e red executor = rw red (
      let done = contain_active (send_alert retry u f a alert) a.executor i total e executor in
      (done.0, done.1 ∙ append_assoc a.effects _ _))

  in_mode_red :
      (m : AgentMode) (P : Agent f → Type 0) (a : Agent f) (i : Input)
      → m ≡ enforcement
      → P (enforce retry u f a i)
      → P (in_mode retry u f m a i)
  in_mode_red m P a i h p = rw h p

  -- In enforcement mode, an event of a classified kind from a namespace that is not excluded, which is no
  -- routine execve and scores at least the yellow bound plus one, is alerted on and then quarantined:
  -- the executor goes through one call of `Quarantine` for its pod, and the result is on record.
  pub process_red :
      (a : Agent f) (i : Input) (e : Executor)
      → a.mode ≡ enforcement
      → a.executor ≡ some e
      → is_namespace_excluded a.exclude_namespaces i.event.namespace ≡ false
      → is_classified i.event.event_type ≡ true
      → is_routine (class_of retry u f a i) i.event.event_type ≡ false
      → IsOrdered a.thresholds
      → a.thresholds.yellow_max <ℤ pos int64_max
      → f.lt (score_of retry u f a i).total_score (f.of_int (inc_int64 a.thresholds.yellow_max))
        ≡ false
      → let (e', err) = quarantine retry e i.event.namespace i.event.pod_name i.answers in
        ((process retry u f a i).executor ≡ some e')
        × ((process retry u f a i).effects
            ≡ a.effects
              ++ (alerted (alert_of retry u f a i)
                  ∷ contained i.event.namespace i.event.pod_name
                      (score_of retry u f a i).total_score
                      err
                  ∷ []))
  unfolding process
  process_red a i e mode executor included classified scored ordered fits over =
      let total = (score_of retry u f a i).total_score in
      let red : action_of retry u f a i ≡ auto_containment =
        unfold evaluate_risk_score in evaluate_red f ieee a.thresholds total ordered fits over in
      rw included (
        in_mode_red a.mode
          (λ b.
            let (e', err) = quarantine retry e i.event.namespace i.event.pod_name i.answers in
            (b.executor ≡ some e')
            × (b.effects
                ≡ a.effects
                  ++ (alerted (alert_of retry u f a i)
                      ∷ contained i.event.namespace i.event.pod_name total err
                      ∷ [])))
          a i mode
          (rw (enforce_scored a i classified scored) (
            respond_red _ (action_of retry u f a i) (alert_of retry u f a i) i total e red
              executor)))

  -- With weights and scores between 0 and 100: of two classifications of an event, the one with the higher
  -- context score never gets the milder action, whatever the thresholds.
  pub action_mono :
      (e : Engine f) (cfg : ThresholdConfig) (event : SecurityEvent) (class worse : Classification)
      → HasWeights f e.policy
      → InRange f (severity_score u f e event)
      → InRange f (context_score u f e class)
      → InRange f (context_score u f e worse)
      → InRange f (asset_score u f e event.namespace)
      → f.le (context_score u f e class) (context_score u f e worse) ≡ true
      → rank (evaluate_risk_score f cfg (calculate u f e event class))
        ≤ rank (evaluate_risk_score f cfg (calculate u f e event worse))
  unfolding evaluate_risk_score
  action_mono e cfg event class worse w hs hc hd ha h =
      evaluate_mono f ieee cfg (calculate u f e event class).total_score
        (calculate u f e event worse).total_score
        (calculate_mono f ieee u e event class worse w hs hc hd ha h)
