-- ===== src/Agent/Enforce.antt =====
-- What enforcement mode does with a scored event (cmd/ztre-agent/main.go).
use ztre.Base.{
  ℕ, ℤ, inc_int64, false, not, Option, none, some, List, [], ◌∷◌, ◌++◌, ◌≡◌, All, All-append,
  if_both, if_cases,
}
use ztre.Float64.{Float64}
use ztre.Containment.{Executor, Retry}
use ztre.Config.{is_namespace_excluded}
use ztre.Decision.{
  Action, allow_and_log, log_and_alert, auto_containment, ThresholdConfig, evaluate,
  evaluate_risk_score,
}
use ztre.Decision.Alert.{Alert, new_alert}
use ztre.Agent.{
  AgentMode, discovery, shadow, enforcement, Effect, alerted, contained, Agent, Input, observe,
  rehearse, enforce, is_classified, is_routine, class_of, score_of, action_of, alert_of, send_alert,
  contain, respond, in_mode, process, process_all,
}

-- The score is not below a threshold plus one.
abbrev pub Reaches : (f : Float64) → f.Num → ℤ → Type 0
Reaches f total bound = f.lt total (f.of_int (inc_int64 bound)) ≡ false

-- An alert is for a score over the green bound, and a quarantine for one over both bounds.
abbrev pub IsJustified : (f : Float64) → ThresholdConfig → Effect f → Type 0
IsJustified f cfg (alerted a) = Reaches f a.total_risk_score cfg.green_max
IsJustified f cfg (contained namespace pod total err) =
    Reaches f total cfg.green_max × Reaches f total cfg.yellow_max

pub record IsRestrained (f : Float64) (cfg : ThresholdConfig) (a : Agent f) : Type 0 where
  pub same : a.thresholds ≡ cfg
  pub justified : All (IsJustified f cfg) a.effects

-- What an action says of the score.
abbrev Backs : (f : Float64) → ThresholdConfig → f.Num → Action → Type 0
Backs f cfg total allow_and_log = Unit
Backs f cfg total log_and_alert = Reaches f total cfg.green_max
Backs f cfg total auto_containment = Reaches f total cfg.green_max × Reaches f total cfg.yellow_max

evaluate-Backs :
    (f : Float64) (cfg : ThresholdConfig) (total : f.Num) → Backs f cfg total (evaluate f cfg total)
unfolding evaluate
evaluate-Backs f cfg total =
    if_cases (Backs f cfg total) (f.lt total (f.of_int (inc_int64 cfg.green_max))) (λ _. tt)
      (λ g.
        if_cases (Backs f cfg total) (f.lt total (f.of_int (inc_int64 cfg.yellow_max))) (λ _. g)
          (λ y. (g, y)))

module _ (retry : Retry) (u : ℕ → ℕ) (f : Float64) (cfg : ThresholdConfig) where
  contain-IsRestrained :
      (a : Agent f) (o : Option Executor) (i : Input) (total : f.Num)
      → Reaches f total cfg.green_max × Reaches f total cfg.yellow_max
      → IsRestrained f cfg a
      → IsRestrained f cfg (contain retry u f a o i total)
  contain-IsRestrained a none i total r h = h
  contain-IsRestrained a (some e) i total r h = record {
    same = h.same;
    justified = All-append (IsJustified f cfg) a.effects _ h.justified (r, tt);
  }

  respond-IsRestrained :
      (a : Agent f) (action : Action) (alert : Alert f) (i : Input)
      → Backs f cfg alert.total_risk_score action
      → IsRestrained f cfg a
      → IsRestrained f cfg (respond retry u f a action alert i alert.total_risk_score)
  respond-IsRestrained a allow_and_log alert i b h = h
  respond-IsRestrained a log_and_alert alert i b h = record {
    same = h.same;
    justified = All-append (IsJustified f cfg) a.effects _ h.justified (b, tt);
  }
  respond-IsRestrained a auto_containment alert i b h =
      contain-IsRestrained (send_alert retry u f a alert) a.executor i alert.total_risk_score b
        (record {
          same = h.same;
          justified = All-append (IsJustified f cfg) a.effects _ h.justified (b.0, tt);
        })

  enforce-IsRestrained :
      (a : Agent f) (i : Input) → IsRestrained f cfg a → IsRestrained f cfg (enforce retry u f a i)
  unfolding enforce new_alert evaluate_risk_score
  enforce-IsRestrained a i h =
      let total = (score_of retry u f a i).total_score in
      let backed : Backs f cfg total (action_of retry u f a i) =
        rw h.same (evaluate-Backs f cfg total) in
      if_both (IsRestrained f cfg) (not (is_classified i.event.event_type)) h (
        if_both (IsRestrained f cfg) (is_routine (class_of retry u f a i) i.event.event_type)
          (record { same = h.same; justified = h.justified })
          (respond-IsRestrained
            (record a {
              classified = a.classified ++ (class_of retry u f a i ∷ []);
              observed = a.observed ++ (total ∷ []);
            })
            (action_of retry u f a i) (alert_of retry u f a i) i backed
            (record { same = h.same; justified = h.justified })))

  rehearse-IsRestrained :
      (a : Agent f) (i : Input) → IsRestrained f cfg a → IsRestrained f cfg (rehearse retry u f a i)
  unfolding rehearse
  rehearse-IsRestrained a i h =
      if_both (IsRestrained f cfg) (not (is_classified i.event.event_type)) h (
        if_both (IsRestrained f cfg) (is_routine (class_of retry u f a i) i.event.event_type)
          (record { same = h.same; justified = h.justified })
          (record { same = h.same; justified = h.justified }))

  in_mode-IsRestrained :
      (m : AgentMode) (a : Agent f) (i : Input)
      → IsRestrained f cfg a
      → IsRestrained f cfg (in_mode retry u f m a i)
  unfolding observe
  in_mode-IsRestrained discovery a i h = record { same = h.same; justified = h.justified }
  in_mode-IsRestrained shadow a i h =
      rehearse-IsRestrained (observe retry u f a i) i
        (record { same = h.same; justified = h.justified })
  in_mode-IsRestrained enforcement a i h = enforce-IsRestrained a i h

  -- Over any sequence of events with no reload between: every alert that was sent carries a score that is
  -- not below the green bound plus one, and every quarantine was for a score that is not below the green
  -- and the yellow bound plus one.
  pub process_all-IsRestrained :
      (a : Agent f) (inputs : List Input)
      → IsRestrained f cfg a
      → IsRestrained f cfg (process_all retry u f a inputs)
  unfolding process_all process
  process_all-IsRestrained a [] h = h
  process_all-IsRestrained a (i ∷ rest) h = process_all-IsRestrained (process retry u f a i) rest (
      if_both (IsRestrained f cfg) (is_namespace_excluded a.exclude_namespaces i.event.namespace) h
        (in_mode-IsRestrained a.mode a i h))
