-- ===== src/Agent/Exempt.antt =====
-- Excluded namespaces are left alone (cmd/ztre-agent/main.go, with `IsNamespaceExcluded` of
-- pkg/config/config.go).
use ztre.Base.{
  ℕ, GoString, false, not, Option, none, some, List, [], ◌∷◌, ◌++◌, ◌≡◌, All, All-append, if_both,
  if_cases,
}
use ztre.Float64.{Float64}
use ztre.Containment.{Executor, Retry}
use ztre.Config.{is_namespace_excluded}
use ztre.Decision.{Action, allow_and_log, log_and_alert, auto_containment}
use ztre.Decision.Alert.{Alert, new_alert}
use ztre.Agent.{
  AgentMode, discovery, shadow, enforcement, Effect, alerted, contained, Agent, Input, observe,
  rehearse, enforce, is_classified, is_routine, class_of, score_of, action_of, alert_of, send_alert,
  contain, respond, in_mode, process,
}

abbrev pub effect_namespace : {f : Float64} → Effect f → GoString
effect_namespace (alerted a) = a.namespace
effect_namespace (contained namespace pod total err) = namespace

-- Every effect is on a namespace that the list does not exclude, and the list is the given one.
pub record IsExempting (f : Float64) (excluded : List GoString) (a : Agent f) : Type 0 where
  pub same : a.exclude_namespaces ≡ excluded
  pub spared :
      All (λ e. is_namespace_excluded excluded (effect_namespace {f = f} e) ≡ false) a.effects

module _ (retry : Retry) (u : ℕ → ℕ) (f : Float64) (excluded : List GoString) where
  abbrev Spares : Effect f → Type 0
  Spares e = is_namespace_excluded excluded (effect_namespace e) ≡ false

  contain-IsExempting :
      (a : Agent f) (o : Option Executor) (i : Input) (total : f.Num)
      → is_namespace_excluded excluded i.event.namespace ≡ false
      → IsExempting f excluded a
      → IsExempting f excluded (contain retry u f a o i total)
  contain-IsExempting a none i total n h = h
  contain-IsExempting a (some e) i total n h = record {
    same = h.same;
    spared = All-append Spares a.effects _ h.spared (n, tt);
  }

  respond-IsExempting :
      (a : Agent f) (action : Action) (alert : Alert f) (i : Input) (total : f.Num)
      → is_namespace_excluded excluded i.event.namespace ≡ false
      → is_namespace_excluded excluded alert.namespace ≡ false
      → IsExempting f excluded a
      → IsExempting f excluded (respond retry u f a action alert i total)
  respond-IsExempting a allow_and_log alert i total n m h = h
  respond-IsExempting a log_and_alert alert i total n m h = record {
    same = h.same;
    spared = All-append Spares a.effects _ h.spared (m, tt);
  }
  respond-IsExempting a auto_containment alert i total n m h =
      contain-IsExempting (send_alert retry u f a alert) a.executor i total n
        (record { same = h.same; spared = All-append Spares a.effects _ h.spared (m, tt) })

  enforce-IsExempting :
      (a : Agent f) (i : Input)
      → is_namespace_excluded excluded i.event.namespace ≡ false
      → IsExempting f excluded a
      → IsExempting f excluded (enforce retry u f a i)
  unfolding enforce new_alert
  enforce-IsExempting a i n h =
      if_both (IsExempting f excluded) (not (is_classified i.event.event_type)) h (
        if_both (IsExempting f excluded) (is_routine (class_of retry u f a i) i.event.event_type)
          (record { same = h.same; spared = h.spared })
          (respond-IsExempting
            (record a {
              classified = a.classified ++ (class_of retry u f a i ∷ []);
              observed = a.observed ++ ((score_of retry u f a i).total_score ∷ []);
            })
            (action_of retry u f a i) (alert_of retry u f a i) i
            (score_of retry u f a i).total_score n n (record { same = h.same; spared = h.spared })))

  rehearse-IsExempting :
      (a : Agent f) (i : Input)
      → IsExempting f excluded a
      → IsExempting f excluded (rehearse retry u f a i)
  unfolding rehearse
  rehearse-IsExempting a i h =
      if_both (IsExempting f excluded) (not (is_classified i.event.event_type)) h (
        if_both (IsExempting f excluded) (is_routine (class_of retry u f a i) i.event.event_type)
          (record { same = h.same; spared = h.spared })
          (record { same = h.same; spared = h.spared }))

  in_mode-IsExempting :
      (m : AgentMode) (a : Agent f) (i : Input)
      → is_namespace_excluded excluded i.event.namespace ≡ false
      → IsExempting f excluded a
      → IsExempting f excluded (in_mode retry u f m a i)
  unfolding observe
  in_mode-IsExempting discovery a i n h = record { same = h.same; spared = h.spared }
  in_mode-IsExempting shadow a i n h =
      rehearse-IsExempting (observe retry u f a i) i (record { same = h.same; spared = h.spared })
  in_mode-IsExempting enforcement a i n h = enforce-IsExempting a i n h

  pub process-IsExempting :
      (a : Agent f) (i : Input)
      → IsExempting f excluded a
      → IsExempting f excluded (process retry u f a i)
  unfolding process
  process-IsExempting a i h =
      if_cases (IsExempting f excluded)
        (is_namespace_excluded a.exclude_namespaces i.event.namespace) (λ _. h)
        (λ n. in_mode-IsExempting a.mode a i (rw h.same at n) h)
