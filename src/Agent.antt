-- ===== src/Agent.antt =====
-- cmd/ztre-agent/main.go: what a worker does with an event in each mode, and the hot reload. An event
-- is one step: the workers share the tracker, whitelist, thresholds and executor, each behind its lock.
pub mod Startup
pub mod Reload
pub mod Modes
pub mod Exempt
pub mod Enforce
pub mod Contain
pub mod Shutdown
pub mod Assembly
mod Examples
use ztre.Base.{
  ℕ, suc, ◌+◌, GoString, lit, text_eq, Bool, true, false, not, ◌&&◌, Option, none, some, List, [],
  ◌∷◌, ◌++◌, if◌then◌else◌,
}
use ztre.Base.Decimal.{decimal}
use ztre.Float64.{Float64}
use ztre.Collector.Event.{SecurityEvent, EventType, execve, exit, file_access, kprobe, unknown}
use ztre.Validator.{Classification, normal, suspicious, anomalous, Allow, classify}
use ztre.Risk
use ztre.Risk.{RiskScore, calculate}
use ztre.Decision.{
  Action, allow_and_log, log_and_alert, auto_containment, ThresholdConfig, evaluate_risk_score,
}
use ztre.Decision.Alert.{Alert, new_alert}
use ztre.Decision.Dispatcher.{Dispatcher, dispatch}
use ztre.Containment.{ApiError, Executor, Retry, quarantine}
use ztre.Discovery.Tracker.{BehaviorTracker, track, is_execve}
use ztre.Config.{is_namespace_excluded}

-- discovery.AgentMode
pub data AgentMode : Type 0 where
  discovery shadow enforcement : AgentMode

-- What an event made the agent do, in order.
pub data Effect (f : Float64) : Type 0 where
  -- an alert handed to the dispatcher
  alerted : Alert f → Effect f
  -- a call of `Quarantine` for a namespace and a pod, on a total score, and its error
  contained : GoString → GoString → f.Num → Option ApiError → Effect f

pub record Agent (f : Float64) : Type 0 where
  pub mode : AgentMode
  pub exclude_namespaces : List GoString
  pub tracker : BehaviorTracker
  pub whitelist : Allow
  pub engine : Risk.Engine f
  pub thresholds : ThresholdConfig
  -- nil outside enforcement mode
  pub executor : Option Executor
  pub dispatcher : Dispatcher f
  pub effects : List (Effect f)
  pub discovery_events : ℕ
  pub classified : List Classification
  pub observed : List f.Num
  pub shadow_decisions : List Action

-- An event, with the clock readings of its `Track` and its alert and the API's answers to a patch.
pub record Input : Type 0 where
  pub event : SecurityEvent
  pub clock : ℕ
  pub wall : ℕ
  pub now : ℕ
  pub answers : ℕ → Option ApiError

-- The event types that are classified.
abbrev pub is_classified : EventType → Bool
is_classified execve = true
is_classified kprobe = true
is_classified file_access = true
is_classified exit = false
is_classified unknown = false

-- `class == validator.ClassNormal && event.EventType == collector.EventTypeExecve`
abbrev pub is_routine : Classification → EventType → Bool
is_routine normal kind = is_execve kind
is_routine suspicious kind = false
is_routine anomalous kind = false

module _ (retry : Retry) (unicode_lower : ℕ → ℕ) (f : Float64) where
  -- `tracker.Track(event)` and its metric.
  unfoldable pub observe : Agent f → Input → Agent f
  observe a i = record a {
    tracker = track a.tracker (some i.event) i.clock i.wall;
    discovery_events = a.discovery_events + 1;
  }

  abbrev pub class_of : Agent f → Input → Classification
  class_of a i = classify a.whitelist i.event.parent_binary i.event.binary

  abbrev pub score_of : Agent f → Input → RiskScore f
  score_of a i = calculate unicode_lower f a.engine i.event (class_of a i)

  abbrev pub action_of : Agent f → Input → Action
  action_of a i = evaluate_risk_score f a.thresholds (score_of a i)

  abbrev pub alert_of : Agent f → Input → Alert f
  alert_of a i =
      new_alert f i.now (i.event.pod_name ++ (lit "-" ++ decimal i.event.pid)) i.event.namespace
        i.event.pod_name i.event.parent_binary i.event.binary i.event.arguments (class_of a i)
        (score_of a i) (action_of a i)

  abbrev pub send_alert : Agent f → Alert f → Agent f
  send_alert a alert = record a {
    dispatcher = dispatch f a.dispatcher alert;
    effects = a.effects ++ (alerted alert ∷ []);
  }

  -- `containmentExecutor.Quarantine`, if there is an executor.
  abbrev pub contain : Agent f → Option Executor → Input → f.Num → Agent f
  contain a none i total = a
  contain a (some e) i total =
      let (e', err) = quarantine retry e i.event.namespace i.event.pod_name i.answers in
      record a {
        executor = some e';
        effects = a.effects ++ (contained i.event.namespace i.event.pod_name total err ∷ []);
      }

  -- The `switch action` of enforcement mode.
  abbrev pub respond : Agent f → Action → Alert f → Input → f.Num → Agent f
  respond a allow_and_log alert i total = a
  respond a log_and_alert alert i total = send_alert a alert
  respond a auto_containment alert i total = contain (send_alert a alert) a.executor i total

  unfoldable pub enforce : Agent f → Input → Agent f
  enforce a i =
      let class = class_of a i in
      let a1 = record a { classified = a.classified ++ (class ∷ []) } in
      let total = (score_of a i).total_score in
      let a2 = record a1 { observed = a1.observed ++ (total ∷ []) } in
      if not (is_classified i.event.event_type)
      then a
      else if is_routine class i.event.event_type
      then a1
      else respond a2 (action_of a i) (alert_of a i) i total

  -- The classification and scoring of shadow mode, which decides and does nothing.
  unfoldable pub rehearse : Agent f → Input → Agent f
  rehearse a i =
      let class = class_of a i in
      let a1 = record a { classified = a.classified ++ (class ∷ []) } in
      let total = (score_of a i).total_score in
      if not (is_classified i.event.event_type)
      then a
      else if is_routine class i.event.event_type
      then a1
      else record a1 {
        observed = a1.observed ++ (total ∷ []);
        shadow_decisions = a1.shadow_decisions ++ (action_of a i ∷ []);
      }

  abbrev pub in_mode : AgentMode → Agent f → Input → Agent f
  in_mode discovery a i = observe a i
  in_mode shadow a i = rehearse (observe a i) i
  in_mode enforcement a i = enforce a i

  -- The body of a worker's loop.
  unfoldable pub process : Agent f → Input → Agent f
  process a i =
      if is_namespace_excluded a.exclude_namespaces i.event.namespace then a else in_mode a.mode a i

  unfoldable pub process_all : Agent f → List Input → Agent f
  process_all a [] = a
  process_all a (i ∷ rest) = process_all (process a i) rest
