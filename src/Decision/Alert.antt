-- ===== src/Decision/Alert.antt =====
-- The alert of pkg/decision/types.go.
use ztre.Base.{ℕ, GoString, lit}
use ztre.Float64.{Float64}
use ztre.Risk.{RiskScore}
use ztre.Validator.{Classification}
use ztre.Decision.{Action, allow_and_log, log_and_alert, auto_containment}

pub record Alert (f : Float64) : Type 0 where
  pub event_id : GoString
  pub timestamp : ℕ
  pub pod_name : GoString
  pub namespace : GoString
  pub parent_binary : GoString
  pub binary : GoString
  pub arguments : GoString
  pub classification : Classification
  pub severity_score : f.Num
  pub context_score : f.Num
  pub asset_score : f.Num
  pub total_risk_score : f.Num
  pub action : Action
  pub recommended_action : GoString

abbrev pub recommended : Action → GoString
recommended auto_containment =
    lit "Immediate pod network containment triggered. Review process tree and forensic memory."
recommended log_and_alert =
    lit
      "Manual security analyst review recommended. Check command line arguments and network endpoints."
recommended allow_and_log =
    lit "Activity permitted by security baseline. No immediate intervention required."

-- `NewAlert`; `now` is the clock.
unfoldable pub new_alert :
    (f : Float64) (now : ℕ) (event_id namespace pod parent binary args : GoString)
    → Classification
    → RiskScore f
    → Action
    → Alert f
new_alert f now event_id namespace pod parent binary args class score action = record {
  event_id = event_id;
  timestamp = now;
  pod_name = pod;
  namespace = namespace;
  parent_binary = parent;
  binary = binary;
  arguments = args;
  classification = class;
  severity_score = score.severity_score;
  context_score = score.context_score;
  asset_score = score.asset_score;
  total_risk_score = score.total_score;
  action = action;
  recommended_action = recommended action;
}
