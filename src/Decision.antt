-- ===== src/Decision.antt =====
-- pkg/decision/engine.go and the actions of types.go: thresholds, their hot reload, and the action
-- for a score.
pub mod Thresholds
pub mod Tiers
pub mod Alert
pub mod Dispatcher
mod Examples
use ztre.Base.{
  ℕ, ℤ, pos, leb_ℤ, ltb_ℤ, inc_int64, Bool, true, false, ◌&&◌, Option, none, some, if◌then◌else◌,
}
use ztre.Float64.{Float64}
use ztre.Risk.{RiskScore}

pub data Action : Type 0 where
  allow_and_log log_and_alert auto_containment : Action

-- The fields are `int`.
pub record ThresholdConfig : Type 0 where
  pub green_max : ℤ
  pub yellow_max : ℤ

abbrev pub default_thresholds : ThresholdConfig
default_thresholds = record { green_max = pos 39; yellow_max = pos 69 }

-- The first test of `NewEngine`: unset bounds get their defaults.
unfoldable pub fill_green : ThresholdConfig → ThresholdConfig
fill_green cfg =
    if leb_ℤ cfg.green_max (pos 0) && leb_ℤ cfg.yellow_max (pos 0)
    then default_thresholds
    else if leb_ℤ cfg.green_max (pos 0)
    then record cfg { green_max = pos 39 }
    else cfg

-- The thresholds that `NewEngine` stores.
unfoldable pub new_engine : ThresholdConfig → ThresholdConfig
unfolding fill_green
new_engine given =
    let cfg = fill_green given in
    if leb_ℤ cfg.yellow_max cfg.green_max then record cfg { yellow_max = pos 69 } else cfg

-- The new thresholds, and whether the update was accepted.
unfoldable pub update_thresholds : ThresholdConfig → ThresholdConfig → ThresholdConfig × Bool
update_thresholds current cfg =
    if leb_ℤ cfg.yellow_max cfg.green_max then (current, false) else (cfg, true)

unfoldable pub evaluate : (f : Float64) → ThresholdConfig → f.Num → Action
unfolding inc_int64
evaluate f cfg total =
    if f.lt total (f.of_int (inc_int64 cfg.green_max))
    then allow_and_log
    else if f.lt total (f.of_int (inc_int64 cfg.yellow_max))
    then log_and_alert
    else auto_containment

unfoldable pub evaluate_risk_score : (f : Float64) → ThresholdConfig → RiskScore f → Action
unfolding evaluate
evaluate_risk_score f cfg score = evaluate f cfg score.total_score
