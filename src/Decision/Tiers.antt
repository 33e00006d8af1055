-- ===== src/Decision/Tiers.antt =====
-- The action that a score gets (pkg/decision/engine.go, `Evaluate`), beside `Zone` of
-- pkg/risk/engine.go.
use ztre.Base.{
  ℕ, pos, ◌≤ℤ◌, ◌<ℤ◌, int64_max, inc_int64, inc_int64_mono, ◌≤◌, Bool, true, false, ◌≡◌, inl, inr,
  Bool-cases, arith, if◌then◌else◌,
}
use ztre.Float64.{Float64, IsIeee}
use ztre.Risk.{RiskScore, Zone, green, yellow, red, zone}
use ztre.Decision.{
  Action, allow_and_log, log_and_alert, auto_containment, ThresholdConfig, evaluate,
  evaluate_risk_score,
}
use ztre.Decision.Thresholds.{IsOrdered}

abbrev pub zone_action : Zone → Action
zone_action green = allow_and_log
zone_action yellow = log_and_alert
zone_action red = auto_containment

-- The zone that a score reports and the action that the engine takes agree, for all thresholds and
-- scores.
pub zone_action-zone :
    (f : Float64) (cfg : ThresholdConfig) (r : RiskScore f)
    → zone_action (zone f r cfg.green_max cfg.yellow_max) ≡ evaluate_risk_score f cfg r
unfolding zone evaluate_risk_score
zone_action-zone f cfg r =
    cases (f.lt r.total_score (f.of_int (inc_int64 cfg.green_max)))
      (f.lt r.total_score (f.of_int (inc_int64 cfg.yellow_max)))
  where
    cases :
        (a b : Bool)
        → zone_action (if a then green else if b then yellow else red)
          ≡ (if a then allow_and_log else if b then log_and_alert else auto_containment)
    cases a b = ground arith

-- How severe an action is.
abbrev pub rank : Action → ℕ
rank allow_and_log = 0
rank log_and_alert = 1
rank auto_containment = 2

abbrev tier : Bool → Bool → Action
tier a b = if a then allow_and_log else if b then log_and_alert else auto_containment

rank-tier :
    (a b c d : Bool)
    → (c ≡ true → a ≡ true)
    → (d ≡ true → b ≡ true)
    → rank (tier a b) ≤ rank (tier c d)
rank-tier true b c d h k = ground arith
rank-tier false true c d h k = ground (arith, h)
rank-tier false false c d h k = ground (arith, h, k)

module _ (f : Float64) (ieee : IsIeee f) (cfg : ThresholdConfig) where
  -- A higher score never gets a milder action, whatever the thresholds.
  pub evaluate_mono :
      (s t : f.Num) → f.le s t ≡ true → rank (evaluate f cfg s) ≤ rank (evaluate f cfg t)
  unfolding evaluate
  evaluate_mono s t h =
      let g = f.of_int (inc_int64 cfg.green_max) in
      let y = f.of_int (inc_int64 cfg.yellow_max) in
      rank-tier (f.lt s g) (f.lt s y) (f.lt t g) (f.lt t y) (ieee.le_lt_trans s t g h)
        (ieee.le_lt_trans s t y h)

  -- With thresholds in order, a score that is not below the yellow bound plus one is contained.
  pub evaluate_red :
      (s : f.Num)
      → IsOrdered cfg
      → cfg.yellow_max <ℤ pos int64_max
      → f.lt s (f.of_int (inc_int64 cfg.yellow_max)) ≡ false
      → evaluate f cfg s ≡ auto_containment
  unfolding evaluate
  evaluate_red s ordered fits over =
      let g = f.of_int (inc_int64 cfg.green_max) in
      let y = f.of_int (inc_int64 cfg.yellow_max) in
      let g_le_y : f.le g y ≡ true =
        ieee.of_int_mono (inc_int64 cfg.green_max) (inc_int64 cfg.yellow_max)
          (inc_int64_mono cfg.green_max cfg.yellow_max (omega arith) fits) in
      elim (Bool-cases (f.lt s g)) [
        | inl below ↦ cc (over, ieee.lt_le_trans s g y below g_le_y)
        | inr above ↦ rw (above, over)
      ]

-- Where the yellow bound is not above the green one, a score that is not below the green bound plus one
-- is contained: no score is only alerted on.
pub evaluate_no_yellow :
    (f : Float64) (ieee : IsIeee f) (cfg : ThresholdConfig) (s : f.Num)
    → cfg.yellow_max ≤ℤ cfg.green_max
    → cfg.green_max <ℤ pos int64_max
    → (f.lt s (f.of_int (inc_int64 cfg.green_max)) ≡ false)
    → evaluate f cfg s ≡ auto_containment
unfolding evaluate
evaluate_no_yellow f ieee cfg s crossed fits over =
    let g = f.of_int (inc_int64 cfg.green_max) in
    let y = f.of_int (inc_int64 cfg.yellow_max) in
    let y_le_g : f.le y g ≡ true =
      ieee.of_int_mono (inc_int64 cfg.yellow_max) (inc_int64 cfg.green_max)
        (inc_int64_mono cfg.yellow_max cfg.green_max crossed fits) in
    elim (Bool-cases (f.lt s y)) [
      | inl below ↦ cc (over, ieee.lt_le_trans s y g below y_le_g)
      | inr above ↦ rw (over, above)
    ]
