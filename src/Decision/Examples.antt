-- ===== src/Decision/Examples.antt =====
-- Runs of pkg/decision/engine.go on fixed-point numbers, and instances of its theorems.
use ztre.Base.{pos, ◌≡◌, refl}
use ztre.Float64.{fixed}
use ztre.Risk.{RiskScore, zone}
use ztre.Decision.{
  allow_and_log, ThresholdConfig, default_thresholds, new_engine, evaluate, evaluate_risk_score,
}
use ztre.Decision.Tiers.{zone_action, zone_action-zone}

abbrev crossed : ThresholdConfig
crossed = record { green_max = pos 80; yellow_max = pos 75 }

-- The repair of `NewEngine` lowers the yellow bound further below the green one.
crossed_stays : new_engine crossed ≡ record { green_max = pos 80; yellow_max = pos 69 }
unfolding new_engine
crossed_stays = refl

crossed_allows : evaluate fixed (new_engine crossed) (pos 80000) ≡ allow_and_log
unfolding evaluate new_engine
crossed_allows = refl

fractional : evaluate fixed default_thresholds (pos 39999) ≡ allow_and_log
unfolding evaluate
fractional = refl

abbrev score : RiskScore fixed
score = record {
  severity_score = pos 50000;
  context_score = pos 50000;
  asset_score = pos 50000;
  total_score = pos 50000;
}

zone_action-zone_example :
    zone_action (zone fixed score (pos 39) (pos 69))
    ≡ evaluate_risk_score fixed default_thresholds score
zone_action-zone_example = zone_action-zone fixed default_thresholds score
