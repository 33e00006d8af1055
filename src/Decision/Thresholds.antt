-- ===== src/Decision/Thresholds.antt =====
-- Which thresholds the engine can hold (pkg/decision/engine.go).
use ztre.Base.{pos, ◌≤ℤ◌, ◌<ℤ◌, true, false, List, [], ◌∷◌, ◌≡◌, ◌↔◌, ◌⊎◌, arith}
use ztre.Decision.{ThresholdConfig, new_engine, update_thresholds}

abbrev pub IsOrdered : ThresholdConfig → Type 0
IsOrdered cfg = cfg.green_max <ℤ cfg.yellow_max

-- The configurations that `NewEngine` can repair or take as they are: the effective green bound is
-- the default, or lies below the yellow bound or below the default 69.
abbrev pub IsRepairable : ThresholdConfig → Type 0
IsRepairable cfg =
    (cfg.green_max ≤ℤ pos 0) ⊎ ((cfg.green_max <ℤ cfg.yellow_max) ⊎ (cfg.green_max <ℤ pos 69))

-- The thresholds of a new engine are in order exactly when the green bound given is not positive, or
-- below the yellow bound given, or below 69. Otherwise the repaired pair is still out of order.
pub new_engine-IsOrdered : (cfg : ThresholdConfig) → IsOrdered (new_engine cfg) ↔ IsRepairable cfg
unfolding new_engine
new_engine-IsOrdered cfg = (ground arith, ground arith)

-- A configuration in order with a positive green bound is taken as it is.
pub new_engine_id :
    (cfg : ThresholdConfig) → pos 1 ≤ℤ cfg.green_max → IsOrdered cfg → new_engine cfg ≡ cfg
unfolding new_engine
new_engine_id cfg h k = ground arith

abbrev pub reload : ThresholdConfig → List ThresholdConfig → ThresholdConfig
reload current [] = current
reload current (cfg ∷ rest) = reload (update_thresholds current cfg).0 rest

pub update-IsOrdered :
    (current cfg : ThresholdConfig)
    → IsOrdered current
    → IsOrdered (update_thresholds current cfg).0
unfolding update_thresholds
update-IsOrdered current cfg h = ground arith

-- Thresholds that are in order stay in order under any sequence of hot reloads.
pub reload-IsOrdered :
    (current : ThresholdConfig) (cfgs : List ThresholdConfig)
    → IsOrdered current
    → IsOrdered (reload current cfgs)
reload-IsOrdered current [] h = h
reload-IsOrdered current (cfg ∷ rest) h =
    reload-IsOrdered (update_thresholds current cfg).0 rest (update-IsOrdered current cfg h)

-- An update is accepted exactly when its bounds are in order; an accepted one is stored and a refused
-- one leaves the thresholds as they were.
pub update_exact :
    (current cfg : ThresholdConfig)
    → ((update_thresholds current cfg ≡ (cfg, true)) × IsOrdered cfg)
      ⊎ ((update_thresholds current cfg ≡ (current, false)) × (cfg.yellow_max ≤ℤ cfg.green_max))
unfolding update_thresholds
update_exact current cfg = ground arith
