-- ===== src/Risk/Order.antt =====
-- The score grows with its parts (pkg/risk/engine.go, `Calculate`), on any numbers that round as
-- IEEE 754 does.
use ztre.Base.{ℕ, pos, ◌≡◌, true}
use ztre.Float64.{Float64, IsIeee, zero_of}
use ztre.Collector.Event.{SecurityEvent}
use ztre.Validator.{Classification}
use ztre.Risk.{PolicyConfig, Engine, severity_score, context_score, asset_score, calculate}

-- A number between 0 and 100.
pub record InRange (f : Float64) (x : f.Num) : Type 0 where
  pub nonneg : f.le (zero_of f) x ≡ true
  pub at_most : f.le x (f.of_int (pos 100)) ≡ true

pub record HasWeights (f : Float64) (p : PolicyConfig f) : Type 0 where
  pub severity : InRange f p.weight_severity
  pub context : InRange f p.weight_context
  pub asset : InRange f p.weight_asset

module _ (f : Float64) (ieee : IsIeee f) where
  open f use {Num, add, mul, le}

  product_nonneg : {w x : Num} → InRange f w → InRange f x → le (zero_of f) (mul w x) ≡ true
  product_nonneg {w} {x} hw hx = ieee.mul_nonneg w x 100 hw.nonneg hw.at_most hx.nonneg hx.at_most

  product_mono :
      {w x y : Num}
      → InRange f w
      → InRange f x
      → InRange f y
      → le x y ≡ true
      → le (mul w x) (mul w y) ≡ true
  product_mono {w} {x} {y} hw hx hy h =
      ieee.mul_mono w x y 100 hw.nonneg hw.at_most hx.nonneg h hy.at_most

  total_mono :
      (s c d a : Num)
      → le (zero_of f) s ≡ true
      → le (zero_of f) c ≡ true
      → le (zero_of f) a ≡ true
      → le c d ≡ true
      → le (add (add s c) a) (add (add s d) a) ≡ true
  total_mono s c d a hs hc ha h =
      ieee.add_mono_left (add s c) (add s d) a (ieee.add_nonneg s c hs hc)
        (ieee.add_mono_right c d s hc h hs) ha

  -- With weights and scores between 0 and 100, an event whose classification has the higher context
  -- score never gets a lower total.
  pub calculate_mono :
      (u : ℕ → ℕ) (e : Engine f) (event : SecurityEvent) (class worse : Classification)
      → HasWeights f e.policy
      → InRange f (severity_score u f e event)
      → InRange f (context_score u f e class)
      → InRange f (context_score u f e worse)
      → InRange f (asset_score u f e event.namespace)
      → le (context_score u f e class) (context_score u f e worse) ≡ true
      → le (calculate u f e event class).total_score (calculate u f e event worse).total_score
        ≡ true
  unfolding calculate
  calculate_mono u e event class worse w hs hc hd ha h =
      total_mono (mul e.policy.weight_severity (severity_score u f e event))
        (mul e.policy.weight_context (context_score u f e class))
        (mul e.policy.weight_context (context_score u f e worse))
        (mul e.policy.weight_asset (asset_score u f e event.namespace))
        (product_nonneg w.severity hs) (product_nonneg w.context hc) (product_nonneg w.asset ha)
        (product_mono w.context hc hd h)
