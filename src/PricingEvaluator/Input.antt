-- ===== src/PricingEvaluator/Input.antt =====
-- pricing-evaluator.ts: what an evaluation is made from, and what it returns. The labels of the
-- factors, which only a reader sees, are left out.
use stock_pilot_be.Prelude.{ℕ, Bool, true, false, Option, none, some, List}
use stock_pilot_be.Prelude.Int.{ℤ}

pub data DemandTrend : Type 0 where
  strong_up up stable down strong_down new_demand_spike stable_zero : DemandTrend

pub data DecisionDataStatus : Type 0 where
  enough insufficient_data : DecisionDataStatus

pub data PricingAction : Type 0 where
  increase decrease maintain : PricingAction

-- The `code` of a factor.
pub data FactorCode : Type 0 where
  selling_at_loss below_minimum_margin no_history low_confidence : FactorCode
  dead_stock_critical dead_stock_warning overstock_risk : FactorCode
  trend_strong_down trend_down trend_up : FactorCode
  price_floor_guard high_demand_low_stock balanced_demand_stock : FactorCode

-- An optional field is `none` where the caller leaves it out.
pub record PricingEvaluationInput (W : Type 0) : Type 0 where
  pub selling_price : W
  pub cost_price : W
  pub minimum_margin_pct : W
  pub max_markdown_pct : W
  pub max_markup_pct : W
  pub days_since_last_sale : Option ℕ
  pub days_of_cover : Option W
  pub overstock_score : W
  pub stockout_score : W
  pub trend : DemandTrend
  pub confidence_score : W
  pub slow_moving_days : Option ℕ
  pub dead_stock_days : Option ℕ
  pub high_risk_threshold : Option W
  pub target_coverage_days : Option W
  pub data_status : Option DecisionDataStatus
  pub available_stock : Option ℤ

pub record PricingEvaluationResult (W : Type 0) : Type 0 where
  pub action : PricingAction
  pub current_price : W
  pub recommended_price : W
  pub discount_pct : W
  pub minimum_price : W
  pub expected_margin_pct : W
  pub confidence : W
  pub factors : List FactorCode
  pub should_generate_recommendation : Bool

-- The default of a field that is left out.
abbrev pub or_default : {A : Type 0} → A → Option A → A
or_default a none = a
or_default a (some b) = b

-- engine-defaults.ts
abbrev pub default_slow_moving_days : ℕ
default_slow_moving_days = 60

abbrev pub default_dead_stock_days : ℕ
default_dead_stock_days = 90

abbrev pub is_insufficient : DecisionDataStatus → Bool
is_insufficient enough = false
is_insufficient insufficient_data = true

abbrev pub is_rising : DemandTrend → Bool
is_rising strong_down = false
is_rising down = false
is_rising stable = false
is_rising new_demand_spike = false
is_rising stable_zero = false
is_rising up = true
is_rising strong_up = true
