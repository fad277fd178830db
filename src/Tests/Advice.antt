-- ===== src/Tests/Advice.antt =====
-- The theorems on the evaluators of the decision engine, applied to an item.
use stock_pilot_be.Prelude.{◌≤◌, ◌≡◌, true, refl, none, some}
use stock_pilot_be.Prelude.Int.{pos}
use stock_pilot_be.Floats.{
  ◌≼◌, IsNumber, whole, math_max, math_min, math_max-IsNumber, math_min-IsNumber,
}
use stock_pilot_be.PricingEvaluator.{
  evaluate_pricing, floor_of, calculate_minimum_price, ceil_thousand, round_thousand,
  evaluate_demand, is_markdown_candidate, markdown_price, raw_discount, base_markdown,
  trend_adjustment, mark_down,
}
use stock_pilot_be.PricingEvaluator.Input.{PricingEvaluationInput, stable}
use stock_pilot_be.PricingEvaluator.Fair.{IsFair, evaluate_pricing-IsFair}
use stock_pilot_be.RiskEvaluator.Grades.{
  StockoutInput, Thresholds, shortage_ratio, least_stockout, calculate_stockout_risk,
  weighted_stockout, coverage_risk, stockout_raw,
}
use stock_pilot_be.RiskEvaluator.Supply.{
  ReorderInput, reorder_cap, up_to_target, calculate_reorder_quantity,
}
use stock_pilot_be.RiskEvaluator.Scores.{rank, very_short, calculate_stockout_risk-floor}
use stock_pilot_be.RiskEvaluator.Reorder.{calculate_reorder_quantity-bounds}
use stock_pilot_be.Tests.Thousandths.{
  Thousandths, thousandths, Thousandths-IsOrdered, Thousandths-RoundsInOrder,
}

-- It costs 50,000, sells for 100,000, and has not sold for 200 days.
abbrev slow_seller : PricingEvaluationInput Thousandths
slow_seller = record {
  selling_price = some 100_000_000;
  cost_price = some 50_000_000;
  minimum_margin_pct = some 200;
  max_markdown_pct = some 300;
  max_markup_pct = some 200;
  days_since_last_sale = some 200;
  days_of_cover = none;
  overstock_score = some 60_000;
  stockout_score = some 0;
  trend = stable;
  confidence_score = some 80_000;
  slow_moving_days = none;
  dead_stock_days = none;
  high_risk_threshold = none;
  target_coverage_days = none;
  data_status = none;
  available_stock = none;
}

evaluate_pricing-IsFair_example : IsFair (evaluate_pricing slow_seller)
unfolding floor_of calculate_minimum_price ceil_thousand round_thousand
evaluate_pricing-IsFair_example =
    evaluate_pricing-IsFair Thousandths-IsOrdered Thousandths-RoundsInOrder slow_seller refl refl
      refl refl

marked_down : (evaluate_pricing slow_seller).recommended_price ≡ some 75_000_000
unfolding evaluate_pricing floor_of calculate_minimum_price ceil_thousand evaluate_demand
    is_markdown_candidate markdown_price round_thousand math_max raw_discount math_min base_markdown
    trend_adjustment mark_down
marked_down = refl

-- With a margin of 100 percent the floor is the cost, in no whole thousands: the markdown is then
-- rounded to below the cost.
full_margin_sells_at_loss :
    (evaluate_pricing (record slow_seller {
      cost_price = some 75_400_000;
      minimum_margin_pct = some 1_000;
    })).recommended_price
    ≡ some 75_000_000
unfolding evaluate_pricing floor_of calculate_minimum_price ceil_thousand evaluate_demand
    is_markdown_candidate markdown_price round_thousand math_max raw_discount math_min base_markdown
    trend_adjustment mark_down
full_margin_sells_at_loss = refl

abbrev thresholds : Thresholds Thousandths
thresholds = record {
  low_threshold = some 25_000;
  high_threshold = some 50_000;
  critical_threshold = some 75_000;
}

abbrev short : StockoutInput Thousandths
short = record {
  available_stock = some 2_000;
  reorder_point = some 10_000;
  days_of_cover = none;
  lead_time_days = some 7_000;
  safety_days = some 3_000;
  trend_ratio = some 1_000;
}

short_weighted : IsNumber (weighted_stockout short)
unfolding weighted_stockout shortage_ratio coverage_risk math_max math_min
short_weighted = refl

short_least : IsNumber (least_stockout thresholds (shortage_ratio short))
unfolding least_stockout shortage_ratio math_max
short_least = refl

short-IsNumber : IsNumber (calculate_stockout_risk thresholds short).score
unfolding calculate_stockout_risk stockout_raw
short-IsNumber = math_min-IsNumber Thousandths-IsOrdered (whole 100) _ refl (
    math_max-IsNumber Thousandths-IsOrdered (whole 0) _ refl
      (math_max-IsNumber Thousandths-IsOrdered _ _ short_weighted short_least))

-- Eight of ten are missing.
short_much : thousandths.ratio (pos 7) 10 ≼ shortage_ratio short
unfolding shortage_ratio math_max
short_much = refl

calculate_stockout_risk-floor_example :
    (thresholds.critical_threshold ≼ (calculate_stockout_risk thresholds short).score)
    × (3 ≤ rank (calculate_stockout_risk thresholds short).severity)
calculate_stockout_risk-floor_example =
    calculate_stockout_risk-floor Thousandths-IsOrdered thresholds refl refl refl refl refl refl
      short refl refl short-IsNumber thresholds.critical_threshold 3 (very_short short_much)

abbrev running_out : ReorderInput Thousandths
running_out = record {
  available_stock = some 4_000;
  reorder_point = some 10_000;
  avg_daily_demand = some 1_000;
  lead_time_days = some 7_000;
  target_coverage_days = some 30_000;
  safety_stock = some 3_000;
  min_stock_level = some 5_000;
  max_stock_level = some 20_000;
  has_sufficient_history = true;
}

calculate_reorder_quantity-bounds_example :
    (whole 0 ≼ calculate_reorder_quantity running_out)
    × (calculate_reorder_quantity running_out ≼ math_max (whole 0) (some 16_000))
unfolding calculate_reorder_quantity reorder_cap math_min math_max up_to_target
calculate_reorder_quantity-bounds_example =
    calculate_reorder_quantity-bounds Thousandths-IsOrdered running_out refl refl refl
