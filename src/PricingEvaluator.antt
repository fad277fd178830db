-- ===== src/PricingEvaluator.antt =====
-- src/modules/decision-engine/pricing-evaluator.ts: what the engine recommends for the price of an item.
pub mod Input
pub mod Fair
use stock_pilot_be.Prelude.{
  ℕ, ◌*◌, Bool, true, false, not, ◌&&◌, ◌||◌, Option, none, some, List, [], ◌∷◌, ◌++◌, leb,
  if◌then◌else◌,
}
use stock_pilot_be.Prelude.Int.{ℤ, pos, negsuc, leb_ℤ}
use stock_pilot_be.Prelude.Rows.{holds}
use stock_pilot_be.Floats.{Floats, whole, math_max, math_min}
use stock_pilot_be.PricingEvaluator.Input.{
  DecisionDataStatus, DemandTrend, FactorCode, PricingAction, PricingEvaluationInput,
  PricingEvaluationResult, balanced_demand_stock, below_minimum_margin, dead_stock_critical,
  dead_stock_warning, decrease, default_dead_stock_days, default_slow_moving_days, down, enough,
  high_demand_low_stock, increase, insufficient_data, is_insufficient, is_rising, low_confidence,
  maintain, new_demand_spike, no_history, or_default, overstock_risk, price_floor_guard,
  selling_at_loss, stable, stable_zero, strong_down, strong_up, trend_down, trend_strong_down,
  trend_up, up,
}

module _ {W : Type 0} ⦃f : Floats W⦄ where
  -- `Math.ceil(x / 1000) * 1000` and `Math.round(x / 1000) * 1000`
  unfoldable pub ceil_thousand : W → W
  ceil_thousand x = f.mul (f.ceil (f.div x (whole 1_000))) (whole 1_000)

  unfoldable pub round_thousand : W → W
  round_thousand x = f.mul (f.round (f.div x (whole 1_000))) (whole 1_000)

  unfoldable pub calculate_minimum_price : W → W → W
  calculate_minimum_price cost margin =
      if f.le (whole 1) margin then cost else ceil_thousand (f.div cost (f.sub (whole 1) margin))

  -- `Number((((price - cost) / base) * 100).toFixed(1))`
  unfoldable pub margin_pct : W → W → W → W
  margin_pct price cost base = f.to_fixed 1 (f.mul (f.div (f.sub price cost) base) (whole 100))

  unfoldable pub trend_adjustment : DemandTrend → W × List FactorCode
  trend_adjustment strong_down = (f.ratio (pos 5) 100, trend_strong_down ∷ [])
  trend_adjustment down = (f.ratio (pos 3) 100, trend_down ∷ [])
  trend_adjustment stable = (whole 0, [])
  trend_adjustment new_demand_spike = (whole 0, [])
  trend_adjustment stable_zero = (whole 0, [])
  trend_adjustment up = (f.ratio (negsuc 4) 100, trend_up ∷ [])
  trend_adjustment strong_up = (f.ratio (negsuc 4) 100, trend_up ∷ [])

  -- 15 percent for a strong trend, and 8 for another.
  unfoldable pub markup_limit : DemandTrend → W
  markup_limit strong_up = f.ratio (pos 15) 100
  markup_limit strong_down = f.ratio (pos 8) 100
  markup_limit down = f.ratio (pos 8) 100
  markup_limit stable = f.ratio (pos 8) 100
  markup_limit new_demand_spike = f.ratio (pos 8) 100
  markup_limit stable_zero = f.ratio (pos 8) 100
  markup_limit up = f.ratio (pos 8) 100

  module _ (i : PricingEvaluationInput W) where
    unfoldable pub floor_of : W
    floor_of = calculate_minimum_price i.cost_price i.minimum_margin_pct

    -- A price correction upwards, to `price` and with at least the confidence `sure`.
    unfoldable pub correct_to : W → W → FactorCode → PricingEvaluationResult W
    correct_to price sure code = record {
      action = increase;
      current_price = i.selling_price;
      recommended_price = price;
      discount_pct = whole 0;
      minimum_price = floor_of;
      expected_margin_pct = margin_pct price i.cost_price price;
      confidence = math_max i.confidence_score sure;
      factors = code ∷ [];
      should_generate_recommendation = true;
    }

    unfoldable pub keep_price : List FactorCode → PricingEvaluationResult W
    keep_price factors = record {
      action = maintain;
      current_price = i.selling_price;
      recommended_price = i.selling_price;
      discount_pct = whole 0;
      minimum_price = floor_of;
      expected_margin_pct =
          margin_pct i.selling_price i.cost_price (math_max (whole 1) i.selling_price);
      confidence = i.confidence_score;
      factors = factors;
      should_generate_recommendation = false;
    }

    -- `Math.max(minimumPrice, Math.ceil((costPrice * 1.15) / 1000) * 1000)`
    unfoldable pub loss_price : W
    loss_price = math_max floor_of (ceil_thousand (f.mul i.cost_price (f.ratio (pos 115) 100)))

    abbrev pub dead_days : ℕ
    dead_days = or_default default_dead_stock_days i.dead_stock_days

    -- `daysSinceLastSale !== null && daysSinceLastSale >= days`
    abbrev pub unsold_for : ℕ → Bool
    unsold_for days = holds (λ d. leb days d) i.days_since_last_sale

    abbrev pub high_risk : W
    high_risk = or_default (whole 50) i.high_risk_threshold

    -- Days of cover above the coverage target times OVERSTOCK_PRICING_COVER_MULTIPLE.
    abbrev pub covers_too_long : Bool
    covers_too_long =
        holds
          (λ d. f.lt (f.mul (or_default (whole 30) i.target_coverage_days) (f.ratio (pos 15) 10)) d)
          i.days_of_cover

    unfoldable pub is_markdown_candidate : Bool
    is_markdown_candidate =
        not (holds (λ s. leb_ℤ s (pos 0)) i.available_stock)
        && (unsold_for (or_default default_slow_moving_days i.slow_moving_days)
            || f.le high_risk i.overstock_score
            || covers_too_long)

    unfoldable pub base_markdown : W × FactorCode
    base_markdown =
        if unsold_for (dead_days * 2)
        then (f.ratio (pos 25) 100, dead_stock_critical)
        else if unsold_for dead_days
        then (f.ratio (pos 15) 100, dead_stock_warning)
        else (f.ratio (pos 10) 100, overstock_risk)

    unfoldable pub raw_discount : W
    raw_discount =
        math_min i.max_markdown_pct
          (math_max (f.ratio (pos 5) 100) (f.add base_markdown.0 (trend_adjustment i.trend).0))

    -- The discounted price, never below the floor, rounded.
    unfoldable pub markdown_price : W
    markdown_price =
        round_thousand (math_max floor_of (f.mul i.selling_price (f.sub (whole 1) raw_discount)))

    unfoldable pub markdown_factors : List FactorCode
    markdown_factors =
        if is_markdown_candidate then base_markdown.1 ∷ (trend_adjustment i.trend).1 else []

    unfoldable pub mark_down : PricingEvaluationResult W
    mark_down = record {
      action = decrease;
      current_price = i.selling_price;
      recommended_price = markdown_price;
      discount_pct =
          f.to_fixed 1
            (f.mul (f.div (f.sub i.selling_price markdown_price) i.selling_price) (whole 100));
      minimum_price = floor_of;
      expected_margin_pct = margin_pct markdown_price i.cost_price markdown_price;
      confidence = i.confidence_score;
      factors = markdown_factors ++ price_floor_guard ∷ [];
      should_generate_recommendation = true;
    }

    unfoldable pub markup_price : W
    markup_price =
        round_thousand (
          f.mul i.selling_price
            (f.add (whole 1) (math_min i.max_markup_pct (markup_limit i.trend))))

    -- The factors of a markdown that came to nothing stay in the list.
    unfoldable pub mark_up : PricingEvaluationResult W
    mark_up = record {
      action = increase;
      current_price = i.selling_price;
      recommended_price = markup_price;
      discount_pct = whole 0;
      minimum_price = floor_of;
      expected_margin_pct = margin_pct markup_price i.cost_price markup_price;
      confidence = i.confidence_score;
      factors = markdown_factors ++ high_demand_low_stock ∷ [];
      should_generate_recommendation = true;
    }

    abbrev pub marks_down : Bool
    marks_down = is_markdown_candidate && f.lt markdown_price i.selling_price

    abbrev pub marks_up : Bool
    marks_up =
        f.le high_risk i.stockout_score && is_rising i.trend && f.lt i.selling_price markup_price

    -- The rules on demand, which need enough history.
    unfoldable pub evaluate_demand : PricingEvaluationResult W
    evaluate_demand =
        if is_insufficient (or_default enough i.data_status)
        then keep_price (no_history ∷ [])
        else if f.lt i.confidence_score (whole 40)
        then keep_price (low_confidence ∷ [])
        else if marks_down
        then mark_down
        else if marks_up
        then mark_up
        else keep_price (markdown_factors ++ balanced_demand_stock ∷ [])

    abbrev pub sells_below : W → Bool
    sells_below price = f.lt (whole 0) i.cost_price && f.lt i.selling_price price

    unfoldable pub evaluate_pricing : PricingEvaluationResult W
    evaluate_pricing =
        if sells_below i.cost_price
        then correct_to loss_price (whole 90) selling_at_loss
        else if sells_below floor_of
        then correct_to floor_of (whole 80) below_minimum_margin
        else evaluate_demand
