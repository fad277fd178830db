-- ===== src/PricingEvaluator/Fair.antt =====
-- What a recommended price keeps to: PricingEvaluator.evaluatePricing.
use stock_pilot_be.Prelude.{◌≡◌, refl, List, Bool, true, false, ◌&&◌, if◌then◌else◌}
use stock_pilot_be.Prelude.Int.{pos}
use stock_pilot_be.Floats.{
  Floats, IsOrdered, IsNumber, ◌≼◌, ◌≺◌, whole, math_max_bounds, math_max-IsNumber,
}
use stock_pilot_be.PricingEvaluator.{
  evaluate_pricing, evaluate_demand, floor_of, loss_price, markdown_price, markup_price, mark_down,
  mark_up, keep_price, correct_to, round_thousand, ceil_thousand, marks_down, marks_up, sells_below,
  is_markdown_candidate, high_risk,
}
use stock_pilot_be.PricingEvaluator.Input.{
  PricingAction, increase, decrease, maintain, PricingEvaluationInput, PricingEvaluationResult,
  is_rising, is_insufficient, or_default, enough, FactorCode, selling_at_loss, below_minimum_margin,
}

abbrev pub changes : PricingAction → Bool
changes increase = true
changes decrease = true
changes maintain = false

-- The action names the direction of the change, a recommendation is generated for a change only,
-- and what is recommended is not below the floor.
pub record IsFair {W : Type 0} ⦃f : Floats W⦄ (r : PricingEvaluationResult W) : Type 0 where
  pub raised : r.action ≡ increase → r.current_price ≺ r.recommended_price
  pub lowered : r.action ≡ decrease → r.recommended_price ≺ r.current_price
  pub kept : r.action ≡ maintain → r.recommended_price ≡ r.current_price
  pub generated : r.should_generate_recommendation ≡ changes r.action
  pub floored : r.should_generate_recommendation ≡ true → r.minimum_price ≼ r.recommended_price

-- Rounding to thousands keeps the order, and makes no number of NaN.
pub record RoundsInOrder (W : Type 0) ⦃f : Floats W⦄ : Type 0 where
  pub mono : (x y : W) → x ≼ y → round_thousand x ≼ round_thousand y
  pub of_number : (x : W) → IsNumber (round_thousand x) → IsNumber x

right_of : (a b : Bool) → (a && b) ≡ true → b ≡ true
right_of true b h = h
right_of false b h = cc

module _ {W : Type 0} ⦃f : Floats W⦄ where
  IsFair-if :
      (b : Bool) {r s : PricingEvaluationResult W}
      → (b ≡ true → IsFair r)
      → (b ≡ false → IsFair s)
      → IsFair (if b then r else s)
  IsFair-if true p q = p refl
  IsFair-if false p q = q refl

  module _ (order : IsOrdered W) (rounding : RoundsInOrder W) (i : PricingEvaluationInput W)
      (priced : whole 0 ≺ i.cost_price) (is_number : IsNumber (floor_of i))
      (in_thousands : round_thousand (floor_of i) ≡ floor_of i)
      (raised_cost : i.cost_price
        ≼ ceil_thousand (f.mul i.cost_price (f.ratio (pos 115) 100))) where
    loss_bounds : (i.cost_price ≼ loss_price i) × (floor_of i ≼ loss_price i)
    unfolding loss_price
    loss_bounds =
        let numbers = order.le_number _ _ raised_cost in
        let bounds = math_max_bounds order _ _ (math_max-IsNumber order _ _ is_number numbers.1) in
        (order.le_trans _ _ _ raised_cost bounds.3, bounds.2)

    markdown_floor : markdown_price i ≺ i.selling_price → floor_of i ≼ markdown_price i
    unfolding markdown_price
    markdown_floor below =
        let bounds =
          math_max_bounds order _ _
            (rounding.of_number _ (order.le_number _ _ (order.lt_le _ _ below)).0) in
        rw in_thousands at (rounding.mono _ _ bounds.2)

    markup_floor :
        sells_below i (floor_of i) ≡ false
        → i.selling_price ≺ markup_price i
        → floor_of i ≼ markup_price i
    markup_floor safe above =
        let up = order.lt_le _ _ above in
        order.le_trans _ _ _
          (order.le_of_not_lt _ _ (order.le_number _ _ up).0 is_number (rw priced at safe)) up

    correct_to-IsFair :
        (price sure : W) (code : FactorCode)
        → i.selling_price ≺ price
        → floor_of i ≼ price
        → IsFair (correct_to i price sure code)
    unfolding correct_to
    correct_to-IsFair price sure code above covered = record {
      raised = λ e. above;
      lowered = λ e. cc;
      kept = λ e. cc;
      generated = refl;
      floored = λ e. covered;
    }

    keep_price-IsFair : (codes : List FactorCode) → IsFair (keep_price i codes)
    unfolding keep_price
    keep_price-IsFair codes = record {
      raised = λ e. cc;
      lowered = λ e. cc;
      kept = λ e. refl;
      generated = refl;
      floored = λ e. cc;
    }

    mark_down-IsFair : marks_down i ≡ true → IsFair (mark_down i)
    unfolding mark_down
    mark_down-IsFair h =
        let below : markdown_price i ≺ i.selling_price = right_of (is_markdown_candidate i) _ h in
        record {
          raised = λ e. cc;
          lowered = λ e. below;
          kept = λ e. cc;
          generated = refl;
          floored = λ e. markdown_floor below;
        }

    mark_up-IsFair : sells_below i (floor_of i) ≡ false → marks_up i ≡ true → IsFair (mark_up i)
    unfolding mark_up
    mark_up-IsFair safe h =
        let above : i.selling_price ≺ markup_price i =
          right_of (f.le (high_risk i) i.stockout_score && is_rising i.trend) _ h in
        record {
          raised = λ e. above;
          lowered = λ e. cc;
          kept = λ e. cc;
          generated = refl;
          floored = λ e. markup_floor safe above;
        }

    sells_below-below : (price : W) → sells_below i price ≡ true → i.selling_price ≺ price
    sells_below-below price h = right_of (f.lt (whole 0) i.cost_price) _ h

    evaluate_demand-IsFair : sells_below i (floor_of i) ≡ false → IsFair (evaluate_demand i)
    unfolding evaluate_demand
    evaluate_demand-IsFair safe =
        IsFair-if (is_insufficient (or_default enough i.data_status)) (λ _. keep_price-IsFair _)
          λ _.
            IsFair-if (f.lt i.confidence_score (whole 40)) (λ _. keep_price-IsFair _)
              λ _.
                IsFair-if (marks_down i) mark_down-IsFair
                  λ _. IsFair-if (marks_up i) (mark_up-IsFair safe) λ _. keep_price-IsFair _

    -- Of an item with a cost, where the floor is a number in whole thousands, and 15 percent on the
    -- cost, up to a thousand, is no less than the cost: an increase is to above the current price, a
    -- decrease to below it, the other results keep it; a recommendation is generated exactly for a
    -- change; and no recommended price is below the floor.
    pub evaluate_pricing-IsFair : IsFair (evaluate_pricing i)
    unfolding evaluate_pricing
    evaluate_pricing-IsFair =
        IsFair-if (sells_below i i.cost_price)
          (λ h.
            correct_to-IsFair (loss_price i) (whole 90) selling_at_loss
              (order.lt_le_trans _ _ _ (sells_below-below _ h) loss_bounds.0) loss_bounds.1)
          λ _.
            IsFair-if (sells_below i (floor_of i))
              (λ h.
                correct_to-IsFair (floor_of i) (whole 80) below_minimum_margin
                  (sells_below-below _ h) is_number)
              evaluate_demand-IsFair
