-- ===== src/Pricing/Decisions.antt =====
-- pricing.service.ts: acceptRecommendation, rejectRecommendation and modifyRecommendation.
use stock_pilot_be.Prelude.{ℕ, Bool, not, none, some, ◌==◌, if◌then◌else◌}
use stock_pilot_be.Prelude.Int.{ℤ, pos}
use stock_pilot_be.Prelude.Rows.{find_first, holds}
use stock_pilot_be.Prelude.Result.{Result, ok, ◌>>=◌, ◌>>◌, ensure, conflict, validation}
use stock_pilot_be.Schema.{StockItem}
use stock_pilot_be.Floats.{Floats}
use stock_pilot_be.PricingEvaluator.{calculate_minimum_price}
use stock_pilot_be.Pricing.{
  PricingRecommendation, PriceBook, Columns, accepted, rejected, modified, write_decision, decide,
  apply_price, log_decision, find_recommendation_stock_item_id,
  get_pending_recommendation_for_decision, assert_stock_price_not_stale,
}

module _ {W : Type 0} where
  unfoldable pub reject_recommendation :
      ℕ → ℕ → ℕ → ℕ → PriceBook W → PriceBook W → Result (ℕ × PriceBook W)
  reject_recommendation now store user id seen b = do
    item ← find_recommendation_stock_item_id store id seen
    r ← get_pending_recommendation_for_decision now store id item b
    let b1 = write_decision id (decide rejected r.final_user_selected_price user now) b
    ok (item, log_decision store user "PRICING_RECOMMENDATION_REJECTED" r b1)

module _ {W : Type 0} ⦃f : Floats W⦄ where
  -- `Number(decimal)` of a column of two decimals.
  abbrev pub number_of : ℤ → W
  number_of amount = f.ratio amount 100

  unfoldable pub get_minimum_margin_pct : ℕ → PriceBook W → W
  get_minimum_margin_pct store b = elim (find_first (λ c. c.store_id == store) b.engine_configs) [
    | some c ↦ f.ratio c.minimum_margin_pct 10_000
    | none ↦ f.ratio (pos 20) 100
  ]

  -- The floor of an item's price under the store's margin.
  unfoldable pub current_floor : ℕ → StockItem → PriceBook W → W
  current_floor store s b =
      calculate_minimum_price (number_of s.cost_price) (get_minimum_margin_pct store b)

module _ {W : Type 0} ⦃f : Floats W⦄ (columns : Columns W) where
  unfoldable pub assert_recommendation_still_valid :
      ℕ → PricingRecommendation W → StockItem → PriceBook W → Result (Unit {0})
  assert_recommendation_still_valid store r s b = do
    ensure (not (holds (λ c. not (columns.equals s.cost_price c)) r.recorded_cost)) conflict
    ensure (not (f.lt (number_of r.recommended_price) (current_floor store s b))) conflict

  unfoldable pub accept_recommendation :
      ℕ → ℕ → ℕ → ℕ → Bool → PriceBook W → PriceBook W → Result (ℕ × PriceBook W)
  accept_recommendation now store user id apply_to_stock_item seen b = do
    item ← find_recommendation_stock_item_id store id seen
    r ← get_pending_recommendation_for_decision now store id item b
    s ← assert_stock_price_not_stale store r.stock_item_id r.current_price b
    assert_recommendation_still_valid store r s b
    let new = r.recommended_price
    let b1 = write_decision id (decide accepted (some new) user now) b
    let b2 =
        if apply_to_stock_item
        then apply_price store user "RECOMMENDATION_ACCEPT" r s.selling_price new b1
        else b1
    ok (item, log_decision store user "PRICING_RECOMMENDATION_APPROVED" r b2)

  unfoldable pub modify_recommendation :
      ℕ → ℕ → ℕ → ℕ → W → Bool → PriceBook W → PriceBook W → Result (ℕ × PriceBook W)
  modify_recommendation now store user id custom_price apply_to_stock_item seen b = do
    item ← find_recommendation_stock_item_id store id seen
    r ← get_pending_recommendation_for_decision now store id item b
    s ← assert_stock_price_not_stale store r.stock_item_id r.current_price b
    ensure (not (f.lt custom_price (current_floor store s b))) validation
    let new = columns.to_column custom_price
    let b1 = write_decision id (decide modified (some new) user now) b
    let b2 =
        if apply_to_stock_item
        then apply_price store user "RECOMMENDATION_MODIFY" r s.selling_price new b1
        else b1
    ok (item, log_decision store user "PRICING_RECOMMENDATION_MODIFIED" r b2)
