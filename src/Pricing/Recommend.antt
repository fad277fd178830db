-- ===== src/Pricing/Recommend.antt =====
-- pricing.service.ts: the recommendation that an evaluation leaves: syncRecommendationInTransaction.
use stock_pilot_be.Prelude.{ℕ, suc, ◌+◌, none, some, [], ◌∷◌, if◌then◌else◌}
use stock_pilot_be.Prelude.Int.{pos}
use stock_pilot_be.Prelude.Rows.{find_first}
use stock_pilot_be.Prelude.Result.{Result, ok, ◌>>◌}
use stock_pilot_be.Floats.{Floats, math_max}
use stock_pilot_be.PricingEvaluator.{evaluate_pricing}
use stock_pilot_be.PricingEvaluator.Input.{
  maintain, PricingEvaluationInput, PricingEvaluationResult,
}
use stock_pilot_be.Pricing.{
  PricingRecommendation, PriceBook, Columns, pending, write_decision,
  expire_pending_recommendations, lock_stock_item, is_pending_of,
}

module _ {W : Type 0} ⦃f : Floats W⦄ (columns : Columns W) where
  -- The columns that an evaluation writes to a row.
  abbrev pub write_evaluation :
      ℕ
      → PricingEvaluationInput W
      → PricingEvaluationResult W
      → PricingRecommendation W
      → PricingRecommendation W
  write_evaluation now input e r = record r {
    current_price = columns.to_column input.selling_price;
    recommended_price = columns.to_column e.recommended_price;
    discount_pct = columns.to_column e.discount_pct;
    action = e.action;
    risk_score = columns.to_column (math_max input.overstock_score input.stockout_score);
    confidence = columns.to_column input.confidence_score;
    recorded_cost = some input.cost_price;
    expires_at = some (now + 1_209_600_000);
  }

  abbrev blank : ℕ → ℕ → ℕ → PricingRecommendation W
  blank id store item = record {
    id = id;
    store_id = store;
    stock_item_id = item;
    current_price = pos 0;
    recommended_price = pos 0;
    discount_pct = pos 0;
    action = maintain;
    risk_score = pos 0;
    confidence = pos 0;
    recorded_cost = none;
    status = pending;
    final_user_selected_price = none;
    decided_by_id = none;
    decided_at = none;
    expires_at = none;
  }

  -- The newest pending row of the item, if there is one, or else a new one.
  unfoldable pub upsert_pending_recommendation :
      ℕ → ℕ → ℕ → PricingEvaluationInput W → PricingEvaluationResult W → PriceBook W → PriceBook W
  upsert_pending_recommendation now store item input e b =
      elim (find_first (is_pending_of store item) b.recommendations) [
        | some old ↦ write_decision old.id (write_evaluation now input e) b
        | none ↦ record b {
          db = record b.db { next_id = suc b.db.next_id };
          recommendations =
              write_evaluation now input e (blank b.db.next_id store item) ∷ b.recommendations;
        }
      ]

  unfoldable pub sync_recommendation_in_transaction :
      ℕ → ℕ → ℕ → PricingEvaluationInput W → PricingEvaluationResult W → PriceBook W → PriceBook W
  sync_recommendation_in_transaction now store item input e b =
      if e.should_generate_recommendation
      then upsert_pending_recommendation now store item input e b
      else expire_pending_recommendations store (item ∷ []) b

  unfoldable pub evaluate_pricing_recommendation :
      ℕ
      → ℕ
      → ℕ
      → PricingEvaluationInput W
      → PriceBook W
      → Result (PricingEvaluationResult W × PriceBook W)
  evaluate_pricing_recommendation now store item input b = do
    let e = evaluate_pricing input
    lock_stock_item store item b
    ok (e, sync_recommendation_in_transaction now store item input e b)
