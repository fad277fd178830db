-- ===== src/Pricing/Open.antt =====
-- pricing.service.ts: what a decision has checked of its recommendation and of the item's price.
use stock_pilot_be.Prelude.{ℕ, not, ◌≡◌, refl, Bool, true, false, some, ◌==◌}
use stock_pilot_be.Prelude.Int.{ℤ, eqb_ℤ-eq}
use stock_pilot_be.Prelude.Rows.{find_first}
use stock_pilot_be.Prelude.Result.{Ensures, Ensures-bind, returns, or_fail-eq-ok, ensure-eq-ok}
use stock_pilot_be.Schema.{StockItem}
use stock_pilot_be.Pricing.{
  PricingRecommendation, PriceBook, is_undecided, has_id, get_pending_recommendation_for_decision,
  lock_stock_item, is_over, assert_stock_price_not_stale,
}
use stock_pilot_be.Pricing.Book.{of_store_found}

pub false_of_not : (b : Bool) → not b ≡ true → b ≡ false
false_of_not true h = cc
false_of_not false h = refl

module _ {W : Type 0} where
  -- The row of a decision: the pending one of the id, which is not over yet.
  pub record IsOpen (now store id : ℕ) (b : PriceBook W) (r : PricingRecommendation W)
      : Type 0 where
    pub found : find_first (has_id id) b.recommendations ≡ some r
    pub open_status : is_undecided r.status ≡ true
    pub of_the_store : r.store_id ≡ store
    pub in_time : is_over now r.expires_at ≡ false

  pub get_pending-IsOpen :
      (now store id item : ℕ) (b : PriceBook W)
      → Ensures
          (IsOpen now store id b)
          (get_pending_recommendation_for_decision now store id item b)
  unfolding get_pending_recommendation_for_decision
  get_pending-IsOpen now store id item b = Ensures-bind λ r er. Ensures-bind λ u eu.
      Ensures-bind λ v ev. Ensures-bind λ w ew.
        let found = of_store_found (λ r. r.store_id) store _ (or_fail-eq-ok _ _ er) in
        returns (record {
          found = found.0;
          open_status = ensure-eq-ok _ _ ev;
          of_the_store = found.1;
          in_time = false_of_not _ (ensure-eq-ok _ _ ew);
        })

  -- The item of a decision, at the price of the recommendation.
  pub record IsAtPrice (store item : ℕ) (price : ℤ) (b : PriceBook W) (s : StockItem) : Type 0 where
    pub found : find_first (λ x. x.id == item) b.db.stock_items ≡ some s
    pub of_the_store : s.store_id ≡ store
    pub at_price : s.selling_price ≡ price

  pub not_stale-IsAtPrice :
      (store item : ℕ) (price : ℤ) (b : PriceBook W)
      → Ensures (IsAtPrice store item price b) (assert_stock_price_not_stale store item price b)
  unfolding assert_stock_price_not_stale lock_stock_item
  not_stale-IsAtPrice store item price b = Ensures-bind λ s es. Ensures-bind λ u eu.
      let found = of_store_found (λ s. s.store_id) store _ (or_fail-eq-ok _ _ es) in
      returns (record {
        found = found.0;
        of_the_store = found.1;
        at_price = eqb_ℤ-eq _ _ (ensure-eq-ok _ _ eu);
      })
