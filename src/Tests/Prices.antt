-- ===== src/Tests/Prices.antt =====
-- The theorems on prices, applied to an item with a recommendation, and runs of the operations.
use stock_pilot_be.Prelude.{
  ℕ, ◌/◌, ◌≡◌, ◌==◌, refl, sym, ap, not, if◌then◌else◌, Bool, true, false, Option, none, some, [],
  ◌∷◌, arith,
}
use stock_pilot_be.Prelude.Int.{ℤ, pos, eqb_ℤ, eqb_ℤ-eq}
use stock_pilot_be.Prelude.Rows.{find_first, holds, some_injective}
use stock_pilot_be.Prelude.Result.{Result, ok, err, validation, conflict, Ensures, ◌>>=◌}
use stock_pilot_be.Schema.{StockItem}
use stock_pilot_be.PricingEvaluator.Input.{decrease}
use stock_pilot_be.Pricing.{
  PricingRecommendation, PriceHistory, PriceBook, Columns, RecommendationStatus, pending, rejected,
  accepted, has_id, price_entry, expire_pending_recommendations,
}
use stock_pilot_be.Pricing.Decisions.{
  accept_recommendation, modify_recommendation, number_of, current_floor,
}
use stock_pilot_be.Pricing.Manual.{update_product_prices}
use stock_pilot_be.Pricing.Book.{IsBook, price_in, selling_price_of, is_of_item}
use stock_pilot_be.Pricing.Open.{IsAtPrice}
use stock_pilot_be.Pricing.Applied.{IsPriced, accept-IsPriced}
use stock_pilot_be.Pricing.Decided.{start, followed_by, expires, PriceSteps-IsBook, decided_once}
use stock_pilot_be.Audit.{audit}
use stock_pilot_be.Pricing.{
  apply_price, assert_stock_price_not_stale, find_recommendation_stock_item_id,
  get_pending_recommendation_for_decision, lock_stock_item,
}
use stock_pilot_be.Pricing.Decisions.{assert_recommendation_still_valid, get_minimum_margin_pct}
use stock_pilot_be.Pricing.Manual.{manual_histories}
use stock_pilot_be.PricingEvaluator.{calculate_minimum_price, ceil_thousand}
use stock_pilot_be.Tests.Shop.{shop, item}
use stock_pilot_be.Tests.Thousandths.{Thousandths, thousandths}

abbrev to_hundredths : Thousandths → ℤ
to_hundredths none = pos 0
to_hundredths (some x) = pos (x / 10)

abbrev columns : Columns Thousandths
columns = record { to_column = to_hundredths; equals = λ p x. eqb_ℤ p (to_hundredths x) }

columns-exact : (p : ℤ) (x : Thousandths) → columns.equals p x ≡ true → columns.to_column x ≡ p
columns-exact p x h = sym (eqb_ℤ-eq p (to_hundredths x) h)

abbrev advice : ℕ → RecommendationStatus → PricingRecommendation Thousandths
advice id status = record {
  id = id;
  store_id = 1;
  stock_item_id = 10;
  current_price = pos 10_000_000;
  recommended_price = pos 7_500_000;
  discount_pct = pos 2_500;
  action = decrease;
  risk_score = pos 6_000;
  confidence = pos 8_000;
  recorded_cost = some (some 50_000_000);
  status = status;
  final_user_selected_price = none;
  decided_by_id = none;
  decided_at = none;
  expires_at = some 2_000;
}

abbrev priced_item : ℤ → StockItem
priced_item price = record (item 10) { cost_price = pos 5_000_000; selling_price = price }

abbrev written_up : ℤ → PriceHistory
written_up price = record {
  id = 20;
  store_id = 1;
  stock_item_id = 10;
  old_price = pos 9_000_000;
  new_price = price;
  source = "MANUAL_UPDATE";
  recommendation_id = none;
  changed_by_id = some 5;
}

-- Recommendation 30 is pending, and 31 was rejected.
abbrev prices : PriceBook Thousandths
prices = record {
  db = record shop { stock_items = priced_item (pos 10_000_000) ∷ [] };
  recommendations = advice 30 pending ∷ advice 31 rejected ∷ [];
  histories = written_up (pos 10_000_000) ∷ [];
  engine_configs = [];
}

prices-IsBook : IsBook prices
prices-IsBook = record {
  fresh = (omega arith, (omega arith, tt));
  unique = (refl, (refl, tt));
  single = (λ h. refl, (λ h. refl, tt));
  traced = λ j h e. traced (10 == j) h e;
}
  where
    traced :
        (b : Bool) (h : PriceHistory)
        → (if b then some (written_up (pos 10_000_000)) else none) ≡ some h
        → price_in (if b then some (priced_item (pos 10_000_000)) else none) ≡ some h.new_price
    traced true h e = ap (λ k. some k.new_price) (some_injective e)
    traced false h e = cc

accept-IsPriced_example :
    Ensures
      (λ x.
        (r : PricingRecommendation Thousandths) × (s : StockItem) × IsPriced 1 5 1_000 30 accepted
          r.recommended_price true r prices x.1
        × IsAtPrice 1 r.stock_item_id r.current_price prices s
        × (holds (λ c. not (columns.equals s.cost_price c)) r.recorded_cost ≡ false)
        × (thousandths.lt (number_of r.recommended_price) (current_floor 1 s prices) ≡ false))
      (accept_recommendation columns 1_000 1 5 30 true prices prices)
accept-IsPriced_example = accept-IsPriced columns 1_000 1 5 30 true prices prices

-- The price and the newest row of the history after a decision.
abbrev seen_after : Result (ℕ × PriceBook Thousandths) → Result (Option ℤ × Option PriceHistory)
seen_after (ok (n, b)) = ok (selling_price_of 10 b, find_first (is_of_item 10) b.histories)
seen_after (err e) = err e

accept_runs :
    seen_after (accept_recommendation columns 1_000 1 5 30 true prices prices)
    ≡ ok (
      some (pos 7_500_000),
      some (
          price_entry 1_000 1 5 "RECOMMENDATION_ACCEPT"
            (advice 30 pending)
            (pos 10_000_000)
            (pos 7_500_000)),
    )
unfolding accept_recommendation ◌>>=◌ find_recommendation_stock_item_id
    get_pending_recommendation_for_decision assert_stock_price_not_stale lock_stock_item
    assert_recommendation_still_valid current_floor calculate_minimum_price get_minimum_margin_pct
    ceil_thousand audit apply_price
accept_runs = refl

modify_below_floor :
    seen_after (modify_recommendation columns 1_000 1 5 30 (some 60_000_000) true prices prices)
    ≡ err validation
unfolding modify_recommendation ◌>>=◌ find_recommendation_stock_item_id
    get_pending_recommendation_for_decision assert_stock_price_not_stale lock_stock_item
    current_floor calculate_minimum_price get_minimum_margin_pct ceil_thousand
modify_below_floor = refl

accept_twice :
    seen_after (accept_recommendation columns 1_000 1 5 31 true prices prices) ≡ err conflict
unfolding accept_recommendation ◌>>=◌ find_recommendation_stock_item_id
    get_pending_recommendation_for_decision
accept_twice = refl

-- A manual change of the price, read when the item still had the new price: the price changes, and
-- the history does not say so.
stale_read_leaves_no_trace :
    let b =
      update_product_prices columns 1
        (some 5)
        (λ i. i == 10)
        (priced_item (pos 9_000_000) ∷ [])
        (some (some 90_000_000))
        none
        prices in
    ◌≡◌ {A = Option ℤ × Option PriceHistory}
      (selling_price_of 10 b, find_first (is_of_item 10) b.histories)
      (some (pos 9_000_000), some (written_up (pos 10_000_000)))
unfolding update_product_prices expire_pending_recommendations manual_histories
stale_read_leaves_no_trace = refl

PriceSteps-IsBook_example : IsBook (expire_pending_recommendations 1 (10 ∷ []) prices)
PriceSteps-IsBook_example =
    PriceSteps-IsBook columns columns-exact (followed_by start (expires 1 (10 ∷ []) prices))
      (tt, tt) prices-IsBook

decided_once_example :
    find_first (has_id 31) (expire_pending_recommendations 1 (10 ∷ []) prices).recommendations
    ≡ some (advice 31 rejected)
decided_once_example =
    decided_once columns columns-exact (followed_by start (expires 1 (10 ∷ []) prices)) (tt, tt)
      prices-IsBook 31 (advice 31 rejected) refl refl
