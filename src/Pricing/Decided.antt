-- ===== src/Pricing/Decided.antt =====
-- The operations on prices as steps, in any order and number.
use stock_pilot_be.Prelude.{
  ℕ, ◌≡◌, Bool, true, false, ◌&&◌, Option, some, List, ◌==◌, All, filter_by,
}
use stock_pilot_be.Prelude.Int.{ℤ}
use stock_pilot_be.Schema.{StockItem}
use stock_pilot_be.Prelude.Rows.{find_first}
use stock_pilot_be.Prelude.Result.{ok, Ensures-ok}
use stock_pilot_be.Floats.{Floats}
use stock_pilot_be.PricingEvaluator.Input.{PricingEvaluationInput, PricingEvaluationResult}
use stock_pilot_be.Pricing.{
  PricingRecommendation, PriceBook, Columns, is_undecided, has_id, expire_pending_recommendations,
}
use stock_pilot_be.Pricing.Decisions.{
  reject_recommendation, accept_recommendation, modify_recommendation,
}
use stock_pilot_be.Pricing.Recommend.{evaluate_pricing_recommendation}
use stock_pilot_be.Pricing.Manual.{update_product_prices}
use stock_pilot_be.Pricing.Book.{IsBook, Follows}
use stock_pilot_be.Pricing.Steps.{
  reject-Follows, accept-Follows, modify-Follows, evaluate-Follows, expire-Follows,
}
use stock_pilot_be.Pricing.Repriced.{update_product_prices-Follows}

module _ {W : Type 0} ⦃f : Floats W⦄ (columns : Columns W) where
  -- One operation, at any time, by any user. A decision may have read its recommendation from other
  -- tables, earlier, and a change of a product's prices the items.
  pub data PriceStep : PriceBook W → PriceBook W → Type 0 where
    rejects :
        (now store user id : ℕ) (seen : PriceBook W) {b b' : PriceBook W} {item : ℕ}
        → reject_recommendation now store user id seen b ≡ ok (item, b')
        → PriceStep b b'
    accepts :
        (now store user id : ℕ) (applied : Bool) (seen : PriceBook W) {b b' : PriceBook W}
        {item : ℕ}
        → accept_recommendation columns now store user id applied seen b ≡ ok (item, b')
        → PriceStep b b'
    modifies :
        (now store user id : ℕ) (price : W) (applied : Bool) (seen : PriceBook W)
        {b b' : PriceBook W} {item : ℕ}
        → modify_recommendation columns now store user id price applied seen b ≡ ok (item, b')
        → PriceStep b b'
    evaluates :
        (now store item : ℕ) (input : PricingEvaluationInput W) {b b' : PriceBook W}
        {e : PricingEvaluationResult W}
        → evaluate_pricing_recommendation columns now store item input b ≡ ok (e, b')
        → PriceStep b b'
    expires :
        (store : ℕ) (items : List ℕ) (b : PriceBook W)
        → PriceStep b (expire_pending_recommendations store items b)
    reprices :
        (store : ℕ) (user : Option ℕ) (in_product : ℕ → Bool) (existing : List StockItem)
        (selling cost : Option W) (b : PriceBook W)
        → PriceStep b (update_product_prices columns store user in_product existing selling cost b)

  pub data PriceSteps (b : PriceBook W) : PriceBook W → Type 0 where
    start : PriceSteps b b
    followed_by : {c d : PriceBook W} → PriceSteps b c → PriceStep c d → PriceSteps b d

  -- A change of a product's prices read the items as they are, and every item of the product is of its
  -- store.
  abbrev pub IsCurrent : {b b' : PriceBook W} → PriceStep b b' → Type 0
  IsCurrent (rejects now store user id seen e) = Unit
  IsCurrent (accepts now store user id applied seen e) = Unit
  IsCurrent (modifies now store user id price applied seen e) = Unit
  IsCurrent (evaluates now store item input e) = Unit
  IsCurrent (expires store items b) = Unit
  IsCurrent (reprices store user in_product existing selling cost b) =
      All (λ s. in_product s.id ≡ true → s.store_id ≡ store) b.db.stock_items
      × (existing ≡ filter_by (λ s. in_product s.id && s.store_id == store) b.db.stock_items)

  abbrev pub AreCurrent : {b b' : PriceBook W} → PriceSteps b b' → Type 0
  AreCurrent start = Unit
  AreCurrent (followed_by steps step) = AreCurrent steps × IsCurrent step

  module _ (exact : (p : ℤ) (x : W) → columns.equals p x ≡ true → columns.to_column x ≡ p) where
    step-Follows :
        {b b' : PriceBook W} (step : PriceStep b b') → IsCurrent step → IsBook b → Follows b b'
    step-Follows (rejects now store user id seen {b = b} e) current book =
        Ensures-ok (reject-Follows now store user id seen b book) e
    step-Follows (accepts now store user id applied seen {b = b} e) current book =
        Ensures-ok (accept-Follows columns now store user id applied seen b book) e
    step-Follows (modifies now store user id price applied seen {b = b} e) current book =
        Ensures-ok (modify-Follows columns now store user id price applied seen b book) e
    step-Follows (evaluates now store item input {b = b} e) current book =
        Ensures-ok (evaluate-Follows columns now store item input b book) e
    step-Follows (expires store items b) current book = expire-Follows store items b book
    step-Follows (reprices store user in_product existing selling cost b) current book =
        update_product_prices-Follows columns exact store in_product user existing selling cost b
          book current.0 current.1

    steps-Follows :
        {b b' : PriceBook W} (steps : PriceSteps b b') → AreCurrent steps → IsBook b → Follows b b'
    steps-Follows start current book = record { book = book; decided = λ id r found closed. found }
    steps-Follows (followed_by steps step) current book =
        let before = steps-Follows steps current.0 book in
        let after = step-Follows step current.1 before.book in
        record {
          book = after.book;
          decided =
              λ id r found closed. after.decided id r (before.decided id r found closed) closed;
        }

    -- Where the tables are in order, they are after any number of operations in any order: ids are
    -- unique, an item of a store has at most one pending recommendation, and the newest row of an item's
    -- history says its price. The conditions: a number that equals a column is stored as that column, and
    -- every change of a product's prices read the items as they are when it writes, all of its store.
    pub PriceSteps-IsBook :
        {b b' : PriceBook W} (steps : PriceSteps b b') → AreCurrent steps → IsBook b → IsBook b'
    PriceSteps-IsBook steps current book = (steps-Follows steps current book).book

    -- Where the tables are in order: a recommendation that was accepted, modified or rejected, or that
    -- has expired, is the same row after any number of operations in any order. The
    -- conditions: a number that equals a column is stored as that column, and every change of a product's
    -- prices read the items as they are when it writes, all of its store.
    pub decided_once :
        {b b' : PriceBook W} (steps : PriceSteps b b')
        → AreCurrent steps
        → IsBook b
        → (id : ℕ) (r : PricingRecommendation W) → find_first (has_id id) b.recommendations ≡ some r
        → is_undecided r.status ≡ false
        → find_first (has_id id) b'.recommendations ≡ some r
    decided_once steps current book = (steps-Follows steps current book).decided
