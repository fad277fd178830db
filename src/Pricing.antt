-- ===== src/Pricing.antt =====
-- src/modules/pricing/pricing.service.ts, and the change of prices in product.service.ts: recommendations
-- for the price of an item, what the owner decides on them, and the history of prices. Amounts are
-- integers of hundredths, as their columns. A lookup by an id finds the one row of the primary key, and
-- then compares its store. A decision reads the item of its recommendation first, from the tables `seen`,
-- and runs its transaction on the tables as they are by then.
pub mod Decisions
pub mod Recommend
pub mod Manual
pub mod Rows
pub mod Book
pub mod Open
pub mod Steps
pub mod Applied
pub mod Repriced
pub mod Decided
use stock_pilot_be.Prelude.{
  ℕ, suc, ◌+◌, Bool, true, false, not, ◌&&◌, ◌||◌, Option, none, some, List, [], ◌∷◌, ◌++◌, map,
  ◌==◌, ltb, filter_by, length, contains, if◌then◌else◌,
}
use stock_pilot_be.Prelude.Int.{ℤ, pos, eqb_ℤ}
use stock_pilot_be.Prelude.Rows.{find_first, update_first, update_all, holds}
use stock_pilot_be.Prelude.Result.{
  Result, ok, err, ◌>>=◌, ◌>>◌, ensure, or_fail, not_found, conflict, validation,
}
use stock_pilot_be.Schema.{Database, StockItem}
use stock_pilot_be.Ledger.{decimal}
use stock_pilot_be.Audit.{audit}
use stock_pilot_be.Floats.{Floats, math_max}
use stock_pilot_be.PricingEvaluator.{evaluate_pricing, calculate_minimum_price}
use stock_pilot_be.PricingEvaluator.Input.{
  PricingAction, maintain, PricingEvaluationInput, PricingEvaluationResult, or_default,
}
use Prim.Native.String.{String}

pub data RecommendationStatus : Type 0 where
  pending accepted rejected modified expired : RecommendationStatus

-- `recorded_cost` is the `costPrice` of its `reasonJson`.
pub record PricingRecommendation (W : Type 0) : Type 0 where
  pub id : ℕ
  pub store_id : ℕ
  pub stock_item_id : ℕ
  pub current_price : ℤ
  pub recommended_price : ℤ
  pub discount_pct : ℤ
  pub action : PricingAction
  pub risk_score : ℤ
  pub confidence : ℤ
  pub recorded_cost : Option W
  pub status : RecommendationStatus
  pub final_user_selected_price : Option ℤ
  pub decided_by_id : Option ℕ
  pub decided_at : Option ℕ
  pub expires_at : Option ℕ

pub record PriceHistory : Type 0 where
  pub id : ℕ
  pub store_id : ℕ
  pub stock_item_id : ℕ
  pub old_price : ℤ
  pub new_price : ℤ
  pub source : String
  pub recommendation_id : Option ℕ
  pub changed_by_id : Option ℕ

-- Unique by store. The margin is in ten-thousandths.
pub record EngineConfig : Type 0 where
  pub store_id : ℕ
  pub minimum_margin_pct : ℤ

-- The tables, where new rows go to the front.
pub record PriceBook (W : Type 0) : Type 0 where
  pub db : Database
  pub recommendations : List (PricingRecommendation W)
  pub histories : List PriceHistory
  pub engine_configs : List EngineConfig

-- Of the decimal library: the value that a column of two decimals stores for a number, and the
-- comparison of a column with a number.
pub record Columns (W : Type 0) : Type 0 where
  pub to_column : W → ℤ
  pub equals : ℤ → W → Bool

abbrev pub is_undecided : RecommendationStatus → Bool
is_undecided pending = true
is_undecided accepted = false
is_undecided rejected = false
is_undecided modified = false
is_undecided expired = false

abbrev pub of_store : {A : Type 0} → (A → ℕ) → ℕ → Option A → Option A
of_store store_of store none = none
of_store store_of store (some a) = if store_of a == store then some a else none

-- `rec.expiresAt && rec.expiresAt <= new Date()`
abbrev pub is_over : ℕ → Option ℕ → Bool
is_over now expiry = holds (λ e. not (ltb now e)) expiry

module _ {W : Type 0} where
  abbrev pub has_id : ℕ → PricingRecommendation W → Bool
  has_id id r = r.id == id

  -- `where: { id, storeId }`
  abbrev pub recommendation_of : ℕ → ℕ → PriceBook W → Option (PricingRecommendation W)
  recommendation_of store id b =
      of_store (λ r. r.store_id) store (find_first (has_id id) b.recommendations)

  abbrev pub stock_item_of : ℕ → ℕ → PriceBook W → Option StockItem
  stock_item_of store item b =
      of_store (λ s. s.store_id) store (find_first (λ s. s.id == item) b.db.stock_items)

  -- `where: { storeId, stockItemId, status: 'PENDING' }`
  abbrev pub is_pending_of : ℕ → ℕ → PricingRecommendation W → Bool
  is_pending_of store item r =
      r.store_id == store && r.stock_item_id == item && is_undecided r.status

  -- What a decision writes to its row.
  abbrev pub decide :
      RecommendationStatus → Option ℤ → ℕ → ℕ → PricingRecommendation W → PricingRecommendation W
  decide status price user now r = record r {
    status = status;
    final_user_selected_price = price;
    decided_by_id = some user;
    decided_at = some now;
  }

  abbrev pub write_decision :
      ℕ → (PricingRecommendation W → PricingRecommendation W) → PriceBook W → PriceBook W
  write_decision id write b = record b {
    recommendations = update_first (has_id id) write b.recommendations;
  }

  unfoldable pub expire_pending_recommendations : ℕ → List ℕ → PriceBook W → PriceBook W
  expire_pending_recommendations store items b = record b {
    recommendations =
        update_all
          (λ r. r.store_id == store && contains r.stock_item_id items && is_undecided r.status)
          (λ r. record r { status = expired }) b.recommendations;
  }

  abbrev pub price_entry : ℕ → ℕ → ℕ → String → PricingRecommendation W → ℤ → ℤ → PriceHistory
  price_entry id store user source r old new = record {
    id = id;
    store_id = store;
    stock_item_id = r.stock_item_id;
    old_price = old;
    new_price = new;
    source = source;
    recommendation_id = some r.id;
    changed_by_id = some user;
  }

  -- `tx.stockItem.update`, and the row of the history.
  unfoldable pub apply_price :
      ℕ → ℕ → String → PricingRecommendation W → ℤ → ℤ → PriceBook W → PriceBook W
  apply_price store user source r old new b = record b {
    db = record b.db {
      next_id = suc b.db.next_id;
      stock_items =
          update_first (λ s. s.id == r.stock_item_id) (λ s. record s { selling_price = new })
            b.db.stock_items;
    };
    histories = price_entry b.db.next_id store user source r old new ∷ b.histories;
  }

  abbrev pub log_decision : ℕ → ℕ → String → PricingRecommendation W → PriceBook W → PriceBook W
  log_decision store user action r b = record b {
    db = audit (some store) (some user) action "PRICING_RECOMMENDATION" (decimal r.id) b.db;
  }

  unfoldable pub find_recommendation_stock_item_id : ℕ → ℕ → PriceBook W → Result ℕ
  find_recommendation_stock_item_id store id seen = do
    r ← or_fail (recommendation_of store id seen) not_found
    ok r.stock_item_id

  unfoldable pub get_pending_recommendation_for_decision :
      ℕ → ℕ → ℕ → ℕ → PriceBook W → Result (PricingRecommendation W)
  get_pending_recommendation_for_decision now store id item b = do
    r ← or_fail (recommendation_of store id b) not_found
    ensure (r.stock_item_id == item) conflict
    ensure (is_undecided r.status) conflict
    ensure (not (is_over now r.expires_at)) conflict
    ok r

  unfoldable pub lock_stock_item : ℕ → ℕ → PriceBook W → Result StockItem
  lock_stock_item store item b = or_fail (stock_item_of store item b) not_found

  unfoldable pub assert_stock_price_not_stale : ℕ → ℕ → ℤ → PriceBook W → Result StockItem
  assert_stock_price_not_stale store item price b = do
    s ← lock_stock_item store item b
    ensure (eqb_ℤ s.selling_price price) conflict
    ok s
