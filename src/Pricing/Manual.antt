-- ===== src/Pricing/Manual.antt =====
-- src/modules/products/product.service.ts: the change of prices in updateProduct.
use stock_pilot_be.Prelude.{
  ℕ, suc, ◌+◌, Bool, true, false, not, ◌&&◌, ◌||◌, Option, none, some, List, [], ◌∷◌, map, ◌==◌,
  filter_by, length, if◌then◌else◌,
}
use stock_pilot_be.Prelude.Rows.{update_all}
use stock_pilot_be.Schema.{StockItem}
use stock_pilot_be.Pricing.{PriceHistory, PriceBook, Columns, expire_pending_recommendations}

module _ {W : Type 0} (columns : Columns W) where
  -- Of `updateProduct`, with the items `existing` of the product as they were read before the
  -- transaction: the rows of the history, for the items with another price than the new one.
  unfoldable pub manual_histories :
      ℕ → ℕ → Option ℕ → W → List StockItem → List PriceHistory → List PriceHistory
  manual_histories next store user new [] rows = rows
  manual_histories next store user new (s ∷ ss) rows =
      record {
        id = next;
        store_id = store;
        stock_item_id = s.id;
        old_price = s.selling_price;
        new_price = columns.to_column new;
        source = "MANUAL_UPDATE";
        recommendation_id = none;
        changed_by_id = user;
      }
      ∷ manual_histories (suc next) store user new ss rows

  -- The new columns of an item of the product.
  abbrev pub reprice : Option W → Option W → StockItem → StockItem
  reprice selling cost s = record s {
    selling_price = elim selling [ some p ↦ columns.to_column p | none ↦ s.selling_price ];
    cost_price = elim cost [ some p ↦ columns.to_column p | none ↦ s.cost_price ];
  }

  abbrev pub is_given : Option W → Bool
  is_given none = false
  is_given (some p) = true

  -- `input.sellingPrice` and `input.costPrice`; `in_product` tells the items of the product.
  unfoldable pub update_product_prices :
      ℕ → Option ℕ → (ℕ → Bool) → List StockItem → Option W → Option W → PriceBook W → PriceBook W
  update_product_prices store user in_product existing selling cost b =
      if not (is_given selling || is_given cost)
      then b
      else let priced = record b {
        db = record b.db {
          stock_items =
              update_all (λ s. in_product s.id && s.store_id == store) (reprice selling cost)
                b.db.stock_items;
        };
      } in
        let b1 = expire_pending_recommendations store (map (λ s. s.id) existing) priced in
        elim selling [
          | none ↦ b1
          | some new ↦
              let changed = filter_by (λ s. not (columns.equals s.selling_price new)) existing in
              record b1 {
                db = record b1.db { next_id = b1.db.next_id + length changed };
                histories = manual_histories b1.db.next_id store user new changed b1.histories;
              }
        ]
