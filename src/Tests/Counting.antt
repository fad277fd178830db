-- ===== src/Tests/Counting.antt =====
-- The theorems on the inventory service and on stock takes, applied to the shop.
use stock_pilot_be.Prelude.{ℕ, ◌≡◌, ◌==◌, refl, some, none, arith, if◌then◌else◌}
use stock_pilot_be.Prelude.Int.{◌-ℤ◌}
use stock_pilot_be.Prelude.Sort.{sort_by}
use stock_pilot_be.Prelude.Result.{Ensures}
use stock_pilot_be.Ledger.Posting.{on_hand}
use stock_pilot_be.Orders.Stock.{IsSound}
use stock_pilot_be.Inventory.{audit_stock}
use stock_pilot_be.Inventory.Count.{counted_or, audit_stock-counted}
use stock_pilot_be.StockTakes.{complete, items_to_count}
use stock_pilot_be.StockTakes.Complete.{taken_or, complete-counted}
use stock_pilot_be.StockTakes.Counts.{IsMeasured}
use stock_pilot_be.Tests.Shop.{shop, counted, counts, shop-IsSound}

audit_stock-counted_example :
    Ensures
      (λ r.
        IsSound r.1
        × ((u j : ℕ)
            → on_hand u j r.1 ≡ (
                if r.0.0.id == u
                then counted_or j (on_hand u j shop) (sort_by (λ x. x.stock_item_id) counts)
                else on_hand u j shop)))
      (audit_stock 1 5 (some 1) "AUDIT" none (some "K") counts shop)
audit_stock-counted_example =
    audit_stock-counted 1 5 (some 1) "AUDIT" none (some "K") counts shop
      (omega arith, (omega arith, tt)) shop-IsSound

complete-counted_example :
    Ensures
      (λ r.
        IsSound r.1
        × ((u j : ℕ)
            → on_hand u j r.1 ≡ (
                if r.0.0.warehouse_id == u
                then taken_or j (on_hand u j shop) (items_to_count 1 301 shop)
                else on_hand u j shop)))
      (complete 7 1 5 301 none shop)
complete-counted_example = complete-counted 7 1 5 301 none shop (omega arith, tt) shop-IsSound

counted-IsMeasured : IsMeasured counted
unfolding ◌-ℤ◌
counted-IsMeasured = record { floor = omega arith; variance = refl }
