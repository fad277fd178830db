-- ===== src/Tests/Sales.antt =====
-- The theorems on orders, applied to the shop.
use stock_pilot_be.Prelude.{ℕ, ◌≡◌, ◌==◌, refl, List, [], ◌∷◌, arith, if◌then◌else◌}
use stock_pilot_be.Prelude.Int.{pos, ◌+ℤ◌, ◌-ℤ◌, ◌<ℤ◌}
use stock_pilot_be.Prelude.Result.{Ensures}
use stock_pilot_be.Schema.{OrderStatus, shop_owner}
use stock_pilot_be.Ledger.Normalize.{requested}
use stock_pilot_be.Ledger.Posting.{on_hand}
use stock_pilot_be.Orders.{confirm_order, cancel_order, deduct_lines, items_of}
use stock_pilot_be.Orders.Draft.{RawLine, subtotal_of}
use stock_pilot_be.Orders.Create.{create_draft_order}
use stock_pilot_be.Orders.Balance.{IsDrafted, create_draft_order-IsDrafted}
use stock_pilot_be.Orders.Lifecycle.{Moved, cancel_order-Moved}
use stock_pilot_be.Orders.Stock.{confirm_order-on_hand}
use stock_pilot_be.Orders.Cancel.{cancel-confirm}
use stock_pilot_be.Tests.Cents.{in_thousandths, in_thousandths-HasColumns}
use stock_pilot_be.Tests.Shop.{shop, item, main_warehouse, order_input, shop-IsSound}

create_draft_order-IsDrafted_example :
    Ensures
      (IsDrafted in_thousandths 7 "NEW" 1 5 order_input shop)
      (create_draft_order in_thousandths 7 "NEW" 1 5 order_input shop)
create_draft_order-IsDrafted_example =
    create_draft_order-IsDrafted in_thousandths 7 "NEW" 1 5 order_input shop
      in_thousandths-HasColumns refl refl (refl, (refl, tt)) (λ e. cc)

abbrev two_lines : List RawLine
two_lines =
    record {
      stock_item = item 10;
      quantity = pos 2;
      unit_price = pos 1000;
      cost_price = pos 500;
      line_subtotal = pos 2000;
    }
    ∷ record {
      stock_item = item 11;
      quantity = pos 1;
      unit_price = pos 1000;
      cost_price = pos 500;
      line_subtotal = pos 1000;
    }
    ∷ []

two_lines_cost : pos 0 <ℤ subtotal_of two_lines
unfolding ◌+ℤ◌
two_lines_cost = omega arith

cancel_order-Moved_example :
    Ensures
      (λ r. Moved 1 200 OrderStatus.canceled shop r.1)
      (cancel_order 7 1 5 200 shop_owner shop)
cancel_order-Moved_example = cancel_order-Moved 7 1 5 200 shop_owner shop

confirm_order-on_hand_example :
    Ensures
      (λ r.
        (u j : ℕ)
        → on_hand u j r.1
          ≡ on_hand u j shop
            +ℤ (if 1 == u then pos 0 -ℤ requested j (deduct_lines (items_of 100 shop)) else pos 0))
      (confirm_order 7 1 5 100 shop)
confirm_order-on_hand_example =
    confirm_order-on_hand 7 1 5 100 shop main_warehouse refl (omega arith, tt)

cancel-confirm_example :
    Ensures
      (λ r.
        Ensures
          (λ s. (u j : ℕ) → on_hand u j s.1 ≡ on_hand u j shop)
          (cancel_order 8 1 5 100 shop_owner r.1))
      (confirm_order 7 1 5 100 shop)
cancel-confirm_example =
    cancel-confirm 7 8 1 5 5 100 shop_owner shop main_warehouse shop-IsSound refl
      ((omega arith, refl), tt)
