-- ===== src/Tests/Counter.antt =====
-- A sale at the counter of the shop.
use stock_pilot_be.Prelude.{◌≡◌, refl, some, none, List, [], ◌∷◌}
use stock_pilot_be.Prelude.Int.{ℤ, pos, ◌+ℤ◌, ◌-ℤ◌, ◌*ℤ◌}
use stock_pilot_be.Prelude.Result.{Result, ok, err, Ensures, ◌>>=◌, conflict}
use stock_pilot_be.Schema.{Database, PaymentMethod}
use stock_pilot_be.Ledger.{atomic_deduct, deduct_item, create_movement, normalize_items, item_key}
use stock_pilot_be.Ledger.Posting.{on_hand}
use stock_pilot_be.Audit.{audit}
use stock_pilot_be.Pos.{
  CreatePosSaleInput, create_cash_sale, cash_sale, store_sale, store_payment, unique_is_conflict,
  confirmed, fulfilled,
}
use stock_pilot_be.Pos.Sale.{pos_lines}
use stock_pilot_be.Pos.Money.{IsSold, create_cash_sale-IsSold}
use stock_pilot_be.Inventory.{target_warehouse}
use stock_pilot_be.Tests.Shop.{shop, main_warehouse, plain, plain-IsExact}

abbrev basket : CreatePosSaleInput
basket = record {
  warehouse_id = none;
  discount_amount = pos 100;
  tax_amount = pos 0;
  total_amount = some (pos 2_400);
  payment_method = PaymentMethod.cash;
  items =
      record { stock_item_id = 11; quantity = pos 1; price = some (pos 500) }
      ∷ record { stock_item_id = 10; quantity = pos 2; price = none }
      ∷ [];
}

abbrev shelves : {A : Type 0} → Result (A × Database) → Result (List ℤ)
shelves (ok (a, db)) = ok (on_hand 1 10 db ∷ on_hand 1 11 db ∷ [])
shelves (err e) = err e

sale_runs : shelves (create_cash_sale plain 7 "POS" 1 5 basket none shop) ≡ ok (pos 3 ∷ pos 2 ∷ [])
unfolding create_cash_sale cash_sale unique_is_conflict target_warehouse pos_lines store_sale
    store_payment normalize_items atomic_deduct deduct_item create_movement audit ◌>>=◌ ◌+ℤ◌ ◌-ℤ◌
    ◌*ℤ◌
sale_runs = refl

-- The same request again breaks the unique index of the client request keys.
sale_twice :
    shelves (
      create_cash_sale plain 7 "POS" 1 5 basket (some "K") shop >>= λ r.
      create_cash_sale plain 8 "POS2" 1 5 basket (some "K") r.1)
    ≡ err conflict
unfolding create_cash_sale cash_sale unique_is_conflict target_warehouse pos_lines store_sale
    store_payment normalize_items atomic_deduct deduct_item create_movement audit item_key confirmed
    fulfilled ◌>>=◌ ◌+ℤ◌ ◌-ℤ◌ ◌*ℤ◌
sale_twice = refl

create_cash_sale-IsSold_example :
    Ensures IsSold (create_cash_sale plain 7 "POS" 1 5 basket none shop)
create_cash_sale-IsSold_example =
    create_cash_sale-IsSold plain 7 "POS" 1 5 basket none shop plain-IsExact (λ e. cc)

default_target : target_warehouse 1 none shop ≡ ok main_warehouse
unfolding target_warehouse
default_target = refl
