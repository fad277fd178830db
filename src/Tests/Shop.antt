-- ===== src/Tests/Shop.antt =====
-- A shop with one warehouse, two items on the shelf, two orders and two stock takes.
use stock_pilot_be.Prelude.{
  ℕ, zero, suc, ◌/◌, ◌≡◌, ◌≢◌, refl, ◌&&◌, Bool, true, false, none, some, ap, List, [], ◌∷◌, arith,
  ◌==◌, if◌then◌else◌,
}
use stock_pilot_be.Prelude.Int.{ℤ, pos, negsuc, ◌≤ℤ◌, ◌<ℤ◌, ◌*ℤ◌, ◌+ℤ◌}
use stock_pilot_be.Schema.{
  Database, StockItem, Warehouse, InventoryBalance, Order, OrderItem, OrderStatus, StockTake,
  StockTakeItem, StockTakeStatus, warehouse_staff,
}
use stock_pilot_be.Ledger.{StockChangeItem, StockChangeContext}
use stock_pilot_be.Ledger.Balances.{quantity_of}
use stock_pilot_be.Ledger.Posting.{IsStocked, on_hand}
use stock_pilot_be.Orders.Draft.{Decimals, IsExact}
use stock_pilot_be.Orders.Stock.{IsSound}
use stock_pilot_be.Ledger.Normalize.{requested, IsPositive}
use stock_pilot_be.Ledger.Supply.{IsActive}
use stock_pilot_be.Orders.Create.{CreateOrderInput}
use stock_pilot_be.Returns.Request.{ReturnRequest}
use stock_pilot_be.Inventory.{CountItem}
use stock_pilot_be.StockTakes.{CountedItem}

abbrev pub item : ℕ → StockItem
item id = record {
  id = id;
  store_id = 1;
  sku = "SKU";
  cost_price = pos 500;
  selling_price = pos 1000;
  is_active = true;
  product_is_active = true;
}

abbrev pub main_warehouse : Warehouse
main_warehouse = record { id = 1; store_id = 1; is_default = true; is_active = true }

abbrev shelf : ℕ → ℤ → InventoryBalance
shelf id q = record {
  store_id = 1;
  warehouse_id = 1;
  stock_item_id = id;
  quantity = q;
  reserved_quantity = pos 0;
}

abbrev order : ℕ → OrderStatus → ℤ → Order
order id status total = record {
  id = id;
  store_id = 1;
  order_number = "ORD";
  status = status;
  subtotal_amount = total;
  discount_amount = pos 0;
  tax_amount = pos 0;
  total_amount = total;
  created_by_id = 5;
  created_at = 1_000_000;
  confirmed_at = none;
  fulfilled_at = none;
  canceled_at = none;
  client_request_key = none;
}

abbrev pub sold : ℕ → ℕ → ℕ → ℤ → ℤ → OrderItem
sold id order item q total = record {
  id = id;
  store_id = 1;
  order_id = order;
  stock_item_id = item;
  sku_snapshot = "SKU";
  unit_price_snapshot = pos 1000;
  cost_price_snapshot = pos 500;
  quantity = q;
  refundable_amount = total;
  refunded_amount = pos 0;
  returned_quantity = pos 0;
  subtotal = total;
}

abbrev take : ℕ → StockTakeStatus → StockTake
take id status = record {
  id = id;
  store_id = 1;
  warehouse_id = 1;
  status = status;
  started_at = none;
  completed_at = none;
  created_by_id = 5;
}

abbrev pub counted : StockTakeItem
counted = record {
  store_id = 1;
  stock_take_id = 301;
  stock_item_id = 10;
  expected_quantity = pos 5;
  counted_quantity = pos 4;
  variance_quantity = negsuc 0;
  adjustment_movement_id = none;
}

-- Order 100 is a draft and order 200 fulfilled; stock take 300 is a draft and 301 in progress.
abbrev pub shop : Database
shop = record {
  next_id = 1_000;
  stores = record { id = 1; is_active = true } ∷ [];
  stock_items = item 10 ∷ item 11 ∷ [];
  warehouses = main_warehouse ∷ [];
  balances = shelf 10 (pos 5) ∷ shelf 11 (pos 3) ∷ [];
  movements = [];
  orders =
      order 100 OrderStatus.draft (pos 2_000) ∷ order 200 OrderStatus.fulfilled (pos 3_000) ∷ [];
  order_items = sold 101 100 10 (pos 2) (pos 2_000) ∷ sold 201 200 11 (pos 3) (pos 2_500) ∷ [];
  return_orders = [];
  return_items = [];
  stock_takes = take 300 StockTakeStatus.draft ∷ take 301 StockTakeStatus.in_progress ∷ [];
  stock_take_items = counted ∷ [];
  payments = [];
  payment_configs = [];
  audit_logs = [];
  users = record { id = 5; store_id = some 1; role = warehouse_staff; is_active = true } ∷ [];
  notifications = [];
}

-- Decimals that round down.
abbrev divide : ℤ → ℤ → ℤ
divide (pos zero) c = pos 0
divide (pos (suc n)) (pos (suc m)) = pos (suc n / suc m)
divide (pos (suc n)) (pos zero) = pos 0
divide (pos (suc n)) (negsuc m) = pos 0
divide (negsuc n) c = pos 0

abbrev pub plain : Decimals
plain = record { mul_div_round = λ a b c. divide (a *ℤ b) c; round = λ a. a; column = λ a. a }

pub plain-IsExact : IsExact plain
unfolding ◌*ℤ◌
plain-IsExact = record { nothing = nothing; rounded = λ a. refl }
  where
    nothing : (b c : ℤ) → divide (pos 0 *ℤ b) c ≡ pos 0
    nothing b c = ap (λ q. divide q c) (none_of b)
      where
        none_of : (b : ℤ) → pos 0 *ℤ b ≡ pos 0
        none_of b = ground arith

abbrev pub lines : List StockChangeItem
lines =
    record { stock_item_id = 11; quantity = pos 1 }
    ∷ record { stock_item_id = 10; quantity = pos 2 }
    ∷ record { stock_item_id = 11; quantity = pos 2 }
    ∷ []

abbrev pub context : StockChangeContext
context = record {
  store_id = 1;
  warehouse_id = 1;
  user_id = some 5;
  reference_type = "ORDER";
  reference_id = "ORD";
  idempotency_key = none;
}

pub shop-IsStocked : IsStocked shop
shop-IsStocked u j = either (1 == u && 10 == j) (1 == u && 11 == j)
  where
    either :
        (b c : Bool)
        → pos 0
          ≤ℤ quantity_of
              (if b then some (shelf 10 (pos 5)) else if c then some (shelf 11 (pos 3)) else none)
    either true c = omega arith
    either false true = omega arith
    either false false = omega arith

pub shop-IsSound : IsSound shop
shop-IsSound = record { stocked = shop-IsStocked; explained = λ u j. tt }

abbrev pub order_input : CreateOrderInput
order_input = record {
  discount_amount = pos 500;
  tax_amount = pos 100;
  items = lines;
  client_request_key = some "KEY";
}

abbrev asked : ReturnRequest
asked = record { order_item_id = 201; quantity = pos 1; is_restockable = true }

abbrev pub return_requests : List ReturnRequest
return_requests = asked ∷ asked ∷ []

abbrev pub counts : List CountItem
counts =
    record { stock_item_id = 11; counted_quantity = pos 0 }
    ∷ record { stock_item_id = 10; counted_quantity = pos 8 }
    ∷ []

abbrev pub takes : List CountedItem
takes = record { stock_item_id = 10; counted_quantity = pos 6 } ∷ []

pub lines-IsPositive : IsPositive lines
lines-IsPositive = (omega arith, (omega arith, (omega arith, tt)))

pub lines-IsActive : (j : ℕ) → pos 0 <ℤ requested j lines → IsActive 1 j shop
unfolding ◌+ℤ◌
lines-IsActive j h = pick (10 == j) (11 == j) h
  where
    pick :
        (b c : Bool)
        → pos 0
          <ℤ (if c then pos 1 else pos 0)
            +ℤ ((if b then pos 2 else pos 0) +ℤ ((if c then pos 2 else pos 0) +ℤ pos 0))
        → (s : StockItem) × ((if b && true && true
              then some (item 10)
              else if c && true && true
              then some (item 11)
              else none)
            ≡ some s)
    pick true c h = (item 10, refl)
    pick false true h = (item 11, refl)
    pick false false h = absurd (omega arith)

pub lines-enough : (j : ℕ) → requested j lines ≤ℤ on_hand 1 j shop
unfolding ◌+ℤ◌
lines-enough j = pick (10 == j) (11 == j) (λ e. ground arith)
  where
    pick :
        (b c : Bool)
        → (b ≡ true → c ≡ false)
        → (if c then pos 1 else pos 0)
            +ℤ ((if b then pos 2 else pos 0) +ℤ ((if c then pos 2 else pos 0) +ℤ pos 0))
          ≤ℤ quantity_of
              (if b then some (shelf 10 (pos 5)) else if c then some (shelf 11 (pos 3)) else none)
    pick true true h = absurd (clash (h refl))
      where
        clash : true ≢ false
        clash e = cc
    pick true false h = omega arith
    pick false true h = omega arith
    pick false false h = omega arith
