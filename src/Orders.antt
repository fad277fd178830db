-- ===== src/Orders.antt =====
-- src/modules/orders/order.service.ts: a sale order from its draft to its end. Each method is one
-- transaction: an error leaves the database as it was.
pub mod Draft
pub mod Create
pub mod Columns
pub mod Balance
pub mod Access
pub mod Status
pub mod Lifecycle
pub mod Stock
pub mod Cancel
pub mod Guards
use Prim.Native.String.{String, ◌++◌ as str_append}
use stock_pilot_be.Prelude.{
  ℕ, suc, ◌&&◌, ◌||◌, not, Bool, true, false, Option, none, some, List, [], ◌∷◌, map, ◌==◌,
  if◌then◌else◌, filter_by,
}
use stock_pilot_be.Prelude.Int.{ℤ, pos, ◌-ℤ◌, ltb_ℤ}
use stock_pilot_be.Prelude.Rows.{find_first, update_first, update_all}
use stock_pilot_be.Prelude.Result.{
  Result, ok, err, ◌>>=◌, ◌>>◌, ensure, or_fail, not_found, conflict,
}
use stock_pilot_be.Schema.{
  Database, Warehouse, Order, OrderItem, OrderStatus, Payment, PaymentStatus, StockMovement,
  order_fulfill, order_cancel_restock, Role, warehouse_staff,
}
use stock_pilot_be.Ledger.{StockChangeContext, StockChangeItem, atomic_deduct, atomic_add, decimal}
use stock_pilot_be.Audit.{audit}
use Access.{may_handle}
use Status.{is_draft, is_confirmed, is_fulfilled, is_canceled, holds_stock}

-- `where: { storeId, isDefault: true, isActive: true }`
abbrev pub is_default_warehouse : ℕ → Warehouse → Bool
is_default_warehouse store w = w.store_id == store && w.is_default && w.is_active

-- `where: { id, storeId }`
abbrev pub is_order : ℕ → ℕ → Order → Bool
is_order store id o = o.id == id && o.store_id == store

-- `updateMany` of the order's row, guarded by its status. If no row fits, the order is looked for to
-- tell a missing one from one in another status.
unfoldable pub advance_order :
    ℕ → ℕ → (OrderStatus → Bool) → (Order → Order) → Database → Result (Order × Database)
advance_order store id guard write db = do
  o ← or_fail (find_first (is_order store id) db.orders) not_found
  ensure (guard o.status) conflict
  ok (write o, record db { orders = update_first (is_order store id) write db.orders })

-- `include: { items: true }`
abbrev pub items_of : ℕ → Database → List OrderItem
items_of id db = filter_by (λ i. i.order_id == id) db.order_items

abbrev pub order_key : String → ℕ → ℕ → String
order_key prefix store id =
    str_append prefix (str_append ":" (str_append (decimal store) (str_append ":" (decimal id))))

abbrev pub deduct_lines : List OrderItem → List StockChangeItem
deduct_lines = map (λ i. record { stock_item_id = i.stock_item_id; quantity = i.quantity })

unfoldable pub confirm_order : ℕ → ℕ → ℕ → ℕ → Database → Result (Order × Database)
confirm_order now store user id db = do
  warehouse ← or_fail (find_first (is_default_warehouse store) db.warehouses) not_found
  (order, db1) ←
      advance_order store id is_draft
        (λ o. record o { status = OrderStatus.confirmed; confirmed_at = some now }) db
  (ms, db2) ←
      atomic_deduct
        (record {
          store_id = store;
          warehouse_id = warehouse.id;
          user_id = some user;
          reference_type = "ORDER";
          reference_id = order.order_number;
          idempotency_key = some (order_key "ORDER_CONFIRM" store id);
        })
        order_fulfill (deduct_lines (items_of id db1)) db1
  ok (order, audit (some store) (some user) "ORDER_CONFIRMED" "ORDER" (decimal id) db2)

unfoldable pub fulfill_order : ℕ → ℕ → ℕ → Option ℕ → Database → Result (Order × Database)
fulfill_order now store id user db = do
  (order, db1) ←
      advance_order store id is_confirmed
        (λ o. record o { status = OrderStatus.fulfilled; fulfilled_at = some now }) db
  ok (order, audit (some store) user "ORDER_FULFILLED" "ORDER" (decimal id) db1)

-- What the customer still holds of each line.
abbrev pub restock_lines : List OrderItem → List StockChangeItem
restock_lines items =
    filter_by (λ x. ltb_ℤ (pos 0) x.quantity)
      (map
        (λ i. record {
          stock_item_id = i.stock_item_id;
          quantity = i.quantity -ℤ i.returned_quantity;
        })
        items)

-- `if (restockItems.length > 0)`
unfoldable pub restock_into :
    ℕ
    → ℕ
    → Warehouse
    → Order
    → List StockChangeItem
    → Database
    → Result (List StockMovement × Database)
restock_into store user w order [] db = ok ([], db)
restock_into store user w order (x ∷ xs) db =
    atomic_add
      (record {
        store_id = store;
        warehouse_id = w.id;
        user_id = some user;
        reference_type = "ORDER_CANCEL";
        reference_id = order.order_number;
        idempotency_key = some (order_key "ORDER_CANCEL" store order.id);
      })
      order_cancel_restock (x ∷ xs) db

-- The goods of an order that has left the warehouse go back to the default one.
unfoldable pub restock :
    ℕ → ℕ → Option Warehouse → Order → Database → Result (List StockMovement × Database)
unfolding restock_into
restock store user warehouse order db =
    if holds_stock order.status
    then (do
      w ← or_fail warehouse not_found
      restock_into store user w order (restock_lines (items_of order.id db)) db)
    else ok ([], db)

-- `payment.updateMany({ where: { orderId, storeId }, data: { status: 'CANCELED' } })`
abbrev pub cancel_payments : ℕ → ℕ → List Payment → List Payment
cancel_payments store id =
    update_all (λ p. p.order_id == id && p.store_id == store)
      (λ p. record p { status = PaymentStatus.canceled })

unfoldable pub cancel_order : ℕ → ℕ → ℕ → ℕ → Role → Database → Result (Order × Database)
unfolding may_handle restock
cancel_order now store user id role db = do
  order ← or_fail (find_first (is_order store id) db.orders) not_found
  ensure (may_handle now role user order) conflict
  ensure (not (is_canceled order.status)) conflict
  let write = λ (o : Order). record o { status = OrderStatus.canceled; canceled_at = some now }
  let db1 = record db { orders = update_first (is_order store id) write db.orders }
  (ms, db2) ← restock store user (find_first (is_default_warehouse store) db.warehouses) order db1
  let db3 = record db2 { payments = cancel_payments store id db2.payments }
  ok (write order, audit (some store) (some user) "ORDER_CANCELED" "ORDER" (decimal id) db3)
