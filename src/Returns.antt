-- ===== src/Returns.antt =====
-- src/modules/returns/return.service.ts: goods that come back from a fulfilled order, and the money
-- that goes back for them. Amounts are whole numbers of the smallest unit; `Decimals` is the decimal
-- library's division and rounding.
pub mod Refund
pub mod Request
pub mod Booking
pub mod Limits
pub mod Stock
pub mod Money
use Prim.Native.String.{String}
use text.Mathlib.Text.{◌==◌ as str_eq}
use stock_pilot_be.Prelude.{
  ℕ, suc, ◌&&◌, ◌||◌, not, Bool, true, false, Option, none, some, List, [], ◌∷◌, ◌++◌, map, ◌==◌,
  if◌then◌else◌, filter_by,
}
use stock_pilot_be.Prelude.Int.{ℤ, pos, ◌+ℤ◌, ◌-ℤ◌, leb_ℤ, ltb_ℤ}
use stock_pilot_be.Prelude.Rows.{find_first, update_first, holds}
use stock_pilot_be.Prelude.Sort.{sort_by}
use stock_pilot_be.Prelude.Result.{
  Result, ok, err, ◌>>=◌, ◌>>◌, ensure, or_fail, not_found, conflict, unique_violation,
}
use stock_pilot_be.Schema.{
  Database, Warehouse, Order, OrderItem, ReturnOrder, ReturnItem, StockMovement, return_restock,
}
use stock_pilot_be.Ledger.{StockChangeItem, atomic_add, decimal}
use stock_pilot_be.Audit.{audit}
use stock_pilot_be.Orders.{is_default_warehouse, is_order, items_of}
use stock_pilot_be.Orders.Status.{is_fulfilled}
use stock_pilot_be.Orders.Draft.{Decimals}
use Refund.{refund_price}
use Request.{ReturnRequest, merge_requests}

-- `where: { id, orderId, storeId }`
abbrev pub is_line : ℕ → ℕ → ℕ → OrderItem → Bool
is_line store order id i = i.id == id && i.order_id == order && i.store_id == store

abbrev or_else {ℓ} : {A : Type ℓ} → Option A → Option A → Option A
or_else none o = o
or_else (some a) o = some a

-- `updateMany` with the limits on what has come back and on what has been refunded: `none` if no row
-- fits.
unfoldable pub book_return :
    ℕ → ℕ → ℕ → OrderItem → ℤ → ℤ → List OrderItem → Option (List OrderItem)
book_return store order id line q price rows =
    if holds
      (λ i.
        leb_ℤ i.returned_quantity (line.quantity -ℤ q)
        && leb_ℤ i.refunded_amount (line.refundable_amount -ℤ price))
      (find_first (is_line store order id) rows)
    then some (
        update_first (is_line store order id)
          (λ i. record i {
            refunded_amount = i.refunded_amount +ℤ price;
            returned_quantity = i.returned_quantity +ℤ q;
          })
          rows)
    else none

-- One round of the loop over the merged requests.
unfoldable pub return_line :
    Decimals → ℕ → Warehouse → ℕ → ReturnRequest → Database → Result (ReturnItem × Database)
unfolding book_return
return_line d store w order req db = do
  line ←
      or_fail
        (or_else (find_first (is_line store order req.order_item_id) db.order_items)
          (find_first (λ i. i.id == req.order_item_id) (items_of order db)))
        not_found
  let remaining_refundable = line.refundable_amount -ℤ line.refunded_amount
  ensure (ltb_ℤ (pos 0) remaining_refundable) conflict
  let remaining_quantity = line.quantity -ℤ line.returned_quantity
  ensure (leb_ℤ req.quantity remaining_quantity) conflict
  let price = refund_price d line req.quantity
  rows ←
      or_fail (book_return store order req.order_item_id line req.quantity price db.order_items)
        conflict
  ok (
    record {
      store_id = store;
      return_order_id = 0;
      order_item_id = line.id;
      stock_item_id = line.stock_item_id;
      quantity = req.quantity;
      refund_price = price;
      is_restockable = req.is_restockable;
      restock_warehouse_id = if req.is_restockable then some w.id else none;
    },
    record db { order_items = rows },
  )

unfoldable pub return_lines :
    Decimals
    → ℕ
    → Warehouse
    → ℕ
    → List ReturnRequest
    → Database
    → Result (List ReturnItem × Database)
return_lines d store w order [] db = ok ([], db)
return_lines d store w order (r ∷ rs) db = do
  (item, db') ← return_line d store w order r db
  (rest, db'') ← return_lines d store w order rs db'
  ok (item ∷ rest, db'')

-- `totalRefundAmount` after the loop.
abbrev pub total_refund : List ReturnItem → ℤ
total_refund [] = pos 0
total_refund (i ∷ is) = i.refund_price +ℤ total_refund is

abbrev pub restock_list : List ReturnItem → List StockChangeItem
restock_list items =
    map (λ i. record { stock_item_id = i.stock_item_id; quantity = i.quantity })
      (filter_by (λ i. i.is_restockable) items)

-- `if (restockList.length > 0)`
unfoldable pub restock_returned :
    ℕ
    → ℕ
    → Warehouse
    → String
    → Option String
    → List StockChangeItem
    → Database
    → Result (List StockMovement × Database)
restock_returned store user w number key [] db = ok ([], db)
restock_returned store user w number key (x ∷ xs) db =
    atomic_add
      (record {
        store_id = store;
        warehouse_id = w.id;
        user_id = some user;
        reference_type = "RETURN";
        reference_id = number;
        idempotency_key = key;
      })
      return_restock (x ∷ xs) db

-- The unique indexes of `return_orders`, by return number and by client request key.
abbrev pub is_taken : ℕ → String → Option String → ReturnOrder → Bool
is_taken store number none r = r.store_id == store && str_eq r.return_number number
is_taken store number (some k) r =
    r.store_id == store
    && (str_eq r.return_number number || holds (λ j. str_eq j k) r.client_request_key)

-- `tx.returnOrder.create` with its items.
unfoldable pub store_return :
    ℕ
    → ℕ
    → ℕ
    → String
    → Option String
    → List ReturnItem
    → Database
    → Result (ReturnOrder × Database)
store_return store user order number key items db =
    elim (find_first (is_taken store number key) db.return_orders) [
      | some _ ↦ err unique_violation
      | none ↦ ok (
        stored,
        record db {
          next_id = suc db.next_id;
          return_orders = stored ∷ db.return_orders;
          return_items =
              map {A = ReturnItem} (λ i. record i { return_order_id = db.next_id }) items
              ++ db.return_items;
        },
      )
    ]
  where
    stored : ReturnOrder
    stored = record {
      id = db.next_id;
      store_id = store;
      order_id = order;
      return_number = number;
      total_refund_amount = total_refund items;
      client_request_key = key;
      created_by_id = user;
    }

unfoldable pub create_return :
    Decimals
    → ℕ
    → ℕ
    → ℕ
    → String
    → Option String
    → List ReturnRequest
    → Database
    → Result ((ReturnOrder × List ReturnItem) × Database)
create_return d store user order_id number key requests db = do
  w ← or_fail (find_first (is_default_warehouse store) db.warehouses) not_found
  order ← or_fail (find_first (is_order store order_id) db.orders) not_found
  ensure (is_fulfilled order.status) conflict
  merged ← merge_requests requests
  (items, db1) ← return_lines d store w order_id (sort_by (λ r. r.order_item_id) merged) db
  (ms, db2) ← restock_returned store user w number key (restock_list items) db1
  (stored, db3) ← store_return store user order_id number key items db2
  ok (
    (stored, items),
    audit (some store) (some user) "RETURN_CREATED" "RETURN" (decimal stored.id) db3,
  )
