-- ===== src/Pos.antt =====
-- src/modules/pos/pos.service.ts: a sale at the counter, which creates, pays, confirms and fulfils an
-- order in one transaction. An empty client request key counts as none. What the decimals make of a
-- division by zero is theirs to say.
pub mod Sale
pub mod Money
pub mod Stock
use Prim.Native.String.{String, ◌++◌ as str_append}
use text.Mathlib.Text.{◌==◌ as str_eq}
use stock_pilot_be.Prelude.{
  ℕ, suc, ◌+◌, ◌&&◌, ◌||◌, not, Bool, true, false, Option, none, some, List, [], ◌∷◌, ◌++◌, map,
  ◌==◌, if◌then◌else◌, filter_by, length,
}
use stock_pilot_be.Prelude.Int.{ℤ, pos, ◌+ℤ◌, ◌-ℤ◌, ltb_ℤ, eqb_ℤ}
use stock_pilot_be.Prelude.Rows.{find_first, update_first, holds}
use stock_pilot_be.Prelude.Result.{
  Result, ok, err, Failure, ◌>>=◌, ◌>>◌, ensure, or_fail, not_found, validation, conflict,
  unique_violation,
}
use stock_pilot_be.Schema.{
  Database, Store, Warehouse, Order, OrderItem, OrderStatus, Payment, PaymentMethod,
  PaymentProvider, PaymentStatus, order_fulfill,
}
use stock_pilot_be.Ledger.{StockChangeItem, normalize_items, atomic_deduct, decimal}
use stock_pilot_be.Audit.{audit}
use stock_pilot_be.Orders.Draft.{Decimals, RawLine, subtotal_of}
use stock_pilot_be.Orders.Create.{is_sellable, clashes, new_items}
use stock_pilot_be.Inventory.{target_warehouse}
use Sale.{PosItem, pos_items, pos_lines, pos_allocate}

pub record CreatePosSaleInput : Type 0 where
  pub warehouse_id : Option ℕ
  pub discount_amount : ℤ
  pub tax_amount : ℤ
  pub total_amount : Option ℤ
  pub payment_method : PaymentMethod
  pub items : List PosItem

-- `input.totalAmount !== undefined && !equals(totalAmount)`
abbrev agrees : Option ℤ → ℤ → Bool
agrees none total = true
agrees (some q) total = eqb_ℤ q total

-- `clientRequestKey ? `${clientRequestKey}:PAYMENT` : undefined`
abbrev suffixed : Option String → String → Option String
suffixed none tag = none
suffixed (some k) tag = some (str_append k tag)

-- `tx.order.create` with its lines.
unfoldable pub store_sale :
    ℕ
    → String
    → ℕ
    → ℕ
    → ℤ
    → ℤ
    → ℤ
    → ℤ
    → Option String
    → List RawLine
    → List ℤ
    → Database
    → Result ((Order × List OrderItem) × Database)
store_sale now number store user subtotal discount tax total key lines amounts db =
    elim (find_first (clashes store number key) db.orders) [
      | some _ ↦ err unique_violation
      | none ↦ ok (
        (order, items),
        record db {
          next_id = suc db.next_id + length items;
          orders = order ∷ db.orders;
          order_items = items ++ db.order_items;
        },
      )
    ]
  where
    order : Order
    order = record {
      id = db.next_id;
      store_id = store;
      order_number = number;
      status = OrderStatus.draft;
      subtotal_amount = subtotal;
      discount_amount = discount;
      tax_amount = tax;
      total_amount = total;
      created_by_id = user;
      created_at = now;
      confirmed_at = none;
      fulfilled_at = none;
      canceled_at = none;
      client_request_key = key;
    }

    items : List OrderItem
    items = new_items (suc db.next_id) store db.next_id lines amounts

abbrev provider_of : PaymentMethod → PaymentProvider
provider_of m = elim m [
  | PaymentMethod.payos ↦ PaymentProvider.payos_link
  | _ ↦ PaymentProvider.cash_drawer
]

abbrev method_name : PaymentMethod → String
method_name m = elim m [
  | PaymentMethod.payos ↦ "PAYOS"
  | PaymentMethod.bank_transfer ↦ "BANK_TRANSFER"
  | PaymentMethod.cash ↦ "CASH"
]

abbrev pub same_text : Option String → Option String → Bool
same_text none k = false
same_text (some j) k = holds (λ x. str_eq x j) k

abbrev pub same_provider : PaymentProvider → PaymentProvider → Bool
same_provider PaymentProvider.cash_drawer q = elim q [
  | PaymentProvider.cash_drawer ↦ true
  | _ ↦ false
]
same_provider PaymentProvider.payos_link q = elim q [
  | PaymentProvider.payos_link ↦ true
  | _ ↦ false
]

-- The unique indexes of `payments`.
abbrev pub is_paid_before : Payment → Payment → Bool
is_paid_before new p =
    (same_provider new.provider p.provider && same_text new.provider_reference p.provider_reference)
    || (p.store_id == new.store_id && same_text new.client_request_key p.client_request_key)

-- The payment of a sale: it is paid.
abbrev pub new_payment : ℕ → Order → PaymentMethod → ℤ → Option String → Database → Payment
new_payment store order method total key db = record {
  id = db.next_id;
  store_id = store;
  order_id = order.id;
  provider = provider_of method;
  method = method;
  amount = total;
  status = PaymentStatus.paid;
  provider_reference = some (str_append (method_name method) (str_append "-" order.order_number));
  client_request_key = suffixed key ":PAYMENT";
}

-- `tx.payment.create`
unfoldable pub store_payment :
    ℕ → Order → PaymentMethod → ℤ → Option String → Database → Result (Payment × Database)
store_payment store order method total key db =
    let payment = new_payment store order method total key db in
    elim (find_first (is_paid_before payment) db.payments) [
      | some _ ↦ err unique_violation
      | none ↦
          ok (payment, record db { next_id = suc db.next_id; payments = payment ∷ db.payments })
    ]

-- `tx.order.update({ where: { id } })`
abbrev pub write_order : ℕ → (Order → Order) → Database → Database
write_order id write db = record db { orders = update_first (λ o. o.id == id) write db.orders }

unfoldable pub confirmed : ℕ → Order → Order
confirmed now o = record o { status = OrderStatus.confirmed; confirmed_at = some now }

unfoldable pub fulfilled : ℕ → Order → Order
fulfilled now o = record o { status = OrderStatus.fulfilled; fulfilled_at = some now }

-- `.catch`: a unique index that was broken is a conflict.
unfoldable pub unique_is_conflict {ℓ} : {A : Type ℓ} → Result A → Result A
unique_is_conflict (ok a) = ok a
unique_is_conflict (err e) = err (elim e [ unique_violation ↦ conflict | other ↦ other ])

-- The transaction of `createCashSale`. The order comes back as its last update wrote it.
unfoldable pub cash_sale :
    Decimals
    → ℕ
    → String
    → ℕ
    → ℕ
    → CreatePosSaleInput
    → Option String
    → Database
    → Result (((Order × List OrderItem) × Payment) × Database)
cash_sale d now number store user input key db = do
  w ← target_warehouse store input.warehouse_id db
  or_fail (find_first (λ s. s.id == store && s.is_active) db.stores) not_found
  let aggregated = normalize_items (pos_items input.items)
  let ids = map (λ i. i.stock_item_id) aggregated
  let stock_items = filter_by (is_sellable store ids) db.stock_items
  ensure (length stock_items == length ids) not_found
  lines ← pos_lines d input.items stock_items aggregated
  let subtotal = subtotal_of lines
  let discount = d.round input.discount_amount
  let tax = d.round input.tax_amount
  ensure (not (ltb_ℤ subtotal discount)) validation
  let total = d.round (subtotal -ℤ discount +ℤ tax)
  ensure (agrees input.total_amount total) validation
  ((order, items), db1) ←
      store_sale now number store user subtotal discount tax total key lines
        (pos_allocate d subtotal discount tax total (pos 0) lines) db
  (payment, db2) ← store_payment store order input.payment_method total key db1
  let log = λ (action entity : String) (id : ℕ) (x : Database).
      audit (some store) (some user) action entity (decimal id) x
  let db3 = log "PAYMENT_PAID" "PAYMENT" payment.id (
      log "PAYMENT_CREATED" "PAYMENT" payment.id
        (log "POS_SALE_CREATED" "ORDER" order.id (log "ORDER_CREATED" "ORDER" order.id db2)))
  let db4 = write_order order.id (confirmed now) db3
  (ms, db5) ←
      atomic_deduct
        (record {
          store_id = store;
          warehouse_id = w.id;
          user_id = some user;
          reference_type = "POS_SALE";
          reference_id = number;
          idempotency_key = suffixed key ":STOCK";
        })
        order_fulfill aggregated db4
  let db6 = write_order order.id (fulfilled now) (log "ORDER_CONFIRMED" "ORDER" order.id db5)
  ok (
    ((fulfilled now (confirmed now order), items), payment),
    log "ORDER_FULFILLED" "ORDER" order.id db6,
  )

unfoldable pub create_cash_sale :
    Decimals
    → ℕ
    → String
    → ℕ
    → ℕ
    → CreatePosSaleInput
    → Option String
    → Database
    → Result (((Order × List OrderItem) × Payment) × Database)
create_cash_sale d now number store user input key db =
    unique_is_conflict (cash_sale d now number store user input key db)
