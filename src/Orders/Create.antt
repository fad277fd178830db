-- ===== src/Orders/Create.antt =====
-- `createDraftOrder` of order.service.ts.
use Prim.Native.String.{String}
use text.Mathlib.Text.{◌==◌ as str_eq}
use stock_pilot_be.Prelude.{
  ℕ, suc, ◌+◌, ◌≡◌, ◌&&◌, ◌||◌, not, Bool, true, false, Option, none, some, List, [], ◌∷◌, ◌++◌,
  map, ◌==◌, filter_by, length, contains,
}
use stock_pilot_be.Prelude.Int.{ℤ, pos, ◌+ℤ◌, ◌-ℤ◌, ltb_ℤ, ◌≤ℤ◌}
use stock_pilot_be.Prelude.Rows.{find_first, holds}
use stock_pilot_be.Prelude.Result.{
  Result, ok, err, ◌>>=◌, ◌>>◌, ensure, not_found, validation, unique_violation,
}
use stock_pilot_be.Schema.{
  Database, StockItem, Order, OrderItem, OrderStatus, User, Notification, Role, admin,
}
use stock_pilot_be.Ledger.{StockChangeItem, normalize_items, decimal}
use stock_pilot_be.Audit.{audit}
use stock_pilot_be.Orders.Draft.{Decimals, RawLine, raw_lines, subtotal_of, allocate, sum_ℤ}

pub record CreateOrderInput : Type 0 where
  pub discount_amount : ℤ
  pub tax_amount : ℤ
  pub items : List StockChangeItem
  pub client_request_key : Option String

-- `where: { storeId, id: { in }, isActive: true, product: { isActive: true } }`
abbrev pub is_sellable : ℕ → List ℕ → StockItem → Bool
is_sellable store ids s =
    s.store_id == store && contains s.id ids && s.is_active && s.product_is_active

-- The unique indexes of `orders`, by order number and by client request key.
abbrev pub clashes : ℕ → String → Option String → Order → Bool
clashes store number none o = o.store_id == store && str_eq o.order_number number
clashes store number (some k) o =
    o.store_id == store
    && (str_eq o.order_number number || holds (λ j. str_eq j k) o.client_request_key)

-- `items: { create: orderItemsData }`
unfoldable pub new_items : ℕ → ℕ → ℕ → List RawLine → List ℤ → List OrderItem
new_items id store order [] amounts = []
new_items id store order (l ∷ ls) [] = []
new_items id store order (l ∷ ls) (amount ∷ amounts) =
    record {
      id = id;
      store_id = store;
      order_id = order;
      stock_item_id = l.stock_item.id;
      sku_snapshot = l.stock_item.sku;
      unit_price_snapshot = l.unit_price;
      cost_price_snapshot = l.cost_price;
      quantity = l.quantity;
      refundable_amount = amount;
      refunded_amount = pos 0;
      returned_quantity = pos 0;
      subtotal = l.line_subtotal;
    }
    ∷ new_items (suc id) store order ls amounts

is_admin : Role → Bool
is_admin r = elim r [ admin ↦ true | _ ↦ false ]

-- `{ OR: [{ storeId }, { role: 'ADMIN' }], isActive: true }`
abbrev is_told : ℕ → User → Bool
is_told store u = (holds (λ s. s == store) u.store_id || is_admin u.role) && u.is_active

unfoldable pub notify : ℕ → ℕ → Database → Database
unfolding is_admin
notify store order db = record db {
  notifications = map told (filter_by (is_told store) db.users) ++ db.notifications;
}
  where
    told : User → Notification
    told u = record { store_id = store; user_id = u.id; entity_type = "ORDER"; entity_id = order }

-- The amounts of a line in their columns.
abbrev pub in_columns : Decimals → RawLine → RawLine
in_columns d l = record l {
  unit_price = d.column l.unit_price;
  cost_price = d.column l.cost_price;
  line_subtotal = d.column l.line_subtotal;
}

-- The transaction that stores the order with its lines: every amount as its column keeps it.
unfoldable pub store_order :
    Decimals
    → ℕ
    → String
    → ℕ
    → ℕ
    → CreateOrderInput
    → ℤ
    → ℤ
    → List RawLine
    → List ℤ
    → Database
    → Result ((Order × List OrderItem) × Database)
unfolding new_items notify audit
store_order d now number store user input subtotal total lines amounts db =
    elim (find_first (clashes store number input.client_request_key) db.orders) [
      | some _ ↦ err unique_violation
      | none ↦ ok (
        (order, items),
        notify store order.id (
            audited (record db {
              next_id = suc db.next_id + length items;
              orders = order ∷ db.orders;
              order_items = items ++ db.order_items;
            })),
      )
    ]
  where
    order : Order
    order = record {
      id = db.next_id;
      store_id = store;
      order_number = number;
      status = OrderStatus.draft;
      subtotal_amount = d.column subtotal;
      discount_amount = d.column input.discount_amount;
      tax_amount = d.column input.tax_amount;
      total_amount = d.column total;
      created_by_id = user;
      created_at = now;
      confirmed_at = none;
      fulfilled_at = none;
      canceled_at = none;
      client_request_key = input.client_request_key;
    }

    items : List OrderItem
    items =
        new_items (suc db.next_id) store db.next_id (map (in_columns d) lines)
          (map d.column amounts)

    audited : Database → Database
    audited = audit (some store) (some user) "ORDER_CREATED" "ORDER" (decimal db.next_id)

unfoldable pub create_draft_order :
    Decimals
    → ℕ
    → String
    → ℕ
    → ℕ
    → CreateOrderInput
    → Database
    → Result ((Order × List OrderItem) × Database)
create_draft_order d now number store user input db = do
  let aggregated = normalize_items input.items
  let ids = map (λ i. i.stock_item_id) aggregated
  let stock_items = filter_by (is_sellable store ids) db.stock_items
  ensure (length stock_items == length ids) not_found
  lines ← raw_lines stock_items aggregated
  let subtotal = subtotal_of lines
  ensure (not (ltb_ℤ subtotal input.discount_amount)) validation
  let total = subtotal -ℤ input.discount_amount +ℤ input.tax_amount
  let amounts = allocate d subtotal input.discount_amount input.tax_amount total (pos 0) lines
  store_order d now number store user input subtotal total lines amounts db

-- The money of a stored order: its lines' refundable amounts make up its total.
pub record IsBalanced (order : Order) (items : List OrderItem) : Type 0 where
  pub total :
      order.total_amount ≡ order.subtotal_amount -ℤ order.discount_amount +ℤ order.tax_amount
  pub refundable : sum_ℤ (map (λ i. i.refundable_amount) items) ≡ order.total_amount
  pub subtotals : sum_ℤ (map (λ i. i.subtotal) items) ≡ order.subtotal_amount
  pub discount : order.discount_amount ≤ℤ order.subtotal_amount
