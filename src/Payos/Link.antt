-- ===== src/Payos/Link.antt =====
-- `createPaymentLink` of pos-payos.service.ts. It is no transaction: the order is stored before PayOS is
-- asked for the link, so an error leaves tables of its own. What PayOS answers is a parameter.
use Prim.Native.String.{String, ◌++◌ as str_append}
use stock_pilot_be.Prelude.{
  ℕ, suc, ◌+◌, ◌&&◌, not, Bool, true, false, Option, none, some, List, [], ◌∷◌, ◌++◌, map, ◌==◌,
  filter_by, length, contains,
}
use stock_pilot_be.Prelude.Int.{ℤ, pos, ◌+ℤ◌, ◌-ℤ◌, ltb_ℤ}
use stock_pilot_be.Prelude.Rows.{find_first}
use stock_pilot_be.Prelude.Result.{
  Result, ok, err, ◌>>=◌, ◌>>◌, ensure, validation, not_found, unique_violation,
}
use stock_pilot_be.Schema.{
  Database, StockItem, Order, OrderItem, OrderStatus, Payment, PaymentMethod, PaymentProvider,
  PaymentStatus,
}
use stock_pilot_be.Ledger.{StockChangeItem, decimal, normalize_items}
use stock_pilot_be.Ledger.Balances.{quantity_at}
use stock_pilot_be.Orders.Create.{clashes, new_items}
use stock_pilot_be.Orders.Draft.{Decimals, RawLine, subtotal_of}
use stock_pilot_be.Inventory.{target_warehouse}
use stock_pilot_be.Pos.{is_paid_before}
use stock_pilot_be.Pos.Sale.{pos_lines, pos_allocate}
use stock_pilot_be.Payos.{Secrets, require_credentials, has_code, whole_units}
use stock_pilot_be.Payos.Code.{Draw, unique_order_code}

pub record CreatePayosLinkInput : Type 0 where
  pub warehouse_id : Option ℕ
  pub discount_amount : ℤ
  pub tax_amount : ℤ
  pub items : List StockChangeItem

-- `where: { storeId, id: { in: itemIds }, isActive: true }`
abbrev is_on_sale : ℕ → List ℕ → StockItem → Bool
is_on_sale store ids s = s.store_id == store && contains s.id ids && s.is_active

-- The preliminary check of the stock, item by item.
unfoldable pub check_stock : ℕ → List StockChangeItem → Database → Result (Unit {0})
check_stock w [] db = ok tt
check_stock w (x ∷ xs) db = do
  ensure (not (ltb_ℤ (quantity_at w x.stock_item_id db.balances) x.quantity)) validation
  check_stock w xs db

-- What is known before the order is stored.
pub record LinkDraft : Type 0 where
  pub lines : List RawLine
  pub subtotal : ℤ
  pub discount : ℤ
  pub tax : ℤ
  pub total : ℤ

unfoldable pub draft_link :
    Secrets → Decimals → ℕ → CreatePayosLinkInput → Database → Result LinkDraft
unfolding check_stock
draft_link s d store input db = do
  creds ← require_credentials s store db
  w ← target_warehouse store input.warehouse_id db
  let aggregated = normalize_items input.items
  ensure (not (length aggregated == 0)) validation
  let ids = map (λ i. i.stock_item_id) aggregated
  let stock_items = filter_by (is_on_sale store ids) db.stock_items
  ensure (length stock_items == length ids) not_found
  check_stock w.id aggregated db
  lines ← pos_lines d [] stock_items aggregated
  let subtotal = subtotal_of lines
  let discount = d.round input.discount_amount
  ensure (not (ltb_ℤ discount (pos 0))) validation
  ensure (not (ltb_ℤ subtotal discount)) validation
  let tax = d.round input.tax_amount
  ensure (not (ltb_ℤ tax (pos 0))) validation
  let total = d.round (subtotal -ℤ discount +ℤ tax)
  ensure (ltb_ℤ (pos 0) (whole_units total)) validation
  ok (record { lines = lines; subtotal = subtotal; discount = discount; tax = tax; total = total })

-- A payment has the code.
abbrev pub is_code_taken : Database → ℕ → Bool
is_code_taken db code = elim (find_first (has_code code) db.payments) [
  | none ↦ false
  | some _ ↦ true
]

module _ (now store user code : ℕ) (draft : LinkDraft) (d : Decimals) (db : Database) where
  abbrev pub pending_order : Order
  pending_order = record {
    id = db.next_id;
    store_id = store;
    order_number = str_append "POS-PAYOS-" (decimal code);
    status = OrderStatus.draft;
    subtotal_amount = draft.subtotal;
    discount_amount = draft.discount;
    tax_amount = draft.tax;
    total_amount = draft.total;
    created_by_id = user;
    created_at = now;
    confirmed_at = none;
    fulfilled_at = none;
    canceled_at = none;
    client_request_key = none;
  }

  abbrev pub pending_items : List OrderItem
  pending_items =
      new_items (suc db.next_id) store db.next_id draft.lines
        (pos_allocate d draft.subtotal draft.discount draft.tax draft.total (pos 0) draft.lines)

  abbrev pub pending_payment : Payment
  pending_payment = record {
    id = suc db.next_id + length pending_items;
    store_id = store;
    order_id = db.next_id;
    provider = PaymentProvider.payos_link;
    method = PaymentMethod.payos;
    amount = draft.total;
    status = PaymentStatus.pending;
    provider_reference = some (decimal code);
    client_request_key = none;
  }

  -- `order.create` with its lines and its payment, one statement to the database.
  unfoldable pub store_link : Result ((Order × List OrderItem) × Database)
  store_link = elim (find_first (clashes store pending_order.order_number none) db.orders) [
    | some _ ↦ err unique_violation
    | none ↦ elim (find_first (is_paid_before pending_payment) db.payments) [
      | some _ ↦ err unique_violation
      | none ↦ ok (
        (pending_order, pending_items),
        record db {
          next_id = suc (suc db.next_id + length pending_items);
          orders = pending_order ∷ db.orders;
          order_items = pending_items ++ db.order_items;
          payments = pending_payment ∷ db.payments;
        },
      )
    ]
  ]

-- What the call of PayOS comes to: a network error or a timeout leaves it open whether the link is
-- there, which `get` then tells or not; any other error is a refusal.
pub data PayosReply : Type 0 where
  created refused : PayosReply
  interrupted : (reconciled : Bool) → PayosReply

pub record PaymentLink : Type 0 where
  pub order_id : ℕ
  pub order_number : String
  pub order_code : ℕ
  pub amount : ℤ

-- The three deletions of a refused link, by the order's id.
unfoldable pub remove_order : ℕ → Database → Database
remove_order id db = record db {
  payments = filter_by (λ p. not (p.order_id == id)) db.payments;
  order_items = filter_by (λ i. not (i.order_id == id)) db.order_items;
  orders = filter_by (λ o. not (o.id == id)) db.orders;
}

-- What the reply makes of the stored order.
unfoldable pub finish_link : PaymentLink → PayosReply → Database → Result PaymentLink × Database
unfolding remove_order
finish_link link created db = (ok link, db)
finish_link link (interrupted true) db = (ok link, db)
finish_link link (interrupted false) db = (err validation, db)
finish_link link refused db = (err validation, remove_order link.order_id db)

-- The reply is PayOS's to the order code and the amount in whole units.
unfoldable pub create_payment_link :
    Secrets
    → Decimals
    → (ℕ → ℤ → PayosReply)
    → (ℕ → Draw)
    → ℕ
    → ℕ
    → ℕ
    → CreatePayosLinkInput
    → Database
    → Result PaymentLink × Database
unfolding draft_link store_link finish_link
create_payment_link s d payos draws now store user input db = elim (draft_link s d store input db) [
  | err e ↦ (err e, db)
  | ok draft ↦
      let code = unique_order_code store draws (is_code_taken db) in
      elim (store_link now store user code draft d db) [
        | err e ↦ (err e, db)
        | ok ((order, items), db') ↦
            finish_link
              (record {
                order_id = order.id;
                order_number = order.order_number;
                order_code = code;
                amount = whole_units draft.total;
              })
              (payos code (whole_units draft.total)) db'
      ]
]
