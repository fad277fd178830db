-- ===== src/Idempotency/Recovery.antt =====
-- `recoverCommittedOutcome` of idempotency.ts: what an operation has left in the tables is its answer.
use Prim.Native.String.{String}
use text.Mathlib.Text.{◌==◌ as str_eq, starts_with}
use stock_pilot_be.Prelude.{
  ℕ, ◌&&◌, Bool, Option, none, some, List, [], ◌∷◌, ◌==◌, filter_by, if◌then◌else◌,
}
use stock_pilot_be.Prelude.Rows.{find_first, holds}
use stock_pilot_be.Prelude.Sort.{sort_by}
use stock_pilot_be.Schema.{
  Database, Order, OrderItem, OrderStatus, Payment, ReturnOrder, ReturnItem, StockMovement, Store,
  Warehouse,
}
use stock_pilot_be.Orders.{items_of}
use stock_pilot_be.Orders.Status.{is_canceled, holds_stock}

-- The answer of a request: the handler's own, or one that was put together from the tables.
pub data Body : Type 0 where
  handler_body : String → Body
  order_body : Order → List OrderItem → Body
  sale_body : Order → List OrderItem → Payment → Store → Warehouse → Body
  return_body : ReturnOrder → List ReturnItem → Option Order → Body
  movements_body : Option Warehouse → List StockMovement → Body

abbrev first_of : {A : Type 0} → List A → Option A
first_of [] = none
first_of (x ∷ xs) = some x

-- `where: { storeId, clientRequestKey: effectKey }`
abbrev has_effect : ℕ → String → Order → Bool
has_effect store effect o = o.store_id == store && holds (λ k. str_eq k effect) o.client_request_key

unfoldable pub recover_order : ℕ → String → Database → Option (ℕ × Body)
recover_order store effect db = elim (find_first (has_effect store effect) db.orders) [
  | none ↦ none
  | some o ↦ some (201, order_body o (items_of o.id db))
]

-- The store, the first movement and its warehouse that the receipt of a sale names.
unfoldable pub recover_receipt : ℕ → Order → Payment → Database → Option (ℕ × Body)
recover_receipt store o p db = elim (find_first (λ s. s.id == store && s.is_active) db.stores) [
  | none ↦ none
  | some s ↦ elim (first_of (sort_by (λ m. m.id) (filter_by is_sale db.movements))) [
    | none ↦ none
    | some m ↦
        elim (find_first (λ w. w.id == m.warehouse_id && w.store_id == store) db.warehouses) [
          | none ↦ none
          | some w ↦ some (201, sale_body o (items_of o.id db) p s w)
        ]
  ]
]
  where
    is_sale : StockMovement → Bool
    is_sale m =
        m.store_id == store
        && (str_eq m.reference_type "POS_SALE" && str_eq m.reference_id o.order_number)

unfoldable pub recover_sale : ℕ → String → Database → Option (ℕ × Body)
unfolding recover_receipt
recover_sale store effect db = elim (find_first (has_effect store effect) db.orders) [
  | none ↦ none
  | some o ↦
      elim (first_of (sort_by (λ p. p.id) (filter_by (λ p. p.order_id == o.id) db.payments))) [
        | none ↦ none
        | some p ↦ recover_receipt store o p db
      ]
]

unfoldable pub recover_return : ℕ → String → Database → Option (ℕ × Body)
recover_return store effect db =
    elim (find_first (λ r. r.store_id == store && holds (λ k. str_eq k effect) r.client_request_key)
      db.return_orders) [
        | none ↦ none
        | some r ↦ some (
          201,
          return_body r (filter_by (λ i. i.return_order_id == r.id) db.return_items)
              (find_first (λ o. o.id == r.order_id) db.orders),
        )
      ]

unfoldable pub recover_inventory : ℕ → String → Database → Option (ℕ × Body)
recover_inventory store effect db = answer (
    sort_by (λ m. m.id)
      (filter_by (λ m. m.store_id == store && holds (λ k. starts_with k effect) m.idempotency_key)
        db.movements))
  where
    answer : List StockMovement → Option (ℕ × Body)
    answer [] = none
    answer (m ∷ ms) = some (
      200,
      movements_body (find_first (λ w. w.id == m.warehouse_id && w.store_id == store) db.warehouses)
          (m ∷ ms),
    )

-- `status: { in: [...] }`: confirmed or fulfilled for a confirmation, and canceled for a cancellation.
unfoldable pub recover_status : (OrderStatus → Bool) → ℕ → Option ℕ → Database → Option (ℕ × Body)
recover_status reached store none db = none
recover_status reached store (some id) db =
    elim (find_first (λ o. o.id == id && (o.store_id == store && reached o.status)) db.orders) [
      | none ↦ none
      | some o ↦ some (200, order_body o (items_of o.id db))
    ]

unfoldable pub recover_committed_outcome :
    ℕ → String → String → Option ℕ → Database → Option (ℕ × Body)
unfolding recover_order recover_sale recover_return recover_inventory recover_status
recover_committed_outcome store operation effect id db =
    if str_eq operation "ORDER_CREATE"
    then recover_order store effect db
    else if str_eq operation "POS_SALE_CREATE"
    then recover_sale store effect db
    else if str_eq operation "RETURN_CREATE"
    then recover_return store effect db
    else if starts_with operation "INVENTORY_"
    then recover_inventory store effect db
    else if str_eq operation "ORDER_CONFIRM"
    then recover_status holds_stock store id db
    else if str_eq operation "ORDER_CANCEL"
    then recover_status is_canceled store id db
    else none
