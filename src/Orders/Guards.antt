-- ===== src/Orders/Guards.antt =====
-- When a fulfilment succeeds: order.service.ts.
use stock_pilot_be.Prelude.{
  ℕ, ◌≡◌, ◌≢◌, ◌↔◌, refl, Bool, true, Option, none, some, Option-cases, inl, inr, ap, ◌∙◌,
}
use stock_pilot_be.Prelude.Rows.{find_first, some_injective}
use stock_pilot_be.Prelude.Result.{
  IsOk, is_ok, IsOk-bind, IsOk-call, ensure-true, conflict, or_fail-some, Ensures-IsOk, not_found,
}
use stock_pilot_be.Schema.{Database, Order, OrderStatus}
use stock_pilot_be.Orders.{is_order, advance_order, fulfill_order}
use stock_pilot_be.Orders.Status.{is_confirmed}
use stock_pilot_be.Orders.Lifecycle.{Move, fulfill, order_status, fulfill_order-Moved}

from_confirmed : {s : OrderStatus} → Move s OrderStatus.fulfilled → s ≡ OrderStatus.confirmed
from_confirmed fulfill = refl

advance_order-IsOk :
    (store id : ℕ) (guard : OrderStatus → Bool) (write : Order → Order) (db : Database) (o : Order)
    → find_first (is_order store id) db.orders ≡ some o
    → guard o.status ≡ true
    → IsOk (advance_order store id guard write db)
unfolding advance_order
advance_order-IsOk store id guard write db o found lets =
    IsOk-bind _ o (or_fail-some _ not_found o found)
      (IsOk-bind _ tt (ensure-true (guard o.status) conflict lets) (is_ok _))

confirmed_lets : (s : OrderStatus) → s ≡ OrderStatus.confirmed → is_confirmed s ≡ true
confirmed_lets s e = ap is_confirmed e

-- A fulfilment succeeds exactly when the store's order is confirmed.
pub fulfill_order_iff :
    (now store id : ℕ) (user : Option ℕ) (db : Database)
    → IsOk (fulfill_order now store id user db)
      ↔ (order_status store id db ≡ some OrderStatus.confirmed)
unfolding fulfill_order
fulfill_order_iff now store id user db = (
  λ h.
      let moved = (Ensures-IsOk (fulfill_order-Moved now store id user db) h).1 in
      moved.was ∙ ap some (from_confirmed moved.move),
  λ e. elim (Option-cases (find_first (is_order store id) db.orders)) [
    | inl missing ↦ absurd (nothing (rw missing at e))
    | inr (o, found) ↦
        IsOk-call
          (advance_order-IsOk store id is_confirmed _ db o found
            (confirmed_lets o.status (some_injective (rw found at e))))
          λ a ea. is_ok _
  ],
)
  where
    nothing : none ≢ some OrderStatus.confirmed
    nothing e = cc
