-- ===== src/Orders/Lifecycle.antt =====
-- The states of an order, as the moves between them: order.service.ts.
use stock_pilot_be.Prelude.{
  ℕ, ◌≡◌, ◌≢◌, refl, not, Bool, true, Option, none, some, List, [], ◌∷◌, arith, Bool-cases, inl,
  inr, ap, ◌∙◌, ◌⊎◌,
}
use stock_pilot_be.Prelude.Rows.{
  find_first, update_first, find_first-update_self, find_first-update_ne,
}
use stock_pilot_be.Prelude.Result.{
  or_fail-eq-ok, ensure-eq-ok, Ensures, Ensures-bind, Ensures-call, returns,
}
use stock_pilot_be.Schema.{Database, Order, OrderStatus, Role, Warehouse}
use stock_pilot_be.Orders.{
  is_order, advance_order, confirm_order, fulfill_order, cancel_order, restock, restock_into,
  restock_lines, items_of,
}
use stock_pilot_be.Audit.{audit}
use stock_pilot_be.Ledger.{StockChangeItem}
use stock_pilot_be.Ledger.Rest.{rest, atomic_deduct-rest, atomic_add-rest}
use stock_pilot_be.Orders.Status.{holds_stock, is_draft, is_confirmed, is_canceled}

-- The moves that the code makes: nothing leads out of `canceled`, and an order in any other state can
-- go there, also a fulfilled one, which the documents would send through a return.
pub data Move : OrderStatus → OrderStatus → Type 0 where
  confirm : Move OrderStatus.draft OrderStatus.confirmed
  fulfill : Move OrderStatus.confirmed OrderStatus.fulfilled
  cancel_draft : Move OrderStatus.draft OrderStatus.canceled
  cancel_confirmed : Move OrderStatus.confirmed OrderStatus.canceled
  cancel_fulfilled : Move OrderStatus.fulfilled OrderStatus.canceled

-- The status of a store's order.
abbrev pub status_of : Option Order → Option OrderStatus
status_of none = none
status_of (some o) = some o.status

abbrev pub order_status : ℕ → ℕ → Database → Option OrderStatus
order_status store id db = status_of (find_first (is_order store id) db.orders)

-- The order made a move, to `to`, and every other order has the status that it had.
pub record Moved (store id : ℕ) (to : OrderStatus) (db db' : Database) : Type 0 where
  pub from : OrderStatus
  pub was : order_status store id db ≡ some from
  pub move : Move from to
  pub now_is : order_status store id db' ≡ some to
  pub others : (s j : ℕ) → (j ≢ id) ⊎ (s ≢ store) → order_status s j db' ≡ order_status s j db

-- What the write of one order's row does to the statuses.
module _ (store id : ℕ) (write : Order → Order) (orders : List Order) where
  written_self :
      ((o : Order) → is_order store id (write o) ≡ is_order store id o)
      → (o : Order) → find_first (is_order store id) orders ≡ some o
      → find_first (is_order store id) (update_first (is_order store id) write orders)
        ≡ some (write o)
  written_self keeps o e = find_first-update_self (is_order store id) write keeps orders ∙ rw e

  written_other :
      (s j : ℕ)
      → ((o : Order) → is_order s j (write o) ≡ is_order s j o)
      → (j ≢ id) ⊎ (s ≢ store)
      → find_first (is_order s j) (update_first (is_order store id) write orders)
        ≡ find_first (is_order s j) orders
  written_other s j keeps apart =
      find_first-update_ne (is_order store id) (is_order s j) write keeps (λ x h. ground arith)
        orders

-- A guarded write of the order's row and later changes of other tables are a move.
advance-Moved :
    (store id : ℕ) (write : Order → Order) (to : OrderStatus) (o : Order) (db db' : Database)
    → ((s j : ℕ) (o : Order) → is_order s j (write o) ≡ is_order s j o)
    → ((o : Order) → (write o).status ≡ to)
    → Move o.status to
    → find_first (is_order store id) db.orders ≡ some o
    → db'.orders ≡ update_first (is_order store id) write db.orders
    → Moved store id to db db'
advance-Moved store id write to o db db' keeps sets move found written = record {
  from = o.status;
  was = ap status_of found;
  move = move;
  now_is = rw written (
      ap status_of (written_self store id write db.orders (keeps store id) o found)
      ∙ ap some (sets o));
  others = λ s j apart.
      rw written (ap status_of (written_other store id write db.orders s j (keeps s j) apart));
}

-- A guarded move that returns found the order, in a status that the guard lets through.
pub record Advanced (store id : ℕ) (guard : OrderStatus → Bool) (write : Order → Order)
    (db : Database) (r : Order × Database) : Type 0 where
  pub old : Order
  pub found : find_first (is_order store id) db.orders ≡ some old
  pub guarded : guard old.status ≡ true
  pub order : r.0 ≡ write old
  pub state : r.1 ≡ record db { orders = update_first (is_order store id) write db.orders }

pub advance_order-Advanced :
    (store id : ℕ) (guard : OrderStatus → Bool) (write : Order → Order) (db : Database)
    → Ensures (Advanced store id guard write db) (advance_order store id guard write db)
unfolding advance_order
advance_order-Advanced store id guard write db = Ensures-bind λ o eo. Ensures-bind λ u eu.
    returns (record {
      old = o;
      found = or_fail-eq-ok _ _ eo;
      guarded = ensure-eq-ok _ _ eu;
      order = refl;
      state = refl;
    })

draft_to : (s : OrderStatus) → is_draft s ≡ true → Move s OrderStatus.confirmed
draft_to OrderStatus.draft h = confirm
draft_to OrderStatus.confirmed h = cc
draft_to OrderStatus.fulfilled h = cc
draft_to OrderStatus.canceled h = cc

confirmed_to : (s : OrderStatus) → is_confirmed s ≡ true → Move s OrderStatus.fulfilled
confirmed_to OrderStatus.draft h = cc
confirmed_to OrderStatus.confirmed h = fulfill
confirmed_to OrderStatus.fulfilled h = cc
confirmed_to OrderStatus.canceled h = cc

cancel_from : (s : OrderStatus) → not (is_canceled s) ≡ true → Move s OrderStatus.canceled
cancel_from OrderStatus.draft h = cancel_draft
cancel_from OrderStatus.confirmed h = cancel_confirmed
cancel_from OrderStatus.fulfilled h = cancel_fulfilled
cancel_from OrderStatus.canceled h = cc

-- A confirmation that succeeds has moved the order from draft to confirmed, and no other order's
-- status.
pub confirm_order-Moved :
    (now store user id : ℕ) (db : Database)
    → Ensures
        (λ r. Moved store id OrderStatus.confirmed db r.1)
        (confirm_order now store user id db)
unfolding confirm_order audit
confirm_order-Moved now store user id db = Ensures-bind λ w ew.
    Ensures-call (advance_order-Advanced store id is_draft _ db) λ a adv.
      Ensures-call (atomic_deduct-rest _ _ _ a.1) λ d kept. returns (
        advance-Moved store id _ OrderStatus.confirmed adv.old db _ (λ s j o. refl) (λ o. refl)
          (draft_to adv.old.status adv.guarded) adv.found
          (ap (λ x. x.orders) kept ∙ ap (λ x. x.orders) adv.state))

-- A fulfilment that succeeds has moved the order from confirmed to fulfilled, and no other order's
-- status.
pub fulfill_order-Moved :
    (now store id : ℕ) (user : Option ℕ) (db : Database)
    → Ensures
        (λ r. Moved store id OrderStatus.fulfilled db r.1)
        (fulfill_order now store id user db)
unfolding fulfill_order audit
fulfill_order-Moved now store id user db =
    Ensures-call (advance_order-Advanced store id is_confirmed _ db) λ a adv. returns (
      advance-Moved store id _ OrderStatus.fulfilled adv.old db _ (λ s j o. refl) (λ o. refl)
        (confirmed_to adv.old.status adv.guarded) adv.found (ap (λ x. x.orders) adv.state))

restock-rest :
    (store user : ℕ) (warehouse : Option Warehouse) (order : Order) (db : Database)
    → Ensures (λ r. rest r.1 ≡ rest db) (restock store user warehouse order db)
unfolding restock
restock-rest store user warehouse order db = elim (Bool-cases (holds_stock order.status)) [
  | inr none_held ↦ rw none_held (returns refl)
  | inl held ↦ rw held (Ensures-bind λ w ew. into w (restock_lines (items_of order.id db)))
]
  where
    into :
        (w : Warehouse) (xs : List StockChangeItem)
        → Ensures (λ r. rest r.1 ≡ rest db) (restock_into store user w order xs db)
    into w [] = returns refl
    into w (x ∷ xs) = atomic_add-rest _ _ (x ∷ xs) db

-- A cancellation that succeeds has moved the order, from draft, confirmed or also fulfilled (which the
-- documents forbid), to canceled, and no other order's status.
pub cancel_order-Moved :
    (now store user id : ℕ) (role : Role) (db : Database)
    → Ensures
        (λ r. Moved store id OrderStatus.canceled db r.1)
        (cancel_order now store user id role db)
unfolding cancel_order audit
cancel_order-Moved now store user id role db = Ensures-bind λ o eo. Ensures-bind λ handled eh.
    Ensures-bind λ open_ ek. Ensures-call (restock-rest store user _ o _) λ d kept. returns (
      advance-Moved store id _ OrderStatus.canceled o db _ (λ s j x. refl) (λ x. refl)
        (cancel_from o.status (ensure-eq-ok _ _ ek)) (or_fail-eq-ok _ _ eo)
        (ap (λ x. x.orders) kept))
