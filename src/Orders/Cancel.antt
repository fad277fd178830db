-- ===== src/Orders/Cancel.antt =====
-- `confirmOrder` and `cancelOrder` of order.service.ts, one after the other.
use stock_pilot_be.Prelude.{
  ℕ, ◌≡◌, refl, Bool, true, false, Option, some, List, [], ◌∷◌, arith, ◌==◌, if◌then◌else◌,
  Bool-cases, found_once, inl, inr, ap, ◌∙◌, sym, All,
}
use stock_pilot_be.Prelude.Int.{ℤ, pos, ◌+ℤ◌, ◌-ℤ◌, ◌<ℤ◌, ltb_ℤ, ltb_ℤ-lt, int_laws, +ℤ_zero}
use stock_pilot_be.Prelude.Rows.{find_first, update_first, find_first_fits}
use stock_pilot_be.Prelude.Result.{
  ◌>>=◌, or_fail-eq-ok, Ensures, Ensures-bind, Ensures-call, Ensures-map, Ensures-both, returns,
  returned,
}
use stock_pilot_be.Schema.{Database, Order, OrderItem, OrderStatus, Role, Warehouse}
use stock_pilot_be.Audit.{audit}
use stock_pilot_be.Ledger.{StockChangeItem}
use stock_pilot_be.Ledger.Normalize.{requested, IsPositive}
use stock_pilot_be.Ledger.Posting.{on_hand, IsStocked}
use stock_pilot_be.Ledger.Effect.{atomic_add-on_hand}
use stock_pilot_be.Ledger.Rest.{atomic_deduct-rest}
use stock_pilot_be.Orders.{
  is_order, is_default_warehouse, confirm_order, cancel_order, restock, restock_into, restock_lines,
  deduct_lines, items_of,
}
use stock_pilot_be.Orders.Status.{is_draft, holds_stock}
use stock_pilot_be.Orders.Lifecycle.{
  advance_order-Advanced, order_status, status_of, confirm_order-Moved,
}
use stock_pilot_be.Orders.Stock.{
  IsSound, Keeps-IsSound, orders-Keeps, confirm_order-on_hand, confirm_order-IsSound,
}

-- The lines of an order that nothing has come back from.
abbrev pub IsUnreturned : List OrderItem → Type 0
IsUnreturned = All (λ i. (pos 0 <ℤ i.quantity) × (i.returned_quantity ≡ pos 0))

unreturned-IsPositive : (is : List OrderItem) → IsUnreturned is → IsPositive (deduct_lines is)
unreturned-IsPositive [] h = tt
unreturned-IsPositive (i ∷ is) h = (h.0.0, unreturned-IsPositive is h.1)

restock_lines-IsPositive : (is : List OrderItem) → IsPositive (restock_lines is)
restock_lines-IsPositive [] = tt
restock_lines-IsPositive (i ∷ is) =
    elim (Bool-cases (ltb_ℤ (pos 0) (i.quantity -ℤ i.returned_quantity))) [
      | inl more ↦
          rw more
            (ltb_ℤ-lt (pos 0) (i.quantity -ℤ i.returned_quantity) more, restock_lines-IsPositive is)
      | inr none_left ↦ rw none_left (restock_lines-IsPositive is)
    ]

requested-restock :
    (j : ℕ) (is : List OrderItem)
    → IsUnreturned is
    → requested j (restock_lines is) ≡ requested j (deduct_lines is)
requested-restock j [] h = refl
requested-restock j (i ∷ is) h =
    let whole : i.quantity -ℤ i.returned_quantity ≡ i.quantity = rw h.0.1 (omega int_laws) in
    let kept_ : ltb_ℤ (pos 0) i.quantity ≡ true = ground (arith, h.0.0) in
    rw (whole, kept_) (rw (requested-restock j is h.1))

module _ (store user : ℕ) (order : Order) (w : Warehouse) (db : Database) where
  restock-on_hand :
      holds_stock order.status ≡ true
      → IsStocked db
      → Ensures
          (λ r.
            (u j : ℕ)
            → on_hand u j r.1
              ≡ on_hand u j db
                +ℤ (if w.id == u
                    then requested j (restock_lines (items_of order.id db))
                    else pos 0))
          (restock store user (some w) order db)
  unfolding restock ◌>>=◌
  restock-on_hand held stocked = rw held (
      into (restock_lines (items_of order.id db)) (restock_lines-IsPositive (items_of order.id db)))
    where
      into :
          (xs : List StockChangeItem)
          → IsPositive xs
          → Ensures
              (λ r.
                (u j : ℕ)
                → on_hand u j r.1 ≡ on_hand u j db +ℤ (if w.id == u then requested j xs else pos 0))
              (restock_into store user w order xs db)
      into [] p = returns λ u j. ground (arith, +ℤ_zero (on_hand u j db))
      into (x ∷ xs) p = atomic_add-on_hand _ _ (x ∷ xs) db p stocked

confirm_order-rest :
    (now store user id : ℕ) (db : Database)
    → Ensures
        (λ r. (items_of id r.1 ≡ items_of id db) × (r.1.warehouses ≡ db.warehouses))
        (confirm_order now store user id db)
unfolding confirm_order audit
confirm_order-rest now store user id db = Ensures-bind λ v ev.
    Ensures-call (advance_order-Advanced store id is_draft _ db) λ a adv.
      Ensures-call (atomic_deduct-rest _ _ _ a.1) λ d same. returns (
        ap (items_of id) same ∙ ap (items_of id) adv.state,
        ap (λ x. x.warehouses) same ∙ ap (λ x. x.warehouses) adv.state,
      )

restock-at :
    (store user : ℕ) (order : Order) (w : Warehouse) (db : Database) {found : Option Warehouse}
    → found ≡ some w
    → holds_stock order.status ≡ true
    → IsStocked db
    → Ensures
        (λ r.
          (u j : ℕ)
          → on_hand u j r.1
            ≡ on_hand u j db
              +ℤ (if w.id == u then requested j (restock_lines (items_of order.id db)) else pos 0))
        (restock store user found order db)
restock-at store user order w db e held stocked =
    rw e (restock-on_hand store user order w db held stocked)

-- What a confirmation leaves alone, and the status that it leaves.
record IsConfirmed (store id : ℕ) (db db' : Database) : Type 0 where
  items : items_of id db' ≡ items_of id db
  warehouses : db'.warehouses ≡ db.warehouses
  status : order_status store id db' ≡ some OrderStatus.confirmed

confirm_order-IsConfirmed :
    (now store user id : ℕ) (db : Database)
    → Ensures (λ r. IsConfirmed store id db r.1) (confirm_order now store user id db)
confirm_order-IsConfirmed now store user id db =
    Ensures-map
      (Ensures-both (confirm_order-Moved now store user id db)
        (confirm_order-rest now store user id db))
      λ r both. record { items = both.1.0; warehouses = both.1.1; status = both.0.now_is }

-- Where the stock is sound, the store has a default warehouse, and an order has lines of positive
-- quantity of which nothing was returned: if its confirmation succeeds and then its cancellation
-- does, every item of every warehouse has the quantity on hand that it had before.
pub cancel-confirm :
    (now later store user other id : ℕ) (role : Role) (db : Database) (w : Warehouse)
    → IsSound db
    → find_first (is_default_warehouse store) db.warehouses ≡ some w
    → IsUnreturned (items_of id db)
    → Ensures
        (λ r.
          Ensures
            (λ s. (u j : ℕ) → on_hand u j s.1 ≡ on_hand u j db)
            (cancel_order later store other id role r.1))
        (confirm_order now store user id db)
unfolding cancel_order audit
cancel-confirm now later store user other id role db w sound ew fresh =
    Ensures-map
      (Ensures-both
        (confirm_order-on_hand now store user id db w ew (unreturned-IsPositive _ fresh))
        (Ensures-both (confirm_order-IsSound now store user id db sound)
          (confirm_order-IsConfirmed now store user id db)))
      λ r both. Ensures-bind λ o eo. Ensures-bind λ handled eh. Ensures-bind λ open_ ek.
        let found = or_fail-eq-ok _ _ eo in
        let write : Order → Order =
          λ x. record x { status = OrderStatus.canceled; canceled_at = some later } in
        let moved = moved_orders r.1 (update_first (is_order store id) write r.1.orders) both.1.0 in
        Ensures-call
          (restock-at store other o w _ (rw both.1.1.warehouses ew)
            (was_confirmed o (sym (ap status_of found) ∙ both.1.1.status)) moved.stocked)
          λ d given.
            returned (λ s. (u j : ℕ) → on_hand u j s.1 ≡ on_hand u j db) _
              λ u j.
                given u j
                ∙ back u j (both.0 u j) (
                    ap (λ n. items_of n r.1)
                      (order_id o (find_first_fits (is_order store id) r.1.orders o found))
                    ∙ both.1.1.items)
  where
    moved_orders :
        (b : Database) (orders : List Order) → IsSound b → IsSound (record b { orders = orders })
    moved_orders b orders sound = Keeps-IsSound (orders-Keeps b _ orders refl) sound

    was_confirmed :
        (o : Order) → some o.status ≡ some OrderStatus.confirmed → holds_stock o.status ≡ true
    was_confirmed o e = ap holds_stock (found_once refl e)

    order_id : (o : Order) → is_order store id o ≡ true → o.id ≡ id
    order_id o e = ground arith

    back :
        (u j : ℕ) {h : ℤ} {is : List OrderItem}
        → h
          ≡ on_hand u j db
            +ℤ (if w.id == u then pos 0 -ℤ requested j (deduct_lines (items_of id db)) else pos 0)
        → is ≡ items_of id db
        → h +ℤ (if w.id == u then requested j (restock_lines is) else pos 0) ≡ on_hand u j db
    back u j taken same =
        rw (taken, same, requested-restock j (items_of id db) fresh)
          (undone (w.id == u) (on_hand u j db) (requested j (deduct_lines (items_of id db))))
      where
        undone :
            (b : Bool) (h q : ℤ)
            → h +ℤ (if b then pos 0 -ℤ q else pos 0) +ℤ (if b then q else pos 0) ≡ h
        undone true h q = omega int_laws
        undone false h q = omega int_laws
