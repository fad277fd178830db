-- ===== src/Orders/Stock.antt =====
-- What the methods of order.service.ts do to the stock.
use stock_pilot_be.Prelude.{
  ℕ, ◌≡◌, refl, Option, some, List, [], ◌∷◌, ◌==◌, if◌then◌else◌, Bool-cases, found_once, inl, inr,
  ap, ◌∙◌,
}
use stock_pilot_be.Prelude.Int.{ℤ, pos, ◌+ℤ◌, ◌-ℤ◌}
use stock_pilot_be.Prelude.Rows.{find_first}
use stock_pilot_be.Prelude.Result.{or_fail-eq-ok, Ensures, Ensures-bind, Ensures-call, returns}
use stock_pilot_be.Schema.{Database, Order, OrderItem, Role, Warehouse, StockMovement}
use stock_pilot_be.Audit.{audit, audit-Keeps}
use stock_pilot_be.Ledger.{StockChangeItem}
use stock_pilot_be.Ledger.Normalize.{requested, IsPositive}
use stock_pilot_be.Ledger.Posting.{
  Journal, Keeps, kept, Keeps-refl, Keeps-trans, on_hand, IsStocked, IsExplained, Journal-IsStocked,
  Journal-IsExplained,
}
use stock_pilot_be.Ledger.Deduct.{atomic_deduct-Journal}
use stock_pilot_be.Ledger.Add.{atomic_add-Journal}
use stock_pilot_be.Ledger.Effect.{atomic_deduct-on_hand}
use stock_pilot_be.Orders.{
  is_default_warehouse, confirm_order, fulfill_order, cancel_order, restock, restock_into,
  restock_lines, deduct_lines, items_of,
}
use stock_pilot_be.Orders.Status.{is_draft, is_confirmed, holds_stock}
use stock_pilot_be.Orders.Lifecycle.{advance_order-Advanced}

-- The two invariants of the stock: no negative quantity, and a ledger that explains every quantity.
pub record IsSound (db : Database) : Type 0 where
  pub stocked : IsStocked db
  pub explained : IsExplained db

pub Journal-IsSound :
    {ms : List StockMovement} {a b : Database} → Journal ms a b → IsSound a → IsSound b
Journal-IsSound j s = record {
  stocked = Journal-IsStocked j s.stocked;
  explained = Journal-IsExplained j s.explained;
}

-- A change of other tables keeps the stock.
pub orders-Keeps :
    (db db' : Database) (orders : List Order) → db' ≡ record db { orders = orders } → Keeps db db'
orders-Keeps db db' orders e = record {
  movements = ap (λ d. d.movements) e;
  balances = λ u j. ap (λ d. on_hand u j d) e;
}

pub Keeps-IsSound : {a b : Database} → Keeps a b → IsSound a → IsSound b
Keeps-IsSound k s = Journal-IsSound (kept k) s

same_warehouse :
    (store : ℕ) (db : Database) (v w : Warehouse)
    → find_first (is_default_warehouse store) db.warehouses ≡ some v
    → find_first (is_default_warehouse store) db.warehouses ≡ some w
    → v.id ≡ w.id
same_warehouse store db v w e f = ap (λ x. x.id) (found_once e f)

-- Where the store has a default warehouse and the order's lines have positive quantities, a
-- confirmation that succeeds has taken the lines from that warehouse, and every other quantity is
-- what it was.
pub confirm_order-on_hand :
    (now store user id : ℕ) (db : Database) (w : Warehouse)
    → find_first (is_default_warehouse store) db.warehouses ≡ some w
    → IsPositive (deduct_lines (items_of id db))
    → Ensures
        (λ r.
          (u j : ℕ)
          → on_hand u j r.1
            ≡ on_hand u j db
              +ℤ (if w.id == u
                  then pos 0 -ℤ requested j (deduct_lines (items_of id db))
                  else pos 0))
        (confirm_order now store user id db)
unfolding confirm_order audit
confirm_order-on_hand now store user id db w ew positive = Ensures-bind λ v ev.
    Ensures-call (advance_order-Advanced store id is_draft _ db) λ a adv.
      let same : items_of id a.1 ≡ items_of id db = ap (items_of id) adv.state in
      let place : v.id ≡ w.id = same_warehouse store db v w (or_fail-eq-ok _ _ ev) ew in
      Ensures-call
        (atomic_deduct-on_hand _ _ (deduct_lines (items_of id a.1)) a.1 (rw same positive))
        λ d moved. returns λ u j.
          moved u j
          ∙ regroup u j (on_hand u j a.1) (on_hand u j db) v.id w.id (items_of id a.1)
              (items_of id db) ((orders-Keeps db a.1 _ adv.state).balances u j) place same
  where
    regroup :
        (u j : ℕ) (h h' : ℤ) (n n' : ℕ) (is is' : List OrderItem)
        → h ≡ h'
        → n ≡ n'
        → is ≡ is'
        → h +ℤ (if n == u then pos 0 -ℤ requested j (deduct_lines is) else pos 0)
          ≡ h' +ℤ (if n' == u then pos 0 -ℤ requested j (deduct_lines is') else pos 0)
    regroup u j h h' n n' is is' eh en es = rw (eh, en, es)

-- A confirmation that succeeds keeps the stock sound: no quantity is negative and the ledger
-- explains every quantity.
pub confirm_order-IsSound :
    (now store user id : ℕ) (db : Database)
    → IsSound db
    → Ensures (λ r. IsSound r.1) (confirm_order now store user id db)
unfolding confirm_order
confirm_order-IsSound now store user id db sound = Ensures-bind λ v ev.
    Ensures-call (advance_order-Advanced store id is_draft _ db) λ a adv.
      Ensures-call (atomic_deduct-Journal _ _ _ a.1) λ d journal. returns (
        Keeps-IsSound (audit-Keeps _ _ _ _ _ d.1)
          (Journal-IsSound journal (Keeps-IsSound (orders-Keeps db a.1 _ adv.state) sound)))

pub fulfill_order-Keeps :
    (now store id : ℕ) (user : Option ℕ) (db : Database)
    → Ensures (λ r. Keeps db r.1) (fulfill_order now store id user db)
unfolding fulfill_order
fulfill_order-Keeps now store id user db =
    Ensures-call (advance_order-Advanced store id is_confirmed _ db)
      λ a adv. returns (Keeps-trans (orders-Keeps db a.1 _ adv.state) (audit-Keeps _ _ _ _ _ a.1))

module _ (store user : ℕ) (warehouse : Option Warehouse) (order : Order) where
  restock-Journal :
      (db : Database)
      → IsStocked db
      → Ensures (λ r. Journal r.0 db r.1) (restock store user warehouse order db)
  unfolding restock
  restock-Journal db stocked = elim (Bool-cases (holds_stock order.status)) [
    | inr none_held ↦ rw none_held (returns (kept (Keeps-refl db)))
    | inl held ↦ rw held (Ensures-bind λ w ew. into w (restock_lines (items_of order.id db)))
  ]
    where
      into :
          (w : Warehouse) (xs : List StockChangeItem)
          → Ensures (λ r. Journal r.0 db r.1) (restock_into store user w order xs db)
      into w [] = returns (kept (Keeps-refl db))
      into w (x ∷ xs) = atomic_add-Journal _ _ (x ∷ xs) db stocked

-- A cancellation that succeeds keeps the stock sound: no quantity is negative and the ledger
-- explains every quantity.
pub cancel_order-IsSound :
    (now store user id : ℕ) (role : Role) (db : Database)
    → IsSound db
    → Ensures (λ r. IsSound r.1) (cancel_order now store user id role db)
unfolding cancel_order
cancel_order-IsSound now store user id role db sound = Ensures-bind λ o eo.
    Ensures-bind λ handled eh. Ensures-bind λ open_ ek.
      let moved = Keeps-IsSound (orders-Keeps db _ _ refl) sound in
      Ensures-call (restock-Journal store user _ o _ moved.stocked) λ d journal. returns (
        Keeps-IsSound (audit-Keeps _ _ _ _ _ _) (
          Keeps-IsSound (record { movements = refl; balances = λ u j. refl })
            (Journal-IsSound journal moved)))
