-- ===== src/Inventory.antt =====
-- src/modules/inventory/inventory.service.ts: goods that come in, goods that go out, and a count of
-- the shelves. Each method is one transaction: an error leaves the database as it was. An empty
-- idempotency key counts as none.
pub mod Count
pub mod Effect
use Prim.Native.String.{String}
use text.Mathlib.Text.{◌==◌ as str_eq}
use stock_pilot_be.Prelude.{
  ℕ, zero, suc, ◌&&◌, Bool, Option, none, some, List, [], ◌∷◌, ◌==◌, if◌then◌else◌,
}
use stock_pilot_be.Prelude.Int.{ℤ, ◌-ℤ◌}
use stock_pilot_be.Prelude.Rows.{find_first}
use stock_pilot_be.Prelude.Sort.{sort_by}
use stock_pilot_be.Prelude.Result.{Result, ok, err, ◌>>=◌, ◌>>◌, or_fail, not_found}
use stock_pilot_be.Schema.{Database, Warehouse, StockMovement, MovementType, audit_adjustment}
use stock_pilot_be.Ledger.{
  StockChangeContext, StockChangeItem, atomic_add, atomic_deduct, create_movement, is_active_item,
  ensure_balance, set_balance, item_key,
}
use stock_pilot_be.Ledger.Balances.{quantity_at}
use stock_pilot_be.Audit.{audit}
use stock_pilot_be.Orders.{is_default_warehouse}

abbrev pub is_active_warehouse : ℕ → ℕ → Warehouse → Bool
is_active_warehouse store id w = w.id == id && w.store_id == store && w.is_active

-- `if (warehouseId)`: an id of 0 asks for the default warehouse, as no id does.
unfoldable pub target_warehouse : ℕ → Option ℕ → Database → Result Warehouse
target_warehouse store none db =
    or_fail (find_first (is_default_warehouse store) db.warehouses) not_found
target_warehouse store (some zero) db =
    or_fail (find_first (is_default_warehouse store) db.warehouses) not_found
target_warehouse store (some (suc n)) db =
    or_fail (find_first (is_active_warehouse store (suc n)) db.warehouses) not_found

-- `input.referenceId || generated`
abbrev pub reference_or : String → Option String → String
reference_or generated none = generated
reference_or generated (some r) = if str_eq r "" then generated else r

abbrev pub stock_context : ℕ → ℕ → Warehouse → String → String → Option String → StockChangeContext
stock_context store user w type reference key = record {
  store_id = store;
  warehouse_id = w.id;
  user_id = some user;
  reference_type = type;
  reference_id = reference;
  idempotency_key = key;
}

unfoldable pub inflow :
    ℕ
    → ℕ
    → Option ℕ
    → String
    → Option String
    → Option String
    → List StockChangeItem
    → Database
    → Result ((Warehouse × List StockMovement) × Database)
unfolding target_warehouse
inflow store user warehouse generated reference key items db = do
  w ← target_warehouse store warehouse db
  let ref_id = reference_or generated reference
  (ms, db') ←
      atomic_add (stock_context store user w "GOODS_RECEIPT" ref_id key) MovementType.inflow items
        db
  ok ((w, ms), audit (some store) (some user) "INVENTORY_INFLOW" "INVENTORY" ref_id db')

unfoldable pub outflow :
    ℕ
    → ℕ
    → Option ℕ
    → String
    → Option String
    → Option String
    → List StockChangeItem
    → Database
    → Result ((Warehouse × List StockMovement) × Database)
unfolding target_warehouse
outflow store user warehouse generated reference key items db = do
  w ← target_warehouse store warehouse db
  let ref_id = reference_or generated reference
  (ms, db') ←
      atomic_deduct (stock_context store user w "MANUAL_OUTFLOW" ref_id key) MovementType.outflow
        items db
  ok ((w, ms), audit (some store) (some user) "INVENTORY_OUTFLOW" "INVENTORY" ref_id db')

pub record CountItem : Type 0 where
  pub stock_item_id : ℕ
  pub counted_quantity : ℤ

-- `idempotencyKey ? `${idempotencyKey}:${stockItem.id}` : undefined`
abbrev pub count_key : Option String → ℕ → Option String
count_key none item = none
count_key (some k) item = some (item_key k item)

-- One round of the loop of `audit`. A count that changes nothing is recorded too.
unfoldable pub audit_item :
    StockChangeContext → CountItem → Database → Result (StockMovement × Database)
audit_item ctx item db = do
  s ← or_fail (find_first (is_active_item ctx.store_id item.stock_item_id) db.stock_items) not_found
  let rows = ensure_balance ctx.store_id ctx.warehouse_id s.id db.balances
  let before = quantity_at ctx.warehouse_id s.id rows
  create_movement ctx audit_adjustment (count_key ctx.idempotency_key s.id) s.id
      (item.counted_quantity -ℤ before) before item.counted_quantity
      (record db { balances = set_balance ctx.warehouse_id s.id item.counted_quantity rows })

unfoldable pub audit_items :
    StockChangeContext → List CountItem → Database → Result (List StockMovement × Database)
audit_items ctx [] db = ok ([], db)
audit_items ctx (x ∷ xs) db = do
  (m, db') ← audit_item ctx x db
  (ms, db'') ← audit_items ctx xs db'
  ok (m ∷ ms, db'')

-- `InventoryService.audit`
unfoldable pub audit_stock :
    ℕ
    → ℕ
    → Option ℕ
    → String
    → Option String
    → Option String
    → List CountItem
    → Database
    → Result ((Warehouse × List StockMovement) × Database)
unfolding target_warehouse
audit_stock store user warehouse generated reference key items db = do
  w ← target_warehouse store warehouse db
  let ref_id = reference_or generated reference
  (ms, db') ←
      audit_items (stock_context store user w "STOCK_AUDIT" ref_id key)
        (sort_by (λ x. x.stock_item_id) items) db
  ok ((w, ms), audit (some store) (some user) "INVENTORY_AUDIT" "INVENTORY" ref_id db')
