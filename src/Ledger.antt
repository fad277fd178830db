-- ===== src/Ledger.antt =====
-- src/modules/inventory/stock-ledger.service.ts: every change of a stock balance, with its entry in
-- the movement ledger. The methods take the transaction's database and return it changed; an error
-- returns no database, since the transaction that called the method is rolled back.
mod Keys
pub mod Normalize
pub mod Balances
pub mod Posting
pub mod Write
pub mod Deduct
pub mod Add
pub mod Count
pub mod Effect
pub mod Supply
pub mod Rest
unfoldable pub use Keys.{item_key, decimal}
pub use Normalize.{StockChangeItem}
unfoldable pub use Normalize.{normalize_items}
use Prim.Native.String.{String}
use text.Mathlib.Text.{◌==◌ as str_eq}
use stock_pilot_be.Prelude.{
  ℕ, suc, ◌+◌, ◌&&◌, Bool, true, false, not, Option, none, some, List, [], ◌∷◌, ◌++◌, ◌==◌, ltb,
  length, if◌then◌else◌,
}
use stock_pilot_be.Prelude.Int.{ℤ, pos, ◌+ℤ◌, ◌-ℤ◌, leb_ℤ, eqb_ℤ}
use stock_pilot_be.Prelude.Rows.{find_first, update_first, holds}
use stock_pilot_be.Prelude.Result.{
  Result, ok, err, ◌>>=◌, ◌>>◌, ensure, or_fail, not_found, insufficient_stock, internal,
  unique_violation,
}
use stock_pilot_be.Schema.{
  Database, StockItem, InventoryBalance, StockMovement, MovementType, audit_adjustment,
}
use Balances.{at, quantity_at, upsert}

pub record StockChangeContext : Type 0 where
  pub store_id : ℕ
  pub warehouse_id : ℕ
  pub user_id : Option ℕ
  pub reference_type : String
  pub reference_id : String
  pub idempotency_key : Option String

-- `where: { id, storeId, isActive: true }`
abbrev pub is_active_item : ℕ → ℕ → StockItem → Bool
is_active_item store item s = s.id == item && s.store_id == store && s.is_active

-- The unique index on `idempotencyKey`: a row without a key never clashes.
abbrev pub has_key : Option String → StockMovement → Bool
has_key none m = false
has_key (some k) m = holds (λ j. str_eq j k) m.idempotency_key

-- `tx.stockMovement.create`
unfoldable pub create_movement :
    StockChangeContext
    → MovementType
    → Option String
    → ℕ
    → ℤ
    → ℤ
    → ℤ
    → Database
    → Result (StockMovement × Database)
create_movement ctx type key item delta before after db =
    elim (find_first (has_key key) db.movements) [
      | some _ ↦ err unique_violation
      | none ↦
          ok (movement, record db { next_id = suc db.next_id; movements = movement ∷ db.movements })
    ]
  where
    movement : StockMovement
    movement = record {
      id = db.next_id;
      store_id = ctx.store_id;
      warehouse_id = ctx.warehouse_id;
      stock_item_id = item;
      type = type;
      delta = delta;
      before_quantity = before;
      after_quantity = after;
      reference_type = ctx.reference_type;
      reference_id = ctx.reference_id;
      idempotency_key = key;
      created_by_id = ctx.user_id;
    }

-- The key of one item's movement: the context's, made distinct where there are several items.
abbrev pub movement_key : Option String → ℕ → ℕ → Option String
movement_key none lines item = none
movement_key (some k) lines item = some (if ltb 1 lines then item_key k item else k)

-- `updateMany` with `quantity: { gte }` and a decrement: `none` if no row fits.
unfoldable pub decrement_balance :
    ℕ → ℕ → ℤ → List InventoryBalance → Option (List InventoryBalance)
decrement_balance warehouse item q rows =
    if holds (λ b. leb_ℤ q b.quantity) (find_first (at warehouse item) rows)
    then some (update_first (at warehouse item) (λ b. record b { quantity = b.quantity -ℤ q }) rows)
    else none

-- The body of the loop of `atomicDeduct`, for an item that asks for more than nothing.
unfoldable pub deduct_positive :
    StockChangeContext
    → MovementType
    → ℕ
    → StockChangeItem
    → Database
    → Result (List StockMovement × Database)
unfolding decrement_balance
deduct_positive ctx type lines item db = do
  or_fail (find_first (is_active_item ctx.store_id item.stock_item_id) db.stock_items) not_found
  rows ←
      or_fail (decrement_balance ctx.warehouse_id item.stock_item_id item.quantity db.balances)
        insufficient_stock
  updated ← or_fail (find_first (at ctx.warehouse_id item.stock_item_id) rows) internal
  (movement, db') ←
      create_movement ctx type (movement_key ctx.idempotency_key lines item.stock_item_id)
        item.stock_item_id (pos 0 -ℤ item.quantity) (updated.quantity +ℤ item.quantity)
        updated.quantity (record db { balances = rows })
  ok (movement ∷ [], db')

-- One round of the loop: an item that asks for nothing is passed over.
unfoldable pub deduct_item :
    StockChangeContext
    → MovementType
    → ℕ
    → StockChangeItem
    → Database
    → Result (List StockMovement × Database)
unfolding deduct_positive
deduct_item ctx type lines item db =
    if leb_ℤ item.quantity (pos 0) then ok ([], db) else deduct_positive ctx type lines item db

unfoldable deduct_items :
    StockChangeContext
    → MovementType
    → ℕ
    → List StockChangeItem
    → Database
    → Result (List StockMovement × Database)
deduct_items ctx type lines [] db = ok ([], db)
deduct_items ctx type lines (x ∷ xs) db = do
  (ms, db') ← deduct_item ctx type lines x db
  (rest, db'') ← deduct_items ctx type lines xs db'
  ok (ms ++ rest, db'')

unfoldable pub atomic_deduct :
    StockChangeContext
    → MovementType
    → List StockChangeItem
    → Database
    → Result (List StockMovement × Database)
unfolding deduct_items normalize_items
atomic_deduct ctx type items db =
    let normalized = normalize_items items in
    deduct_items ctx type (length normalized) normalized db

-- `upsert` with `create: { quantity }` and `update: { quantity: { increment } }`.
unfoldable pub increment_balance :
    StockChangeContext → ℕ → ℤ → List InventoryBalance → List InventoryBalance
increment_balance ctx item q rows =
    upsert ctx.warehouse_id item
      (record {
        store_id = ctx.store_id;
        warehouse_id = ctx.warehouse_id;
        stock_item_id = item;
        quantity = q;
        reserved_quantity = pos 0;
      })
      (λ b. record b { quantity = b.quantity +ℤ q }) rows

-- The body of the loop of `atomicAdd`, for an item that asks for more than nothing.
unfoldable pub add_positive :
    StockChangeContext
    → MovementType
    → ℕ
    → StockChangeItem
    → Database
    → Result (List StockMovement × Database)
unfolding increment_balance
add_positive ctx type lines item db = do
  or_fail (find_first (is_active_item ctx.store_id item.stock_item_id) db.stock_items) not_found
  let rows = increment_balance ctx item.stock_item_id item.quantity db.balances
  balance ← or_fail (find_first (at ctx.warehouse_id item.stock_item_id) rows) internal
  (movement, db') ←
      create_movement ctx type (movement_key ctx.idempotency_key lines item.stock_item_id)
        item.stock_item_id item.quantity (balance.quantity -ℤ item.quantity) balance.quantity
        (record db { balances = rows })
  ok (movement ∷ [], db')

unfoldable pub add_item :
    StockChangeContext
    → MovementType
    → ℕ
    → StockChangeItem
    → Database
    → Result (List StockMovement × Database)
unfolding add_positive
add_item ctx type lines item db =
    if leb_ℤ item.quantity (pos 0) then ok ([], db) else add_positive ctx type lines item db

unfoldable add_items :
    StockChangeContext
    → MovementType
    → ℕ
    → List StockChangeItem
    → Database
    → Result (List StockMovement × Database)
add_items ctx type lines [] db = ok ([], db)
add_items ctx type lines (x ∷ xs) db = do
  (ms, db') ← add_item ctx type lines x db
  (rest, db'') ← add_items ctx type lines xs db'
  ok (ms ++ rest, db'')

unfoldable pub atomic_add :
    StockChangeContext
    → MovementType
    → List StockChangeItem
    → Database
    → Result (List StockMovement × Database)
unfolding add_items normalize_items
atomic_add ctx type items db =
    let normalized = normalize_items items in add_items ctx type (length normalized) normalized db

-- The empty row that a count makes sure of before it locks it.
unfoldable pub ensure_balance : ℕ → ℕ → ℕ → List InventoryBalance → List InventoryBalance
ensure_balance store warehouse item rows =
    upsert warehouse item
      (record {
        store_id = store;
        warehouse_id = warehouse;
        stock_item_id = item;
        quantity = pos 0;
        reserved_quantity = pos 0;
      })
      (λ b. b) rows

unfoldable pub set_balance : ℕ → ℕ → ℤ → List InventoryBalance → List InventoryBalance
set_balance warehouse item q rows =
    update_first (at warehouse item) (λ b. record b { quantity = q }) rows

unfoldable pub replace_with_count :
    StockChangeContext → ℕ → ℤ → MovementType → Database → Result (Option StockMovement × Database)
unfolding ensure_balance set_balance
replace_with_count ctx item counted type db = do
  or_fail (find_first (is_active_item ctx.store_id item) db.stock_items) not_found
  let rows = ensure_balance ctx.store_id ctx.warehouse_id item db.balances
  let before = quantity_at ctx.warehouse_id item rows
  let delta = counted -ℤ before
  let db' = record db { balances = set_balance ctx.warehouse_id item counted rows }
  if eqb_ℤ delta (pos 0) then ok (none, db') else do
    (movement, db'') ← create_movement ctx type ctx.idempotency_key item delta before counted db'
    ok (some movement, db'')
