-- ===== src/StockTakes.antt =====
-- src/modules/stock-takes/stock-take.service.ts: a stock take from its draft to its end. Each method
-- is one transaction: an error leaves the database as it was. An empty idempotency key counts as none.
pub mod Status
pub mod Lifecycle
pub mod Counts
pub mod Complete
pub mod Guards
use Prim.Native.String.{String, ◌++◌ as str_append}
use stock_pilot_be.Prelude.{
  ℕ, suc, ◌&&◌, Bool, not, Option, none, some, List, [], ◌∷◌, ◌++◌, ◌==◌, if◌then◌else◌, filter_by,
}
use stock_pilot_be.Prelude.Int.{ℤ, pos, ◌-ℤ◌, ltb_ℤ, eqb_ℤ}
use stock_pilot_be.Prelude.Rows.{find_first, update_first, holds}
use stock_pilot_be.Prelude.Sort.{sort_by}
use stock_pilot_be.Prelude.Result.{
  Result, ok, err, ◌>>=◌, ◌>>◌, ensure, or_fail, not_found, conflict,
}
use stock_pilot_be.Schema.{
  Database, Warehouse, InventoryBalance, StockTake, StockTakeItem, StockTakeStatus, StockMovement,
  audit_adjustment,
}
use stock_pilot_be.Ledger.{
  StockChangeContext, create_movement, ensure_balance, set_balance, decimal, item_key,
}
use stock_pilot_be.Ledger.Balances.{at, quantity_at}
use stock_pilot_be.Audit.{audit}
use stock_pilot_be.Inventory.{is_active_warehouse, count_key}
use Status.{is_draft, is_in_progress, is_open}

-- `where: { id, storeId }`
abbrev pub is_take : ℕ → ℕ → StockTake → Bool
is_take store id t = t.id == id && t.store_id == store

-- `where: { storeId, stockTakeId }`, and with a stock item the unique key of a line.
abbrev pub is_item_of : ℕ → ℕ → StockTakeItem → Bool
is_item_of store take i = i.store_id == store && i.stock_take_id == take

abbrev pub is_take_item : ℕ → ℕ → ℕ → StockTakeItem → Bool
is_take_item store take item i = is_item_of store take i && i.stock_item_id == item

-- The lookup, the check of the status, and `updateMany` guarded by the status.
unfoldable pub transition :
    ℕ
    → ℕ
    → (StockTakeStatus → Bool)
    → (StockTake → StockTake)
    → Database
    → Result (StockTake × Database)
transition store id guard write db = do
  t ← or_fail (find_first (is_take store id) db.stock_takes) not_found
  ensure (guard t.status) conflict
  ensure (holds (λ x. guard x.status) (find_first (is_take store id) db.stock_takes)) conflict
  ok (t, record db { stock_takes = update_first (is_take store id) write db.stock_takes })

unfoldable pub create_stock_take : ℕ → ℕ → ℕ → Database → Result (StockTake × Database)
create_stock_take store user warehouse db = do
  or_fail (find_first (is_active_warehouse store warehouse) db.warehouses) not_found
  let stored = draft_take
  ok (stored, record db { next_id = suc db.next_id; stock_takes = stored ∷ db.stock_takes })
  where
    draft_take : StockTake
    draft_take = record {
      id = db.next_id;
      store_id = store;
      warehouse_id = warehouse;
      status = StockTakeStatus.draft;
      started_at = none;
      completed_at = none;
      created_by_id = user;
    }

-- The line of a balance: until it is counted, its count is what is expected.
abbrev pub expected_item : ℕ → ℕ → InventoryBalance → StockTakeItem
expected_item store take b = record {
  store_id = store;
  stock_take_id = take;
  stock_item_id = b.stock_item_id;
  expected_quantity = b.quantity;
  counted_quantity = b.quantity;
  variance_quantity = pos 0;
  adjustment_movement_id = none;
}

-- `createMany` with `skipDuplicates`, by the unique key.
unfoldable pub add_expected :
    ℕ → ℕ → List InventoryBalance → List StockTakeItem → List StockTakeItem
add_expected store take [] rows = rows
add_expected store take (b ∷ bs) rows =
    add_expected store take bs
      (elim (find_first (λ i. i.stock_take_id == take && i.stock_item_id == b.stock_item_id) rows) [
        | some _ ↦ rows
        | none ↦ expected_item store take b ∷ rows
      ])

unfoldable pub start : ℕ → ℕ → ℕ → Database → Result (StockTake × Database)
start now store id db = do
  (t, db1) ←
      transition store id is_draft
        (λ t. record t { status = StockTakeStatus.in_progress; started_at = some now }) db
  let balances =
      sort_by (λ b. b.stock_item_id)
        (filter_by (λ b. b.store_id == store && b.warehouse_id == t.warehouse_id) db1.balances)
  ok (t, record db1 { stock_take_items = add_expected store id balances db1.stock_take_items })

pub record CountedItem : Type 0 where
  pub stock_item_id : ℕ
  pub counted_quantity : ℤ

abbrev pub write_count : ℤ → StockTakeItem → StockTakeItem
write_count q i = record i { counted_quantity = q; variance_quantity = q -ℤ i.expected_quantity }

-- The loop of `updateCounts`: the line must be there, and its stock item in the store.
unfoldable pub write_counts : ℕ → ℕ → List CountedItem → Database → Result (List StockTakeItem)
write_counts store take [] db = ok db.stock_take_items
write_counts store take (x ∷ xs) db = do
  i ← or_fail (find_first (is_take_item store take x.stock_item_id) db.stock_take_items) not_found
  or_fail (find_first (λ s. s.id == x.stock_item_id && s.store_id == store) db.stock_items)
      not_found
  write_counts store take xs (record db {
    stock_take_items =
        update_first (is_take_item store take x.stock_item_id) (write_count x.counted_quantity)
          db.stock_take_items;
  })

unfoldable pub update_counts : ℕ → ℕ → List CountedItem → Database → Result (StockTake × Database)
update_counts store id items db = do
  t ← or_fail (find_first (is_take store id) db.stock_takes) not_found
  ensure (is_in_progress t.status) conflict
  rows ← write_counts store id (sort_by (λ x. x.stock_item_id) items) db
  ok (t, record db { stock_take_items = rows })

-- `tx.stockTakeItem.update({ data: { adjustmentMovementId } })`
abbrev pub link : ℕ → ℕ → ℕ → Option ℕ → Database → Database
link store take item movement db = record db {
  stock_take_items =
      update_first (is_take_item store take item)
        (λ i. record i { adjustment_movement_id = movement }) db.stock_take_items;
}

-- `lockedBalance ? Number(lockedBalance.reservedQuantity) : 0`
abbrev pub reserved_of : Option InventoryBalance → ℤ
reserved_of none = pos 0
reserved_of (some b) = b.reserved_quantity

-- One round of the loop of `complete`.
unfoldable pub complete_item :
    StockChangeContext → ℕ → StockTakeItem → Database → Result (List StockMovement × Database)
complete_item ctx take item db = do
  let rows = ensure_balance ctx.store_id ctx.warehouse_id item.stock_item_id db.balances
  let before = quantity_at ctx.warehouse_id item.stock_item_id rows
  let reserved = reserved_of (find_first (at ctx.warehouse_id item.stock_item_id) rows)
  let delta = item.counted_quantity -ℤ before
  ensure (not (ltb_ℤ item.counted_quantity reserved)) conflict
  let db1 = record db {
    balances = set_balance ctx.warehouse_id item.stock_item_id item.counted_quantity rows;
  }
  if eqb_ℤ delta (pos 0) then ok ([], link ctx.store_id take item.stock_item_id none db1) else do
    (m, db2) ←
        create_movement ctx audit_adjustment (count_key ctx.idempotency_key item.stock_item_id)
          item.stock_item_id delta before item.counted_quantity db1
    ok (m ∷ [], link ctx.store_id take item.stock_item_id (some m.id) db2)

unfoldable pub complete_items :
    StockChangeContext → ℕ → List StockTakeItem → Database → Result (List StockMovement × Database)
complete_items ctx take [] db = ok ([], db)
complete_items ctx take (x ∷ xs) db = do
  (ms, db') ← complete_item ctx take x db
  (ns, db'') ← complete_items ctx take xs db'
  ok (ms ++ ns, db'')

-- `findMany({ where: { storeId, stockTakeId }, orderBy: { stockItemId: 'asc' } })`
abbrev pub items_to_count : ℕ → ℕ → Database → List StockTakeItem
items_to_count store take db =
    sort_by (λ i. i.stock_item_id) (filter_by (is_item_of store take) db.stock_take_items)

unfoldable pub complete :
    ℕ → ℕ → ℕ → ℕ → Option String → Database → Result ((StockTake × List StockMovement) × Database)
complete now store user id key db = do
  (t, db1) ←
      transition store id is_in_progress
        (λ t. record t { status = StockTakeStatus.completed; completed_at = some now }) db
  (ms, db2) ←
      complete_items
        (record {
          store_id = store;
          warehouse_id = t.warehouse_id;
          user_id = some user;
          reference_type = "STOCK_TAKE";
          reference_id = str_append "STOCK_TAKE-" (decimal id);
          idempotency_key = key;
        })
        id (items_to_count store id db1) db1
  ok ((t, ms), audit (some store) (some user) "STOCK_TAKE_COMPLETED" "STOCK_TAKE" (decimal id) db2)

unfoldable pub cancel : ℕ → ℕ → ℕ → Database → Result (StockTake × Database)
cancel store user id db = do
  (t, db1) ← transition store id is_open (λ t. record t { status = StockTakeStatus.canceled }) db
  ok (t, audit (some store) (some user) "STOCK_TAKE_CANCELED" "STOCK_TAKE" (decimal id) db1)
