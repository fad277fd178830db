-- ===== src/StockTakes/Counts.antt =====
-- The lines of a stock take, from its start to its end: stock-take.service.ts.
use Prim.Native.String.{String}
use stock_pilot_be.Prelude.{
  ℕ, ◌≡◌, refl, ◌&&◌, Option, none, List, [], ◌∷◌, ◌==◌, Bool-cases, Option-cases, inl, inr, ap,
  All,
}
use stock_pilot_be.Prelude.Int.{ℤ, pos, ◌-ℤ◌, ◌≤ℤ◌, int_laws, eqb_ℤ}
use stock_pilot_be.Prelude.Rows.{All-filter_by, find_first, update_first, All-update_first}
use stock_pilot_be.Prelude.Sort.{All-sort_by}
use stock_pilot_be.Prelude.Result.{Ensures, Ensures-bind, Ensures-call, returns}
use stock_pilot_be.Schema.{Database, InventoryBalance, StockTakeItem, audit_adjustment}
use stock_pilot_be.Ledger.{StockChangeContext, ensure_balance}
use stock_pilot_be.Ledger.Balances.{quantity_at}
use stock_pilot_be.Ledger.Rest.{create_movement-rest}
use stock_pilot_be.Audit.{audit}
use stock_pilot_be.StockTakes.{
  CountedItem, add_expected, expected_item, start, write_counts, update_counts, is_take_item,
  complete_item, complete_items, complete,
}
use stock_pilot_be.StockTakes.Status.{is_draft, is_in_progress}
use stock_pilot_be.StockTakes.Complete.{transition-state}

-- The count is no less than zero, and the variance is what it differs by from what was expected.
pub record IsMeasured (i : StockTakeItem) : Type 0 where
  pub floor : pos 0 ≤ℤ i.counted_quantity
  pub variance : i.variance_quantity ≡ i.counted_quantity -ℤ i.expected_quantity

expected-IsMeasured :
    (store take : ℕ) (b : InventoryBalance)
    → pos 0 ≤ℤ b.quantity
    → IsMeasured (expected_item store take b)
expected-IsMeasured store take b h = record { floor = h; variance = nothing b.quantity }
  where
    nothing : (q : ℤ) → pos 0 ≡ q -ℤ q
    nothing q = omega int_laws

add_expected-IsMeasured :
    (store take : ℕ) (bs : List InventoryBalance) (rows : List StockTakeItem)
    → All (λ b. pos 0 ≤ℤ b.quantity) bs
    → All IsMeasured rows
    → All IsMeasured (add_expected store take bs rows)
unfolding add_expected
add_expected-IsMeasured store take [] rows h all = all
add_expected-IsMeasured store take (b ∷ bs) rows h all =
    elim (Option-cases
      (find_first (λ i. i.stock_take_id == take && i.stock_item_id == b.stock_item_id) rows)) [
        | inl fresh ↦
            rw (fresh, add_expected)
              (add_expected-IsMeasured store take bs (expected_item store take b ∷ rows) h.1
                (expected-IsMeasured store take b h.0, all))
        | inr (old, listed) ↦
            rw (listed, add_expected) (add_expected-IsMeasured store take bs rows h.1 all)
      ]

-- Where no balance row is negative, a start that succeeds keeps every line of every stock take
-- measured: its count is zero or more and its variance is the count less the expected quantity.
pub start-IsMeasured :
    (now store id : ℕ) (db : Database)
    → All (λ b. pos 0 ≤ℤ b.quantity) db.balances
    → All IsMeasured db.stock_take_items
    → Ensures (λ r. All IsMeasured r.1.stock_take_items) (start now store id db)
unfolding start
start-IsMeasured now store id db floor all =
    Ensures-call (transition-state store id is_draft _ db) λ r state. returns (
      add_expected-IsMeasured store id _ r.1.stock_take_items
        (All-sort_by (λ b. b.stock_item_id) _ _
          (All-filter_by _ _ r.1.balances (rw (ap (λ d. d.balances) state) floor)))
        (rw (ap (λ d. d.stock_take_items) state) all))

write_counts-IsMeasured :
    (store take : ℕ) (xs : List CountedItem) (db : Database)
    → All (λ x. pos 0 ≤ℤ x.counted_quantity) xs
    → All IsMeasured db.stock_take_items
    → Ensures (All IsMeasured) (write_counts store take xs db)
unfolding write_counts
write_counts-IsMeasured store take [] db h all = returns all
write_counts-IsMeasured store take (x ∷ xs) db h all = Ensures-bind λ i ei. Ensures-bind λ s es.
    write_counts-IsMeasured store take xs _ h.1 (
      All-update_first IsMeasured (is_take_item store take x.stock_item_id) _ db.stock_take_items
        (λ y found m. record { floor = h.0; variance = refl }) all)

-- A change of counts that succeeds, to counts of zero or more, keeps every line of every stock
-- take measured: its count is zero or more and its variance is the count less the expected
-- quantity.
pub update_counts-IsMeasured :
    (store id : ℕ) (items : List CountedItem) (db : Database)
    → All (λ x. pos 0 ≤ℤ x.counted_quantity) items
    → All IsMeasured db.stock_take_items
    → Ensures (λ r. All IsMeasured r.1.stock_take_items) (update_counts store id items db)
unfolding update_counts
update_counts-IsMeasured store id items db h all = Ensures-bind λ t et. Ensures-bind λ u eu.
    Ensures-call
      (write_counts-IsMeasured store id _ db (All-sort_by (λ x. x.stock_item_id) _ items h) all)
      λ rows m. returns m

link-IsMeasured :
    (store take item : ℕ) (movement : Option ℕ) (rows : List StockTakeItem)
    → All IsMeasured rows
    → All IsMeasured (
        update_first
          (is_take_item store take item)
          (λ i. record i { adjustment_movement_id = movement })
          rows)
link-IsMeasured store take item movement rows =
    All-update_first IsMeasured (is_take_item store take item) _ rows
      (λ y found m. record { floor = m.floor; variance = m.variance })

module _ (ctx : StockChangeContext) (take : ℕ) where
  complete_items-IsMeasured :
      (xs : List StockTakeItem) (db : Database)
      → All IsMeasured db.stock_take_items
      → Ensures (λ r. All IsMeasured r.1.stock_take_items) (complete_items ctx take xs db)
  unfolding complete_items complete_item
  complete_items-IsMeasured [] db all = returns all
  complete_items-IsMeasured (x ∷ xs) db all =
      Ensures-call {Q = λ r. All IsMeasured r.1.stock_take_items} line
        λ r first. Ensures-call (complete_items-IsMeasured xs r.1 first) λ s second. returns second
    where
      line : Ensures (λ r. All IsMeasured r.1.stock_take_items) (complete_item ctx take x db)
      line =
          let before =
            quantity_at ctx.warehouse_id x.stock_item_id
              (ensure_balance ctx.store_id ctx.warehouse_id x.stock_item_id db.balances) in
          Ensures-bind λ u eu. elim (Bool-cases (eqb_ℤ (x.counted_quantity -ℤ before) (pos 0))) [
            | inl still ↦
                rw still (returns (link-IsMeasured ctx.store_id take x.stock_item_id none _ all))
            | inr changed ↦ rw changed (
                Ensures-call (create_movement-rest ctx audit_adjustment _ _ _ _ _ _) λ r same.
                  returns (
                    link-IsMeasured ctx.store_id take x.stock_item_id _ _
                      (rw (ap (λ d. d.stock_take_items) same) all)))
          ]

-- A completion that succeeds keeps every line of every stock take measured: its count is zero or
-- more and its variance is the count less the expected quantity.
pub complete-IsMeasured :
    (now store user id : ℕ) (key : Option String) (db : Database)
    → All IsMeasured db.stock_take_items
    → Ensures (λ r. All IsMeasured r.1.stock_take_items) (complete now store user id key db)
unfolding complete audit
complete-IsMeasured now store user id key db all =
    Ensures-call (transition-state store id is_in_progress _ db) λ r state.
      Ensures-call
        (complete_items-IsMeasured _ id _ r.1 (rw (ap (λ d. d.stock_take_items) state) all))
        λ s m. returns m
