-- ===== src/StockTakes/Complete.antt =====
-- What the completion of a stock take does to the stock: stock-take.service.ts.
use Prim.Native.String.{String}
use stock_pilot_be.Prelude.{
  ℕ, ◌≡◌, refl, ◌&&◌, Bool, true, false, Option, List, [], ◌∷◌, arith, ◌==◌, if◌then◌else◌,
  Bool-cases, inl, inr, ap, ◌∙◌, sym, All,
}
use stock_pilot_be.Prelude.Int.{ℤ, pos, ◌+ℤ◌, ◌-ℤ◌, ◌≤ℤ◌, +ℤ_sub, +ℤ_zero, eqb_ℤ, eqb_ℤ-eq}
use stock_pilot_be.Prelude.Result.{Ensures, Ensures-bind, Ensures-call, returns}
use stock_pilot_be.Schema.{
  Database, StockTake, StockTakeItem, StockMovement, StockTakeStatus, audit_adjustment,
}
use stock_pilot_be.Ledger.{StockChangeContext, ensure_balance}
use stock_pilot_be.Ledger.Balances.{quantity_at}
use stock_pilot_be.Ledger.Posting.{Journal, Journal-append, Keeps, Keeps-refl, kept, on_hand}
use stock_pilot_be.Ledger.Write.{create_movement-Posts, one_posting}
use stock_pilot_be.Ledger.Rest.{create_movement-rest}
use stock_pilot_be.Ledger.Count.{ensure_balance-quantity, count-Shifts}
use stock_pilot_be.Orders.Stock.{IsSound, Journal-IsSound, Keeps-IsSound}
use stock_pilot_be.Audit.{audit}
use stock_pilot_be.StockTakes.{transition, complete_item, complete_items, items_to_count, complete}
use stock_pilot_be.StockTakes.Status.{is_in_progress}

-- The quantity of an item once the stock take is complete, and `q` if it has no line for the item.
abbrev pub taken_or : ℕ → ℤ → List StockTakeItem → ℤ
taken_or j q [] = q
taken_or j q (x ∷ xs) = taken_or j (if x.stock_item_id == j then x.counted_quantity else q) xs

module _ (ctx : StockChangeContext) (take : ℕ) where
  complete_item-takes :
      (x : StockTakeItem) (db : Database)
      → Ensures (λ r. r.1.stock_takes ≡ db.stock_takes) (complete_item ctx take x db)
  unfolding complete_item
  complete_item-takes x db =
      let before =
        quantity_at ctx.warehouse_id x.stock_item_id
          (ensure_balance ctx.store_id ctx.warehouse_id x.stock_item_id db.balances) in
      Ensures-bind λ u eu. elim (Bool-cases (eqb_ℤ (x.counted_quantity -ℤ before) (pos 0))) [
        | inl still ↦ rw still (returns refl)
        | inr changed ↦ rw changed (
            Ensures-call (create_movement-rest ctx audit_adjustment _ _ _ _ _ _)
              λ r same. returns (ap (λ d. d.stock_takes) same))
      ]

  pub complete_items-takes :
      (xs : List StockTakeItem) (db : Database)
      → Ensures (λ r. r.1.stock_takes ≡ db.stock_takes) (complete_items ctx take xs db)
  unfolding complete_items
  complete_items-takes [] db = returns refl
  complete_items-takes (x ∷ xs) db =
      Ensures-call (complete_item-takes x db)
        λ r first. Ensures-call (complete_items-takes xs r.1) λ s second. returns (second ∙ first)

  -- The completion of one line sets the one quantity, and posts the difference if there is one.
  record Completed (x : StockTakeItem) (db : Database) (r : List StockMovement × Database)
      : Type 0 where
    pub journal : Journal r.0 db r.1
    pub quantities :
        (u j : ℕ)
        → on_hand u j r.1 ≡ (
            if ctx.warehouse_id == u
            then (if x.stock_item_id == j then x.counted_quantity else on_hand u j db)
            else on_hand u j db)

  complete_item-Completed :
      (x : StockTakeItem) (db : Database)
      → pos 0 ≤ℤ x.counted_quantity
      → Ensures (Completed x db) (complete_item ctx take x db)
  unfolding complete_item
  complete_item-Completed x db floor =
      let w = ctx.warehouse_id in
      let i = x.stock_item_id in
      let before = quantity_at w i (ensure_balance ctx.store_id w i db.balances) in
      let same : before ≡ on_hand w i db =
        ensure_balance-quantity ctx.store_id w i w i db.balances in
      let shift = count-Shifts ctx.store_id w i x.counted_quantity db in
      let reached : x.counted_quantity ≡ on_hand w i db +ℤ (x.counted_quantity -ℤ before) =
        rw same (sym (+ℤ_sub (on_hand w i db) x.counted_quantity)) in
      Ensures-bind λ u eu. elim (Bool-cases (eqb_ℤ (x.counted_quantity -ℤ before) (pos 0))) [
        | inl still ↦ rw still (
            returns (record {
              journal = kept (record {
                movements = refl;
                balances = λ u j. shift u j ∙ unmoved u j (eqb_ℤ-eq _ _ still);
              });
              quantities =
                  λ u j. shift u j ∙ placed i j w u x.counted_quantity (on_hand u j db) reached;
            }))
        | inr changed ↦ rw changed (
            Ensures-bind λ r er.
              let posts =
                create_movement-Posts ctx audit_adjustment _ i _ _ _ db _ shift same reached r er in
              returns (record {
                journal =
                    Journal-append
                      (one_posting w i (x.counted_quantity -ℤ before) r.0 db r.1 posts
                        (rw (← reached) floor))
                      (kept (record { movements = refl; balances = λ u j. refl }));
                quantities = λ u j.
                    posts.balances u j ∙ placed i j w u x.counted_quantity (on_hand u j db) reached;
              }))
      ]
    where
      placed :
          (i j w u : ℕ) (c h : ℤ) {q : ℤ}
          → c ≡ q
          → (if w == u && i == j then q else h) ≡ (if w == u then (if i == j then c else h) else h)
      placed i j w u c h eq = ground (arith, eq)

      unmoved :
          (u j : ℕ) {d : ℤ}
          → d ≡ pos 0
          → (if ctx.warehouse_id == u && x.stock_item_id == j
              then on_hand ctx.warehouse_id x.stock_item_id db +ℤ d
              else on_hand u j db)
            ≡ on_hand u j db
      unmoved u j e = ground (arith, +ℤ_zero (on_hand ctx.warehouse_id x.stock_item_id db))

  complete_items-Completed :
      (xs : List StockTakeItem) (db : Database)
      → All (λ x. pos 0 ≤ℤ x.counted_quantity) xs
      → Ensures
          (λ r.
            Journal r.0 db r.1
            × ((u j : ℕ)
                → on_hand u j r.1 ≡ (
                    if ctx.warehouse_id == u
                    then taken_or j (on_hand u j db) xs
                    else on_hand u j db)))
          (complete_items ctx take xs db)
  unfolding complete_items
  complete_items-Completed [] db floor = returns (kept (Keeps-refl db), λ u j. ground arith)
  complete_items-Completed (x ∷ xs) db floor =
      Ensures-call (complete_item-Completed x db floor.0) λ r first.
        Ensures-call (complete_items-Completed xs r.1 floor.1) λ s second. returns (
          Journal-append first.journal second.0,
          λ u j.
              second.1 u j
              ∙ rw (first.quantities u j) (through (ctx.warehouse_id == u) j (on_hand u j db)),
        )
    where
      through :
          (b : Bool) (j : ℕ) (h : ℤ)
          → (if b
              then taken_or j
                  (if b then (if x.stock_item_id == j then x.counted_quantity else h) else h)
                  xs
              else (if b then (if x.stock_item_id == j then x.counted_quantity else h) else h))
            ≡ (if b then taken_or j h (x ∷ xs) else h)
      through true j h = refl
      through false j h = refl

-- A transition writes no other table.
pub transition-state :
    (store id : ℕ) (guard : StockTakeStatus → Bool) (write : StockTake → StockTake) (db : Database)
    → Ensures
        (λ r. r.1 ≡ record db { stock_takes = r.1.stock_takes })
        (transition store id guard write db)
unfolding transition
transition-state store id guard write db =
    Ensures-bind λ t et. Ensures-bind λ u eu. Ensures-bind λ v ev. returns refl

-- Where the stock is sound and the lines' counts are zero or more: after a completion that
-- succeeds every item that the stock take has a line for has its counted quantity in the stock
-- take's warehouse, and every other quantity is what it was. The stock stays sound: no quantity is
-- negative and the ledger explains every quantity.
pub complete-counted :
    (now store user id : ℕ) (key : Option String) (db : Database)
    → All (λ x. pos 0 ≤ℤ x.counted_quantity) (items_to_count store id db)
    → IsSound db
    → Ensures
        (λ r.
          IsSound r.1
          × ((u j : ℕ)
              → on_hand u j r.1 ≡ (
                  if r.0.0.warehouse_id == u
                  then taken_or j (on_hand u j db) (items_to_count store id db)
                  else on_hand u j db)))
        (complete now store user id key db)
unfolding complete audit
complete-counted now store user id key db floor sound =
    Ensures-call (transition-state store id is_in_progress _ db) λ r state.
      let same : items_to_count store id r.1 ≡ items_to_count store id db =
        ap (items_to_count store id) state in
      let stock : Keeps db r.1 = record {
        movements = ap (λ d. d.movements) state;
        balances = λ u j. ap (on_hand u j) state;
      } in
      Ensures-call (complete_items-Completed _ id (items_to_count store id r.1) r.1 (rw same floor))
        λ s (journal, quantities). returns (
          Keeps-IsSound (record { movements = refl; balances = λ u j. refl })
              (Journal-IsSound journal (Keeps-IsSound stock sound)),
          λ u j.
              quantities u j
              ∙ regroup j (r.0.warehouse_id == u) (on_hand u j r.1) (on_hand u j db)
                  (stock.balances u j) same,
        )
  where
    regroup :
        (j : ℕ) (b : Bool) (h h' : ℤ) {xs ys : List StockTakeItem}
        → h ≡ h'
        → xs ≡ ys
        → (if b then taken_or j h xs else h) ≡ (if b then taken_or j h' ys else h')
    regroup j b h h' eh es = rw (eh, es)
