-- ===== src/Inventory/Count.antt =====
-- What a count of the shelves does to the stock: inventory.service.ts.
use Prim.Native.String.{String}
use stock_pilot_be.Prelude.{
  ℕ, ◌≡◌, refl, ◌&&◌, Bool, true, false, Option, List, [], ◌∷◌, arith, ◌==◌, if◌then◌else◌, ◌∙◌,
  sym, All,
}
use stock_pilot_be.Prelude.Int.{ℤ, pos, ◌+ℤ◌, ◌-ℤ◌, ◌≤ℤ◌, +ℤ_sub}
use stock_pilot_be.Prelude.Rows.{find_first_fits}
use stock_pilot_be.Prelude.Sort.{sort_by, All-sort_by}
use stock_pilot_be.Prelude.Result.{
  Ensures, Ensures-bind, Ensures-call, Ensures-of, returns, or_fail-eq-ok,
}
use stock_pilot_be.Schema.{Database, StockItem, StockMovement, audit_adjustment}
use stock_pilot_be.Ledger.{StockChangeContext, is_active_item, ensure_balance}
use stock_pilot_be.Ledger.Balances.{quantity_at}
use stock_pilot_be.Ledger.Posting.{Journal, Journal-append, kept, Keeps-refl, on_hand}
use stock_pilot_be.Ledger.Write.{create_movement-Posts, one_posting}
use stock_pilot_be.Ledger.Count.{ensure_balance-quantity, count-Shifts}
use stock_pilot_be.Orders.Stock.{IsSound, Journal-IsSound, Keeps-IsSound}
use stock_pilot_be.Audit.{audit}
use stock_pilot_be.Inventory.{CountItem, audit_item, audit_items, audit_stock, stock_context}

-- The quantity of an item once it is counted, and otherwise `q`: of several counts the last holds.
abbrev pub counted_or : ℕ → ℤ → List CountItem → ℤ
counted_or j q [] = q
counted_or j q (x ∷ xs) = counted_or j (if x.stock_item_id == j then x.counted_quantity else q) xs

module _ (ctx : StockChangeContext) where
  -- One count sets the one quantity and posts the difference.
  record Counted (x : CountItem) (db : Database) (r : StockMovement × Database) : Type 0 where
    pub journal : Journal (r.0 ∷ []) db r.1
    pub quantities :
        (u j : ℕ)
        → on_hand u j r.1 ≡ (
            if ctx.warehouse_id == u
            then (if x.stock_item_id == j then x.counted_quantity else on_hand u j db)
            else on_hand u j db)

  audit_item-Counted :
      (x : CountItem) (db : Database)
      → pos 0 ≤ℤ x.counted_quantity
      → Ensures (Counted x db) (audit_item ctx x db)
  unfolding audit_item
  audit_item-Counted x db floor = Ensures-bind λ s es.
      let w = ctx.warehouse_id in
      let before = quantity_at w s.id (ensure_balance ctx.store_id w s.id db.balances) in
      let same : before ≡ on_hand w s.id db =
        ensure_balance-quantity ctx.store_id w s.id w s.id db.balances in
      let reached : x.counted_quantity ≡ on_hand w s.id db +ℤ (x.counted_quantity -ℤ before) =
        rw same (sym (+ℤ_sub (on_hand w s.id db) x.counted_quantity)) in
      let fits = find_first_fits _ db.stock_items s (or_fail-eq-ok _ _ es) in
      Ensures-of _ λ r er.
        let posts =
          create_movement-Posts ctx audit_adjustment _ s.id _ _ _ db _
            (count-Shifts ctx.store_id w s.id x.counted_quantity db) same reached r er in
        record {
          journal =
              one_posting w s.id (x.counted_quantity -ℤ before) r.0 db r.1 posts
                (rw (← reached) floor);
          quantities = λ u j.
              posts.balances u j
              ∙ placed s.id x.stock_item_id j w u x.counted_quantity (on_hand u j db) (id_of s fits)
                  reached;
        }
    where
      id_of :
          (s : StockItem)
          → is_active_item ctx.store_id x.stock_item_id s ≡ true
          → s.id ≡ x.stock_item_id
      id_of s fits = ground arith

      placed :
          (i k j w u : ℕ) (c h : ℤ) {q : ℤ}
          → i ≡ k
          → c ≡ q
          → (if w == u && i == j then q else h) ≡ (if w == u then (if k == j then c else h) else h)
      placed i k j w u c h ei eq = ground (arith, ei, eq)

  audit_items-Journal :
      (xs : List CountItem) (db : Database)
      → All (λ x. pos 0 ≤ℤ x.counted_quantity) xs
      → Ensures
          (λ r.
            Journal r.0 db r.1
            × ((u j : ℕ)
                → on_hand u j r.1 ≡ (
                    if ctx.warehouse_id == u
                    then counted_or j (on_hand u j db) xs
                    else on_hand u j db)))
          (audit_items ctx xs db)
  unfolding audit_items
  audit_items-Journal [] db floor = returns (kept (Keeps-refl db), λ u j. ground arith)
  audit_items-Journal (x ∷ xs) db floor = Ensures-call (audit_item-Counted x db floor.0) λ r first.
      Ensures-call (audit_items-Journal xs r.1 floor.1) λ s second. returns (
        Journal-append first.journal second.0,
        λ u j.
            second.1 u j
            ∙ through u j x xs (on_hand u j r.1) (on_hand u j db) (first.quantities u j),
      )
    where
      through :
          (u j : ℕ) (x : CountItem) (xs : List CountItem) (h h' : ℤ)
          → h ≡ (
              if ctx.warehouse_id == u
              then (if x.stock_item_id == j then x.counted_quantity else h')
              else h')
          → (if ctx.warehouse_id == u then counted_or j h xs else h)
            ≡ (if ctx.warehouse_id == u then counted_or j h' (x ∷ xs) else h')
      through u j x xs h h' e = rw e (split (ctx.warehouse_id == u))
        where
          split :
              (b : Bool)
              → (if b
                  then counted_or j
                      (if b then (if x.stock_item_id == j then x.counted_quantity else h') else h')
                      xs
                  else (if b
                      then (if x.stock_item_id == j then x.counted_quantity else h')
                      else h'))
                ≡ (if b then counted_or j h' (x ∷ xs) else h')
          split true = refl
          split false = refl

-- Where the stock is sound and the counts are zero or more: after an audit that succeeds every
-- counted item has its counted quantity in the target warehouse, of several counts the last in the
-- order of the item ids, and every other quantity is what it was. The stock stays sound.
pub audit_stock-counted :
    (store user : ℕ) (warehouse : Option ℕ) (generated : String) (reference key : Option String)
    (items : List CountItem) (db : Database)
    → All (λ x. pos 0 ≤ℤ x.counted_quantity) items
    → IsSound db
    → Ensures
        (λ r.
          IsSound r.1
          × ((u j : ℕ)
              → on_hand u j r.1 ≡ (
                  if r.0.0.id == u
                  then counted_or j (on_hand u j db) (sort_by (λ x. x.stock_item_id) items)
                  else on_hand u j db)))
        (audit_stock store user warehouse generated reference key items db)
unfolding audit_stock audit
audit_stock-counted store user warehouse generated reference key items db floor sound =
    Ensures-bind λ w ew.
      Ensures-call
        (audit_items-Journal (stock_context store user w "STOCK_AUDIT" _ key) _ db
          (All-sort_by (λ x. x.stock_item_id) _ items floor))
        λ r (journal, quantities). returns (
          Keeps-IsSound (record { movements = refl; balances = λ u j. refl })
              (Journal-IsSound journal sound),
          quantities,
        )
