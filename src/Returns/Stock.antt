-- ===== src/Returns/Stock.antt =====
-- What a return does to the stock: return.service.ts.
use Prim.Native.String.{String}
use stock_pilot_be.Prelude.{ℕ, refl, Option, List, [], ◌∷◌, Option-cases, inl, inr}
use stock_pilot_be.Prelude.Result.{Ensures, Ensures-bind, Ensures-call, returns, fails}
use stock_pilot_be.Prelude.Rows.{find_first}
use stock_pilot_be.Schema.{Database, Warehouse, ReturnItem}
use stock_pilot_be.Ledger.{StockChangeItem}
use stock_pilot_be.Ledger.Posting.{Keeps, kept, Keeps-refl, Keeps-trans, Journal, IsStocked}
use stock_pilot_be.Ledger.Add.{atomic_add-Journal}
use stock_pilot_be.Orders.Draft.{Decimals}
use stock_pilot_be.Orders.Stock.{IsSound, Journal-IsSound, Keeps-IsSound}
use stock_pilot_be.Audit.{audit-Keeps}
use stock_pilot_be.Returns.{
  return_line, return_lines, restock_returned, store_return, is_taken, create_return,
}
use stock_pilot_be.Returns.Request.{ReturnRequest}

module _ (d : Decimals) (store : ℕ) (w : Warehouse) (order : ℕ) where
  return_lines-Keeps :
      (rs : List ReturnRequest) (db : Database)
      → Ensures (λ x. Keeps db x.1) (return_lines d store w order rs db)
  unfolding return_lines return_line
  return_lines-Keeps [] db = returns (Keeps-refl db)
  return_lines-Keeps (r ∷ rs) db = Ensures-call {Q = λ x. Keeps db x.1} line λ x first.
      Ensures-call (return_lines-Keeps rs x.1) λ y second. returns (Keeps-trans first second)
    where
      line : Ensures (λ x. Keeps db x.1) (return_line d store w order r db)
      line = Ensures-bind λ l el. Ensures-bind λ u eu. Ensures-bind λ v ev.
          Ensures-bind λ rows er. returns (record { movements = refl; balances = λ u j. refl })

restock_returned-Journal :
    (store user : ℕ) (w : Warehouse) (number : String) (key : Option String)
    (xs : List StockChangeItem) (db : Database)
    → IsStocked db
    → Ensures (λ r. Journal r.0 db r.1) (restock_returned store user w number key xs db)
unfolding restock_returned
restock_returned-Journal store user w number key [] db s = returns (kept (Keeps-refl db))
restock_returned-Journal store user w number key (x ∷ xs) db s =
    atomic_add-Journal _ _ (x ∷ xs) db s

store_return-Keeps :
    (store user order : ℕ) (number : String) (key : Option String) (items : List ReturnItem)
    (db : Database)
    → Ensures (λ r. Keeps db r.1) (store_return store user order number key items db)
unfolding store_return
store_return-Keeps store user order number key items db =
    elim (Option-cases (find_first (is_taken store number key) db.return_orders)) [
      | inl free ↦
          rw (free, store_return) (returns (record { movements = refl; balances = λ u j. refl }))
      | inr (old, clash) ↦ rw (clash, store_return) fails
    ]

-- A return that succeeds keeps the stock sound: no quantity is negative and the ledger explains
-- every quantity.
pub create_return-IsSound :
    (d : Decimals) (store user order : ℕ) (number : String) (key : Option String)
    (requests : List ReturnRequest) (db : Database)
    → IsSound db
    → Ensures (λ r. IsSound r.1) (create_return d store user order number key requests db)
unfolding create_return
create_return-IsSound d store user order number key requests db sound = Ensures-bind λ w ew.
    Ensures-bind λ o eo. Ensures-bind λ u eu. Ensures-bind λ merged em.
      Ensures-call (return_lines-Keeps d store w order _ db) λ x lines.
        let booked = Keeps-IsSound lines sound in
        Ensures-call (restock_returned-Journal store user w number key _ x.1 booked.stocked)
          λ y journal.
            Ensures-call (store_return-Keeps store user order number key x.0 y.1) λ z same.
              returns (
                Keeps-IsSound (Keeps-trans same (audit-Keeps _ _ _ _ _ z.1))
                  (Journal-IsSound journal booked))
