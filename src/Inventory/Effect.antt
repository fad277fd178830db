-- ===== src/Inventory/Effect.antt =====
-- What goods that come in or go out do to the stock: inventory.service.ts.
use Prim.Native.String.{String}
use stock_pilot_be.Prelude.{ℕ, ◌≡◌, refl, Option, List, ◌==◌, if◌then◌else◌}
use stock_pilot_be.Prelude.Int.{pos, ◌+ℤ◌, ◌-ℤ◌}
use stock_pilot_be.Prelude.Result.{Ensures, Ensures-bind, Ensures-call, Ensures-both, returns}
use stock_pilot_be.Schema.{Database}
use stock_pilot_be.Ledger.{StockChangeItem}
use stock_pilot_be.Ledger.Normalize.{requested, IsPositive}
use stock_pilot_be.Ledger.Posting.{on_hand}
use stock_pilot_be.Ledger.Add.{atomic_add-Journal}
use stock_pilot_be.Ledger.Deduct.{atomic_deduct-Journal}
use stock_pilot_be.Ledger.Effect.{atomic_add-on_hand, atomic_deduct-on_hand}
use stock_pilot_be.Orders.Stock.{IsSound, Journal-IsSound, Keeps-IsSound}
use stock_pilot_be.Audit.{audit}
use stock_pilot_be.Inventory.{inflow, outflow}

module _ (store user : ℕ) (warehouse : Option ℕ) (generated : String)
    (reference key : Option String) (items : List StockChangeItem) (db : Database) where
  -- Where the stock is sound and the lines' quantities are positive: an inflow that succeeds
  -- raises the quantity of each item in the target warehouse by what the lines bring of it
  -- altogether, every other quantity is what it was, and the stock stays sound.
  pub inflow-on_hand :
      IsPositive items
      → IsSound db
      → Ensures
          (λ r.
            IsSound r.1
            × ((u j : ℕ)
                → on_hand u j r.1
                  ≡ on_hand u j db +ℤ (if r.0.0.id == u then requested j items else pos 0)))
          (inflow store user warehouse generated reference key items db)
  unfolding inflow audit
  inflow-on_hand positive sound = Ensures-bind λ w ew.
      Ensures-call
        (Ensures-both (atomic_add-Journal _ _ items db sound.stocked)
          (atomic_add-on_hand _ _ items db positive sound.stocked))
        λ r (journal, quantities). returns (
          Keeps-IsSound (record { movements = refl; balances = λ u j. refl })
              (Journal-IsSound journal sound),
          quantities,
        )

  -- Where the stock is sound and the lines' quantities are positive: an outflow that succeeds
  -- lowers the quantity of each item in the target warehouse by what the lines take of it
  -- altogether, every other quantity is what it was, and the stock stays sound.
  pub outflow-on_hand :
      IsPositive items
      → IsSound db
      → Ensures
          (λ r.
            IsSound r.1
            × ((u j : ℕ)
                → on_hand u j r.1
                  ≡ on_hand u j db
                    +ℤ (if r.0.0.id == u then pos 0 -ℤ requested j items else pos 0)))
          (outflow store user warehouse generated reference key items db)
  unfolding outflow audit
  outflow-on_hand positive sound = Ensures-bind λ w ew.
      Ensures-call
        (Ensures-both (atomic_deduct-Journal _ _ items db)
          (atomic_deduct-on_hand _ _ items db positive))
        λ r (journal, quantities). returns (
          Keeps-IsSound (record { movements = refl; balances = λ u j. refl })
              (Journal-IsSound journal sound),
          quantities,
        )
