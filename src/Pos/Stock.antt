-- ===== src/Pos/Stock.antt =====
-- The stock of a sale at the counter: pos.service.ts.
use Prim.Native.String.{String}
use stock_pilot_be.Prelude.{
  ℕ, ◌≡◌, refl, Option, List, ap, ◌∙◌, sym, ◌==◌, Option-cases, inl, inr, if◌then◌else◌,
}
use stock_pilot_be.Prelude.Int.{ℤ, pos, ◌+ℤ◌, ◌-ℤ◌}
use stock_pilot_be.Prelude.Rows.{find_first}
use stock_pilot_be.Prelude.Result.{
  ok, ok_injective, Ensures, Ensures-bind, Ensures-call, Ensures-both, returns, fails,
}
use stock_pilot_be.Schema.{Database, Warehouse, Order, PaymentMethod}
use stock_pilot_be.Ledger.{normalize_items}
use stock_pilot_be.Ledger.Normalize.{
  requested, requested-normalize, IsPositive, normalize-IsPositive,
}
use stock_pilot_be.Ledger.Posting.{Keeps, Keeps-trans, on_hand}
use stock_pilot_be.Ledger.Deduct.{atomic_deduct-Journal}
use stock_pilot_be.Ledger.Effect.{atomic_deduct-on_hand}
use stock_pilot_be.Orders.Stock.{IsSound, Journal-IsSound, Keeps-IsSound}
use stock_pilot_be.Orders.Draft.{Decimals, RawLine}
use stock_pilot_be.Orders.Create.{clashes}
use stock_pilot_be.Audit.{audit}
use stock_pilot_be.Inventory.{target_warehouse}
use stock_pilot_be.Pos.{
  CreatePosSaleInput, store_sale, store_payment, is_paid_before, new_payment, cash_sale,
  create_cash_sale,
}
use stock_pilot_be.Pos.Money.{Ensures-unique}
use stock_pilot_be.Pos.Sale.{pos_items}

store_sale-Keeps :
    (now : ℕ) (number : String) (store user : ℕ) (subtotal discount tax total : ℤ)
    (key : Option String) (ls : List RawLine) (amounts : List ℤ) (db : Database)
    → Ensures
        (λ r. Keeps db r.1)
        (store_sale now number store user subtotal discount tax total key ls amounts db)
unfolding store_sale
store_sale-Keeps now number store user subtotal discount tax total key ls amounts db =
    elim (Option-cases (find_first (clashes store number key) db.orders)) [
      | inr (old, clash) ↦ rw (clash, store_sale) fails
      | inl fresh ↦
          rw (fresh, store_sale) (returns (record { movements = refl; balances = λ u j. refl }))
    ]

store_payment-Keeps :
    (store : ℕ) (order : Order) (method : PaymentMethod) (total : ℤ) (key : Option String)
    (db : Database)
    → Ensures (λ r. Keeps db r.1) (store_payment store order method total key db)
unfolding store_payment
store_payment-Keeps store order method total key db =
    elim (Option-cases
      (find_first (is_paid_before (new_payment store order method total key db)) db.payments)) [
        | inr (old, clash) ↦ rw (clash, store_payment) fails
        | inl fresh ↦
            rw (fresh, store_payment)
              (returns (record { movements = refl; balances = λ u j. refl }))
      ]

-- Where the stock is sound and the quantities are positive: a sale that succeeds has taken from each
-- item of the target warehouse what its lines sell of it altogether, every other quantity is what it
-- was, and the stock stays sound.
pub create_cash_sale-on_hand :
    (d : Decimals) (now : ℕ) (number : String) (store user : ℕ) (input : CreatePosSaleInput)
    (key : Option String) (db : Database) (w : Warehouse)
    → IsPositive (pos_items input.items)
    → IsSound db
    → target_warehouse store input.warehouse_id db ≡ ok w
    → Ensures
        (λ r.
          IsSound r.1
          × ((u j : ℕ)
              → on_hand u j r.1
                ≡ on_hand u j db
                  +ℤ (if w.id == u then pos 0 -ℤ requested j (pos_items input.items) else pos 0)))
        (create_cash_sale d now number store user input key db)
unfolding create_cash_sale cash_sale audit
create_cash_sale-on_hand d now number store user input key db w positive sound target =
    let items = normalize_items (pos_items input.items) in
    Ensures-unique (
      Ensures-bind λ v ev.
        (Ensures-bind λ s es. Ensures-bind λ all_there ea. Ensures-bind λ ls el.
          Ensures-bind λ within eh. Ensures-bind λ agreed eg.
            Ensures-call (store_sale-Keeps now number store user _ _ _ _ key ls _ db) λ o kept.
              Ensures-call (store_payment-Keeps store o.0.0 input.payment_method _ key o.1)
                λ p kept'.
                  let before = Keeps-trans kept kept' in
                  let start =
                    Keeps-trans before (record { movements = refl; balances = λ u j. refl }) in
                  Ensures-call
                    (Ensures-both (atomic_deduct-Journal _ _ items _) (
                      atomic_deduct-on_hand _ _ items _
                        (normalize-IsPositive (pos_items input.items) positive)))
                    λ m (journal, quantities). returns (
                      Keeps-IsSound (record { movements = refl; balances = λ u j. refl })
                          (Journal-IsSound journal (Keeps-IsSound start sound)),
                      λ u j.
                          quantities u j
                          ∙ regroup u (ap (λ x. x.id) (ok_injective (sym ev ∙ target)))
                              (before.balances u j) (requested-normalize j (pos_items input.items)),
                    )))
  where
    regroup :
        (u : ℕ) {n n' : ℕ} {h h' q q' : ℤ}
        → n ≡ n'
        → h ≡ h'
        → q ≡ q'
        → h +ℤ (if n == u then pos 0 -ℤ q else pos 0)
          ≡ h' +ℤ (if n' == u then pos 0 -ℤ q' else pos 0)
    regroup u en eh eq = rw (en, eh, eq)
