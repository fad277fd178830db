-- ===== src/Ledger/Count.antt =====
-- `replaceWithCount` of stock-ledger.service.ts as at most one posting.
use stock_pilot_be.Prelude.{
  ℕ, ◌≡◌, refl, ◌&&◌, Option, none, some, List, [], ◌∷◌, arith, ◌==◌, if◌then◌else◌, Bool-cases,
  inl, inr, Option-cases, ◌∙◌, sym,
}
use stock_pilot_be.Prelude.Int.{ℤ, pos, ◌+ℤ◌, ◌-ℤ◌, ◌≤ℤ◌, eqb_ℤ, +ℤ_sub, +ℤ_zero, eqb_ℤ-eq}
use stock_pilot_be.Prelude.Rows.{find_first}
use stock_pilot_be.Prelude.Result.{Ensures, Ensures-bind, returns}
use stock_pilot_be.Schema.{Database, InventoryBalance, StockMovement, MovementType}
use stock_pilot_be.Ledger.{StockChangeContext, ensure_balance, set_balance, replace_with_count}
use stock_pilot_be.Ledger.Balances.{
  at, quantity_at, quantity_at-upsert, quantity_at-update, find_first-upsert,
}
use stock_pilot_be.Ledger.Posting.{Journal, kept, on_hand}
use stock_pilot_be.Ledger.Write.{Shifts, create_movement-Posts, one_posting}

module _ (store w i : ℕ) where
  -- The row that a count makes sure of changes no quantity.
  pub ensure_balance-quantity :
      (u j : ℕ) (rows : List InventoryBalance)
      → quantity_at u j (ensure_balance store w i rows) ≡ quantity_at u j rows
  unfolding ensure_balance
  ensure_balance-quantity u j rows =
      quantity_at-upsert w i u j _ (λ b. b) (λ x. refl) refl refl rows
      ∙ elim (Option-cases (find_first (at w i) rows)) [
        | inl e ↦ ground arith
        | inr (b, e) ↦ ground arith
      ]

  ensured :
      (rows : List InventoryBalance)
      → (b : InventoryBalance) × (find_first (at w i) (ensure_balance store w i rows) ≡ some b)
  unfolding ensure_balance
  ensured rows = find_first-upsert w i _ (λ b. b) (λ x. refl) refl refl rows

  -- A count moves the row by the difference from what was on hand.
  pub count-Shifts :
      (counted : ℤ) (db : Database)
      → Shifts w i
          (counted -ℤ quantity_at w i (ensure_balance store w i db.balances))
          db
          (set_balance w i counted (ensure_balance store w i db.balances))
  unfolding set_balance
  count-Shifts counted db u j =
      let rows = ensure_balance store w i db.balances in
      let (b, e) = ensured db.balances in
      quantity_at-update w i u j _ b (λ x. refl) rows e
      ∙ ground (
        arith,
        ensure_balance-quantity u j db.balances,
        ensure_balance-quantity w i db.balances,
        +ℤ_sub (on_hand w i db) counted,
      )

-- The movement, if there was one.
abbrev pub posted_movement : Option StockMovement → List StockMovement
posted_movement none = []
posted_movement (some m) = m ∷ []

module _ (ctx : StockChangeContext) (item : ℕ) (counted : ℤ) (type : MovementType)
    (db : Database) where
  -- A count of zero or more that succeeds has posted the difference from what was on hand, or
  -- nothing at all if there is no difference.
  pub replace_with_count-Journal :
      pos 0 ≤ℤ counted
      → Ensures
          (λ r. Journal (posted_movement r.0) db r.1)
          (replace_with_count ctx item counted type db)
  unfolding replace_with_count
  replace_with_count-Journal floor = Ensures-bind λ s es.
      let w = ctx.warehouse_id in
      let rows = ensure_balance ctx.store_id w item db.balances in
      let before = quantity_at w item rows in
      let same : before ≡ on_hand w item db =
        ensure_balance-quantity ctx.store_id w item w item db.balances in
      let shift = count-Shifts ctx.store_id w item counted db in
      let reached : counted ≡ on_hand w item db +ℤ (counted -ℤ before) =
        rw same (sym (+ℤ_sub (on_hand w item db) counted)) in
      elim (Bool-cases (eqb_ℤ (counted -ℤ before) (pos 0))) [
        | inl still ↦ rw still (
            returns (
              kept (record {
                movements = refl;
                balances = λ u j. shift u j ∙ unmoved u j (eqb_ℤ-eq _ _ still);
              })))
        | inr changed ↦ rw changed (
            Ensures-bind λ md em. returns (
              one_posting w item (counted -ℤ before) md.0 db md.1
                (create_movement-Posts ctx type _ item _ _ _ db _ shift same reached md em)
                (rw (← reached) floor)))
      ]
    where
      unmoved :
          (u j : ℕ) {d : ℤ}
          → d ≡ pos 0
          → (if ctx.warehouse_id == u && item == j
              then on_hand ctx.warehouse_id item db +ℤ d
              else on_hand u j db)
            ≡ on_hand u j db
      unmoved u j e = ground (arith, +ℤ_zero (on_hand ctx.warehouse_id item db))
