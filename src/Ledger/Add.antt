-- ===== src/Ledger/Add.antt =====
-- `atomicAdd` of stock-ledger.service.ts as a journal of postings.
use stock_pilot_be.Prelude.{
  ℕ, ◌≡◌, refl, ◌&&◌, some, List, [], ◌∷◌, arith, ◌==◌, if◌then◌else◌, Bool-cases, inl, inr,
  Option-cases, ap, ◌∙◌, sym,
}
use stock_pilot_be.Prelude.Int.{ℤ, pos, ◌+ℤ◌, ◌-ℤ◌, ◌≤ℤ◌, ◌<ℤ◌, leb_ℤ, int_laws, leb_ℤ-lt}
use stock_pilot_be.Prelude.Rows.{find_first}
use stock_pilot_be.Prelude.Result.{or_fail-eq-ok, Ensures, Ensures-bind, Ensures-call, returns}
use stock_pilot_be.Schema.{Database, InventoryBalance, MovementType}
use stock_pilot_be.Ledger.{
  StockChangeContext, StockChangeItem, increment_balance, add_positive, add_item, add_items,
  atomic_add, normalize_items,
}
use stock_pilot_be.Ledger.Balances.{at, quantity_of, quantity_at-upsert}
use stock_pilot_be.Ledger.Posting.{
  Journal, kept, Keeps-refl, Journal-append, on_hand, IsStocked, Journal-IsStocked,
}
use stock_pilot_be.Ledger.Write.{Shifts, create_movement-Posts, one_posting}

module _ (ctx : StockChangeContext) (i : ℕ) (q : ℤ) (db : Database) where
  -- A new row begins at what is added, as a missing row counts as zero.
  increment-Shifts : Shifts ctx.warehouse_id i q db (increment_balance ctx i q db.balances)
  unfolding increment_balance
  increment-Shifts u j =
      quantity_at-upsert ctx.warehouse_id i u j _ _ (λ x. refl) refl refl db.balances
      ∙ ap (λ x. if ctx.warehouse_id == u && i == j then x else on_hand u j db)
          (elim (Option-cases (find_first (at ctx.warehouse_id i) db.balances)) [
            | inl e ↦ rw e (omega int_laws)
            | inr (b, e) ↦ rw e
          ])

  increment-read :
      (b : InventoryBalance)
      → find_first (at ctx.warehouse_id i) (increment_balance ctx i q db.balances) ≡ some b
      → (b.quantity ≡ on_hand ctx.warehouse_id i db +ℤ q)
        × (b.quantity -ℤ q ≡ on_hand ctx.warehouse_id i db)
  increment-read b found =
      let read : b.quantity ≡ on_hand ctx.warehouse_id i db +ℤ q =
        ap quantity_of (sym found) ∙ increment-Shifts ctx.warehouse_id i ∙ ground arith in
      (read, rw read (omega int_laws))

module _ (ctx : StockChangeContext) (type : MovementType) where
  -- The posting's quantity stays at or above zero because it was there before.
  add_positive-Journal :
      (lines : ℕ) (x : StockChangeItem) (db : Database)
      → IsStocked db
      → pos 0 <ℤ x.quantity
      → Ensures (λ r. Journal r.0 db r.1) (add_positive ctx type lines x db)
  unfolding add_positive
  add_positive-Journal lines x db stocked positive = Ensures-bind λ s es. Ensures-bind λ b eb.
      Ensures-bind λ md em.
        let w = ctx.warehouse_id in
        let i = x.stock_item_id in
        let (after, before) = increment-read ctx i x.quantity db b (or_fail-eq-ok _ _ eb) in
        let held : pos 0 ≤ℤ on_hand w i db = stocked w i in
        returns (
          one_posting w i x.quantity md.0 db md.1
            (create_movement-Posts ctx type _ i _ _ _ db _ (increment-Shifts ctx i x.quantity db)
              before after md em)
            (omega int_laws))

  add_item-Journal :
      (lines : ℕ) (x : StockChangeItem) (db : Database)
      → IsStocked db
      → Ensures (λ r. Journal r.0 db r.1) (add_item ctx type lines x db)
  unfolding add_item
  add_item-Journal lines x db stocked = elim (Bool-cases (leb_ℤ x.quantity (pos 0))) [
    | inl skip ↦ rw skip (returns (kept (Keeps-refl db)))
    | inr more ↦
        rw more (add_positive-Journal lines x db stocked (leb_ℤ-lt x.quantity (pos 0) more))
  ]

  add_items-Journal :
      (lines : ℕ) (xs : List StockChangeItem) (db : Database)
      → IsStocked db
      → Ensures (λ r. Journal r.0 db r.1) (add_items ctx type lines xs db)
  unfolding add_items
  add_items-Journal lines [] db stocked = returns (kept (Keeps-refl db))
  add_items-Journal lines (x ∷ xs) db stocked =
      Ensures-call (add_item-Journal lines x db stocked) λ r first.
        Ensures-call (add_items-Journal lines xs r.1 (Journal-IsStocked first stocked))
          λ s rest. returns (Journal-append first rest)

  -- Where no quantity is negative, an addition that succeeds has posted exactly the movements that
  -- it returns, in their order: each changes one quantity, leaves it at zero or more, and says
  -- from what to what.
  pub atomic_add-Journal :
      (items : List StockChangeItem) (db : Database)
      → IsStocked db
      → Ensures (λ r. Journal r.0 db r.1) (atomic_add ctx type items db)
  unfolding atomic_add
  atomic_add-Journal items db stocked = add_items-Journal _ (normalize_items items) db stocked
