-- ===== src/Ledger/Deduct.antt =====
-- `atomicDeduct` of stock-ledger.service.ts as a journal of postings.
use stock_pilot_be.Prelude.{
  ℕ, ◌≡◌, refl, ◌&&◌, some, List, [], ◌∷◌, arith, ◌==◌, if◌then◌else◌, Bool-cases, inl, inr,
  Option-cases, ap, ◌∙◌, sym,
}
use stock_pilot_be.Prelude.Int.{ℤ, pos, ◌+ℤ◌, ◌-ℤ◌, ◌≤ℤ◌, leb_ℤ, int_laws}
use stock_pilot_be.Prelude.Rows.{find_first, update_first}
use stock_pilot_be.Prelude.Result.{or_fail-eq-ok, Ensures, Ensures-bind, Ensures-call, returns}
use stock_pilot_be.Schema.{Database, InventoryBalance, MovementType}
use stock_pilot_be.Ledger.{
  StockChangeContext, StockChangeItem, decrement_balance, deduct_positive, deduct_item,
  deduct_items, atomic_deduct, normalize_items,
}
use stock_pilot_be.Ledger.Balances.{at, quantity_of, quantity_at-update}
use stock_pilot_be.Ledger.Posting.{Journal, kept, Keeps-refl, Journal-append, on_hand}
use stock_pilot_be.Ledger.Write.{Shifts, create_movement-Posts, one_posting}

-- The guarded decrement found its row, with at least `q` on hand, and lowered it by `q`.
decrement_lem :
    (w i : ℕ) (q : ℤ) (rows rows' : List InventoryBalance)
    → decrement_balance w i q rows ≡ some rows'
    → (b : InventoryBalance) × (find_first (at w i) rows ≡ some b)
      × (q ≤ℤ b.quantity)
      × (rows' ≡ update_first (at w i) (λ b. record b { quantity = b.quantity -ℤ q }) rows)
unfolding decrement_balance
decrement_lem w i q rows rows' h = elim (Option-cases (find_first (at w i) rows)) [
  | inl e ↦ ground arith
  | inr (b, e) ↦ (b, e, ground arith, ground arith)
]

module _ (w i : ℕ) (q : ℤ) (db : Database) (rows : List InventoryBalance) where
  -- What the round reads back after the decrement, and that the row had enough.
  decrement-Shifts :
      decrement_balance w i q db.balances ≡ some rows
      → Shifts w i (pos 0 -ℤ q) db rows × (pos 0 ≤ℤ on_hand w i db +ℤ (pos 0 -ℤ q))
  decrement-Shifts h =
      let (b, e, enough, er) = decrement_lem w i q db.balances rows h in
      let drop : on_hand w i db ≡ b.quantity = ap quantity_of e in
      (
        λ u j. rw er (
            quantity_at-update w i u j _ b (λ x. refl) db.balances e
            ∙ ap (λ x. if w == u && i == j then x else on_hand u j db) (grind (int_laws, drop))),
        rw drop (omega int_laws),
      )

  decrement-read :
      (b : InventoryBalance)
      → decrement_balance w i q db.balances ≡ some rows
      → find_first (at w i) rows ≡ some b
      → (b.quantity ≡ on_hand w i db +ℤ (pos 0 -ℤ q)) × (b.quantity +ℤ q ≡ on_hand w i db)
  decrement-read b h found =
      let (shift, _) = decrement-Shifts h in
      let read : b.quantity ≡ on_hand w i db +ℤ (pos 0 -ℤ q) =
        ap quantity_of (sym found) ∙ shift w i ∙ ground arith in
      (read, rw read (omega int_laws))

module _ (ctx : StockChangeContext) (type : MovementType) where
  deduct_positive-Journal :
      (lines : ℕ) (x : StockChangeItem) (db : Database)
      → Ensures (λ r. Journal r.0 db r.1) (deduct_positive ctx type lines x db)
  unfolding deduct_positive
  deduct_positive-Journal lines x db = Ensures-bind λ s es. Ensures-bind λ rows er.
      Ensures-bind λ b eb. Ensures-bind λ md em.
        let w = ctx.warehouse_id in
        let i = x.stock_item_id in
        let took = or_fail-eq-ok _ _ er in
        let (shift, enough) = decrement-Shifts w i x.quantity db rows took in
        let (after, before) = decrement-read w i x.quantity db rows b took (or_fail-eq-ok _ _ eb) in
        returns (
          one_posting w i (pos 0 -ℤ x.quantity) md.0 db md.1
            (create_movement-Posts ctx type _ i _ _ _ db rows shift before after md em) enough)

  pub deduct_item-Journal :
      (lines : ℕ) (x : StockChangeItem) (db : Database)
      → Ensures (λ r. Journal r.0 db r.1) (deduct_item ctx type lines x db)
  unfolding deduct_item
  deduct_item-Journal lines x db = elim (Bool-cases (leb_ℤ x.quantity (pos 0))) [
    | inl skip ↦ rw skip (returns (kept (Keeps-refl db)))
    | inr more ↦ rw more (deduct_positive-Journal lines x db)
  ]

  deduct_items-Journal :
      (lines : ℕ) (xs : List StockChangeItem) (db : Database)
      → Ensures (λ r. Journal r.0 db r.1) (deduct_items ctx type lines xs db)
  unfolding deduct_items
  deduct_items-Journal lines [] db = returns (kept (Keeps-refl db))
  deduct_items-Journal lines (x ∷ xs) db = Ensures-call (deduct_item-Journal lines x db) λ r first.
      Ensures-call (deduct_items-Journal lines xs r.1) λ s rest. returns (Journal-append first rest)

  -- A deduction that succeeds has posted exactly the movements that it returns, in their order:
  -- each changes one quantity, leaves it at zero or more, and says from what to what.
  pub atomic_deduct-Journal :
      (items : List StockChangeItem) (db : Database)
      → Ensures (λ r. Journal r.0 db r.1) (atomic_deduct ctx type items db)
  unfolding atomic_deduct
  atomic_deduct-Journal items db = deduct_items-Journal _ (normalize_items items) db
