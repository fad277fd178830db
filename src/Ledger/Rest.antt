-- ===== src/Ledger/Rest.antt =====
-- The tables that the methods of stock-ledger.service.ts have nothing to do with.
use Prim.Native.String.{String}
use stock_pilot_be.Prelude.{
  ℕ, ◌≡◌, refl, Option, List, [], ◌∷◌, ◌∙◌, Bool-cases, Option-cases, inl, inr,
}
use stock_pilot_be.Prelude.Int.{ℤ, pos, leb_ℤ}
use stock_pilot_be.Prelude.Rows.{find_first}
use stock_pilot_be.Prelude.Result.{Ensures, Ensures-bind, Ensures-call, returns, fails}
use stock_pilot_be.Schema.{Database, MovementType}
use stock_pilot_be.Ledger.{
  StockChangeContext, StockChangeItem, has_key, create_movement, deduct_item, deduct_items,
  atomic_deduct, add_item, add_items, atomic_add, normalize_items,
}

-- A database less its stock.
abbrev pub rest : Database → Database
rest db = record db { next_id = 0; balances = []; movements = [] }

module _ (ctx : StockChangeContext) (type : MovementType) where
  pub create_movement-rest :
      (key : Option String) (item : ℕ) (delta before after : ℤ) (db : Database)
      → Ensures (λ r. rest r.1 ≡ rest db) (create_movement ctx type key item delta before after db)
  unfolding create_movement
  create_movement-rest key item delta before after db =
      elim (Option-cases (find_first (has_key key) db.movements)) [
        | inr (old, clash) ↦ rw (clash, create_movement) fails
        | inl fresh ↦ rw (fresh, create_movement) (returns refl)
      ]

  pub deduct_item-rest :
      (lines : ℕ) (x : StockChangeItem) (db : Database)
      → Ensures (λ r. rest r.1 ≡ rest db) (deduct_item ctx type lines x db)
  unfolding deduct_item
  deduct_item-rest lines x db = elim (Bool-cases (leb_ℤ x.quantity (pos 0))) [
    | inl skip ↦ rw skip (returns refl)
    | inr more ↦ rw more (
        Ensures-bind λ s es. Ensures-bind λ rows er.
          Ensures-bind
            λ b eb. Ensures-call (create_movement-rest _ _ _ _ _ _) λ r kept. returns kept)
  ]

  deduct_items-rest :
      (lines : ℕ) (xs : List StockChangeItem) (db : Database)
      → Ensures (λ r. rest r.1 ≡ rest db) (deduct_items ctx type lines xs db)
  unfolding deduct_items
  deduct_items-rest lines [] db = returns refl
  deduct_items-rest lines (x ∷ xs) db =
      Ensures-call (deduct_item-rest lines x db) λ r first.
        Ensures-call (deduct_items-rest lines xs r.1) λ s second. returns (second ∙ first)

  pub atomic_deduct-rest :
      (items : List StockChangeItem) (db : Database)
      → Ensures (λ r. rest r.1 ≡ rest db) (atomic_deduct ctx type items db)
  unfolding atomic_deduct
  atomic_deduct-rest items db = deduct_items-rest _ (normalize_items items) db

  add_item-rest :
      (lines : ℕ) (x : StockChangeItem) (db : Database)
      → Ensures (λ r. rest r.1 ≡ rest db) (add_item ctx type lines x db)
  unfolding add_item
  add_item-rest lines x db = elim (Bool-cases (leb_ℤ x.quantity (pos 0))) [
    | inl skip ↦ rw skip (returns refl)
    | inr more ↦ rw more (
        Ensures-bind λ s es.
          Ensures-bind
            λ b eb. Ensures-call (create_movement-rest _ _ _ _ _ _) λ r kept. returns kept)
  ]

  add_items-rest :
      (lines : ℕ) (xs : List StockChangeItem) (db : Database)
      → Ensures (λ r. rest r.1 ≡ rest db) (add_items ctx type lines xs db)
  unfolding add_items
  add_items-rest lines [] db = returns refl
  add_items-rest lines (x ∷ xs) db =
      Ensures-call (add_item-rest lines x db)
        λ r first. Ensures-call (add_items-rest lines xs r.1) λ s second. returns (second ∙ first)

  pub atomic_add-rest :
      (items : List StockChangeItem) (db : Database)
      → Ensures (λ r. rest r.1 ≡ rest db) (atomic_add ctx type items db)
  unfolding atomic_add
  atomic_add-rest items db = add_items-rest _ (normalize_items items) db
