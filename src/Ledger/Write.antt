-- ===== src/Ledger/Write.antt =====
-- The write of one balance row with its movement, in stock-ledger.service.ts.
use Prim.Native.String.{String}
use stock_pilot_be.Prelude.{
  ℕ, ◌≡◌, refl, ◌&&◌, Option, List, [], ◌∷◌, arith, ◌==◌, if◌then◌else◌, Option-cases, inl, inr,
}
use stock_pilot_be.Prelude.Int.{ℤ, pos, ◌+ℤ◌, ◌≤ℤ◌}
use stock_pilot_be.Prelude.Rows.{find_first}
use stock_pilot_be.Prelude.Result.{ok, Ensures, returns, fails}
use stock_pilot_be.Schema.{Database, InventoryBalance, StockMovement, MovementType}
use stock_pilot_be.Ledger.{StockChangeContext, create_movement, has_key}
use stock_pilot_be.Ledger.Balances.{quantity_at}
use stock_pilot_be.Ledger.Posting.{Posts, Journal, posted, kept, Keeps-refl, on_hand}

-- The rows differ from the database's in the quantity of one row, which has moved by `q`.
abbrev pub Shifts : ℕ → ℕ → ℤ → Database → List InventoryBalance → Type 0
Shifts w i q db rows =
    (u j : ℕ)
    → quantity_at u j rows ≡ (if w == u && i == j then on_hand w i db +ℤ q else on_hand u j db)

module _ (ctx : StockChangeContext) (type : MovementType) (key : Option String) (item : ℕ)
    (delta before after : ℤ) (db : Database) (rows : List InventoryBalance) where
  pub create_movement-Posts :
      Shifts ctx.warehouse_id item delta db rows
      → before ≡ on_hand ctx.warehouse_id item db
      → after ≡ on_hand ctx.warehouse_id item db +ℤ delta
      → (r : StockMovement × Database)
      → create_movement ctx type key item delta before after (record db { balances = rows }) ≡ ok r
      → Posts ctx.warehouse_id item delta r.0 db r.1
  unfolding create_movement
  create_movement-Posts shift eb ea (m, db') e =
      elim (Option-cases (find_first (has_key key) db.movements)) [
        | inr (old, clash) ↦ ground arith
        | inl fresh ↦ record {
          movements = ground arith;
          warehouse = ground arith;
          item = ground arith;
          delta = ground arith;
          before = ground arith;
          after = ground arith;
          balances = λ u j. ground (arith, shift u j);
        }
      ]

module _ (ctx : StockChangeContext) (type : MovementType) where
  -- A movement has the place and the delta that the call gives.
  pub create_movement-placed :
      (key : Option String) (item : ℕ) (delta before after : ℤ) (db : Database)
      → Ensures
          (λ r.
            (r.0.warehouse_id ≡ ctx.warehouse_id)
            × (r.0.stock_item_id ≡ item)
            × (r.0.delta ≡ delta))
          (create_movement ctx type key item delta before after db)
  unfolding create_movement
  create_movement-placed key item delta before after db =
      elim (Option-cases (find_first (has_key key) db.movements)) [
        | inr (old, clash) ↦ rw (clash, create_movement) fails
        | inl fresh ↦ rw (fresh, create_movement) (returns (refl, refl, refl))
      ]

-- A single posting.
pub one_posting :
    (w i : ℕ) (q : ℤ) (m : StockMovement) (a b : Database)
    → Posts w i q m a b
    → pos 0 ≤ℤ on_hand w i a +ℤ q
    → Journal (m ∷ []) a b
one_posting w i q m a b p h = posted p h (kept (Keeps-refl b))
