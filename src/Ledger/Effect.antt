-- ===== src/Ledger/Effect.antt =====
-- What `atomicDeduct` and `atomicAdd` do to every quantity, by what the request asks for altogether.
use stock_pilot_be.Prelude.{
  ℕ, ◌≡◌, ◌&&◌, Bool, true, false, List, [], ◌∷◌, ◌++◌, arith, ◌==◌, if◌then◌else◌, ◌∙◌,
}
use stock_pilot_be.Prelude.Int.{ℤ, pos, ◌+ℤ◌, ◌-ℤ◌, ◌≤ℤ◌, ◌<ℤ◌, leb_ℤ, int_laws, +ℤ_zero}
use stock_pilot_be.Prelude.Result.{
  Ensures, Ensures-bind, Ensures-call, Ensures-map, Ensures-both, returns,
}
use stock_pilot_be.Schema.{Database, StockMovement, MovementType}
use stock_pilot_be.Ledger.{
  StockChangeContext, StockChangeItem, deduct_item, deduct_items, atomic_deduct, add_item,
  add_items, atomic_add, normalize_items,
}
use stock_pilot_be.Ledger.Normalize.{
  requested, requested-normalize, IsPositive, normalize-IsPositive,
}
use stock_pilot_be.Ledger.Posting.{
  Journal-on_hand, on_hand, moved, moved-append, IsStocked, Journal-IsStocked,
}
use stock_pilot_be.Ledger.Write.{create_movement-placed}
use stock_pilot_be.Ledger.Deduct.{atomic_deduct-Journal}
use stock_pilot_be.Ledger.Add.{atomic_add-Journal}

-- The movements take what `xs` asks for from the warehouse's items, and nothing else.
abbrev pub Takes : ℕ → List StockChangeItem → List StockMovement → Type 0
Takes w xs ms = (u j : ℕ) → moved u j ms ≡ (if w == u then pos 0 -ℤ requested j xs else pos 0)

abbrev Gives : ℕ → List StockChangeItem → List StockMovement → Type 0
Gives w xs ms = (u j : ℕ) → moved u j ms ≡ (if w == u then requested j xs else pos 0)

-- The movement is one of the warehouse's and the item's, by `q`.
abbrev IsPlaced : ℕ → ℕ → ℤ → StockMovement → Type 0
IsPlaced w i q m = (m.warehouse_id ≡ w) × (m.stock_item_id ≡ i) × (m.delta ≡ q)

moved_one :
    (w i : ℕ) (q : ℤ) (m : StockMovement) (u j : ℕ)
    → IsPlaced w i q m
    → moved u j (m ∷ []) ≡ (if w == u && i == j then q else pos 0)
moved_one w i q m u j h = ground (arith, +ℤ_zero q, +ℤ_zero (pos 0))

Takes-one :
    (w : ℕ) (x : StockChangeItem) (m : StockMovement)
    → IsPlaced w x.stock_item_id (pos 0 -ℤ x.quantity) m
    → Takes w (x ∷ []) (m ∷ [])
Takes-one w x m h u j =
    moved_one w x.stock_item_id (pos 0 -ℤ x.quantity) m u j h
    ∙ ground (arith, +ℤ_zero x.quantity, +ℤ_zero (pos 0), nothing)
  where
    nothing : pos 0 -ℤ pos 0 ≡ pos 0
    nothing = omega int_laws

Takes-append :
    (w : ℕ) (x : StockChangeItem) (xs : List StockChangeItem) (ms ns : List StockMovement)
    → Takes w (x ∷ []) ms
    → Takes w xs ns
    → Takes w (x ∷ xs) (ms ++ ns)
Takes-append w x xs ms ns h k u j = rw (moved-append u j ms ns, h u j, k u j) (split (w == u))
  where
    split :
        (b : Bool)
        → (if b then pos 0 -ℤ requested j (x ∷ []) else pos 0)
            +ℤ (if b then pos 0 -ℤ requested j xs else pos 0)
          ≡ (if b then pos 0 -ℤ requested j (x ∷ xs) else pos 0)
    split true = omega int_laws
    split false = omega int_laws

Gives-append :
    (w : ℕ) (x : StockChangeItem) (xs : List StockChangeItem) (ms ns : List StockMovement)
    → Gives w (x ∷ []) ms
    → Gives w xs ns
    → Gives w (x ∷ xs) (ms ++ ns)
Gives-append w x xs ms ns h k u j = rw (moved-append u j ms ns, h u j, k u j) (split (w == u))
  where
    split :
        (b : Bool)
        → (if b then requested j (x ∷ []) else pos 0) +ℤ (if b then requested j xs else pos 0)
          ≡ (if b then requested j (x ∷ xs) else pos 0)
    split true = omega int_laws
    split false = omega int_laws

Gives-one :
    (w : ℕ) (x : StockChangeItem) (m : StockMovement)
    → IsPlaced w x.stock_item_id x.quantity m
    → Gives w (x ∷ []) (m ∷ [])
Gives-one w x m h u j =
    moved_one w x.stock_item_id x.quantity m u j h
    ∙ ground (arith, +ℤ_zero x.quantity, +ℤ_zero (pos 0))

pub more_than_nothing : (q : ℤ) → pos 0 <ℤ q → leb_ℤ q (pos 0) ≡ false
more_than_nothing q h = ground arith

module _ (ctx : StockChangeContext) (type : MovementType) where
  pub deduct_item-Takes :
      (lines : ℕ) (x : StockChangeItem) (db : Database)
      → pos 0 <ℤ x.quantity
      → Ensures (λ r. Takes ctx.warehouse_id (x ∷ []) r.0) (deduct_item ctx type lines x db)
  unfolding deduct_item
  deduct_item-Takes lines x db h = rw (more_than_nothing x.quantity h) (
      Ensures-bind λ s es. Ensures-bind λ rows er. Ensures-bind λ b eb.
        Ensures-call (create_movement-placed ctx type _ x.stock_item_id _ _ _ _)
          λ md placed. returns (Takes-one ctx.warehouse_id x md.0 placed))

  deduct_items-Takes :
      (lines : ℕ) (xs : List StockChangeItem) (db : Database)
      → IsPositive xs
      → Ensures (λ r. Takes ctx.warehouse_id xs r.0) (deduct_items ctx type lines xs db)
  unfolding deduct_items
  deduct_items-Takes lines [] db h = returns (λ u j. ground (arith, nothing))
    where
      nothing : pos 0 -ℤ pos 0 ≡ pos 0
      nothing = omega int_laws
  deduct_items-Takes lines (x ∷ xs) db h =
      Ensures-call (deduct_item-Takes lines x db h.0) λ r first.
        Ensures-call (deduct_items-Takes lines xs r.1 h.1)
          λ s rest. returns (Takes-append ctx.warehouse_id x xs r.0 s.0 first rest)

  add_item-Gives :
      (lines : ℕ) (x : StockChangeItem) (db : Database)
      → pos 0 <ℤ x.quantity
      → Ensures (λ r. Gives ctx.warehouse_id (x ∷ []) r.0) (add_item ctx type lines x db)
  unfolding add_item
  add_item-Gives lines x db h = rw (more_than_nothing x.quantity h) (
      Ensures-bind λ s es. Ensures-bind λ b eb.
        Ensures-call (create_movement-placed ctx type _ x.stock_item_id _ _ _ _)
          λ md placed. returns (Gives-one ctx.warehouse_id x md.0 placed))

  add_items-Gives :
      (lines : ℕ) (xs : List StockChangeItem) (db : Database)
      → IsPositive xs
      → Ensures (λ r. Gives ctx.warehouse_id xs r.0) (add_items ctx type lines xs db)
  unfolding add_items
  add_items-Gives lines [] db h = returns (λ u j. ground arith)
  add_items-Gives lines (x ∷ xs) db h = Ensures-call (add_item-Gives lines x db h.0) λ r first.
      Ensures-call (add_items-Gives lines xs r.1 h.1)
        λ s rest. returns (Gives-append ctx.warehouse_id x xs r.0 s.0 first rest)

  -- A deduction of positive quantities that succeeds has taken from each item of the warehouse
  -- what the lines ask for altogether, however often the item is listed, and every other quantity
  -- is what it was.
  pub atomic_deduct-on_hand :
      (items : List StockChangeItem) (db : Database)
      → IsPositive items
      → Ensures
          (λ r.
            (u j : ℕ)
            → on_hand u j r.1
              ≡ on_hand u j db
                +ℤ (if ctx.warehouse_id == u then pos 0 -ℤ requested j items else pos 0))
          (atomic_deduct ctx type items db)
  unfolding atomic_deduct
  atomic_deduct-on_hand items db h =
      Ensures-map
        (Ensures-both (atomic_deduct-Journal ctx type items db)
          (deduct_items-Takes _ (normalize_items items) db (normalize-IsPositive items h)))
        λ r both u j. Journal-on_hand u j both.0 ∙ rw (both.1 u j, requested-normalize j items)

  -- Where no quantity is negative, an addition of positive quantities that succeeds has given each
  -- item of the warehouse what the lines name altogether, and every other quantity is what it was.
  pub atomic_add-on_hand :
      (items : List StockChangeItem) (db : Database)
      → IsPositive items
      → IsStocked db
      → Ensures
          (λ r.
            (u j : ℕ)
            → on_hand u j r.1
              ≡ on_hand u j db +ℤ (if ctx.warehouse_id == u then requested j items else pos 0))
          (atomic_add ctx type items db)
  unfolding atomic_add
  atomic_add-on_hand items db h stocked =
      Ensures-map
        (Ensures-both (atomic_add-Journal ctx type items db stocked)
          (add_items-Gives _ (normalize_items items) db (normalize-IsPositive items h)))
        λ r both u j. Journal-on_hand u j both.0 ∙ rw (both.1 u j, requested-normalize j items)

  -- Nothing is oversold: where no quantity is negative, a deduction of positive quantities that
  -- succeeds asked for no more of any item than was on hand.
  pub atomic_deduct_within :
      (items : List StockChangeItem) (db : Database)
      → IsPositive items
      → IsStocked db
      → Ensures
          (λ r. (j : ℕ) → requested j items ≤ℤ on_hand ctx.warehouse_id j db)
          (atomic_deduct ctx type items db)
  atomic_deduct_within items db h stocked =
      Ensures-map
        (Ensures-both (atomic_deduct-Journal ctx type items db) (atomic_deduct-on_hand items db h))
        λ r both j.
          covered (on_hand ctx.warehouse_id j db) (requested j items)
            (on_hand ctx.warehouse_id j r.1) (both.1 ctx.warehouse_id j ∙ ground arith)
            (Journal-IsStocked both.0 stocked ctx.warehouse_id j)
    where
      covered :
          (held asked left : ℤ) → left ≡ held +ℤ (pos 0 -ℤ asked) → pos 0 ≤ℤ left → asked ≤ℤ held
      covered held asked left e h =
          let h' : pos 0 ≤ℤ held +ℤ (pos 0 -ℤ asked) = rw (← e) h in omega int_laws
