-- ===== src/Ledger/Supply.antt =====
-- `atomicDeduct` of stock-ledger.service.ts where the stock suffices.
use Prim.Native.String.{String}
use stock_pilot_be.Prelude.{
  ℕ, ◌≡◌, refl, Option, none, some, List, [], ◌∷◌, arith, Option-cases, inl, inr, ap, ◌∙◌, sym, All,
  subst,
}
use stock_pilot_be.Prelude.Int.{ℤ, pos, ◌+ℤ◌, ◌-ℤ◌, ◌≤ℤ◌, ◌<ℤ◌, int_laws, +ℤ_zero}
use stock_pilot_be.Prelude.Rows.{find_first, update_first}
use stock_pilot_be.Prelude.Result.{Ensures-ok, IsOk, is_ok, IsOk-bind, IsOk-call, or_fail-some}
use stock_pilot_be.Schema.{Database, StockItem, InventoryBalance, StockMovement, MovementType}
use stock_pilot_be.Ledger.{
  StockChangeContext, StockChangeItem, is_active_item, create_movement, has_key, decrement_balance,
  deduct_positive, deduct_item, deduct_items, atomic_deduct, normalize_items,
}
use stock_pilot_be.Ledger.Balances.{at, find_first-update}
use stock_pilot_be.Ledger.Normalize.{
  requested, requested-normalize, IsPositive, normalize-IsPositive, IsAbove, IsAscending,
  normalize-IsAscending,
}
use stock_pilot_be.Ledger.Posting.{on_hand, moved, Journal, Journal-on_hand}
use stock_pilot_be.Ledger.Rest.{deduct_item-rest}
use stock_pilot_be.Ledger.Deduct.{deduct_item-Journal}
use stock_pilot_be.Ledger.Effect.{Takes, deduct_item-Takes, more_than_nothing}

-- The item exists in the store and is active.
abbrev pub IsActive : ℕ → ℕ → Database → Type 0
IsActive store item db =
    (s : StockItem) × (find_first (is_active_item store item) db.stock_items ≡ some s)

requested_above : (n : ℕ) (xs : List StockChangeItem) → IsAbove n xs → requested n xs ≡ pos 0
requested_above n [] h = refl
requested_above n (x ∷ xs) h = ground (arith, requested_above n xs h.1, +ℤ_zero (pos 0))

-- Every line asks for all that the list asks of its item.
abbrev IsWhole : List StockChangeItem → List StockChangeItem → Type 0
IsWhole all = All (λ y. requested y.stock_item_id all ≡ y.quantity)

IsWhole-cons :
    (x : StockChangeItem) (all ys : List StockChangeItem)
    → IsAbove x.stock_item_id ys
    → IsWhole all ys
    → IsWhole (x ∷ all) ys
IsWhole-cons x all [] a h = tt
IsWhole-cons x all (y ∷ ys) a h =
    (ground (arith, zero_plus (requested y.stock_item_id all)), IsWhole-cons x all ys a.1 h.1)
  where
    zero_plus : (q : ℤ) → pos 0 +ℤ q ≡ q
    zero_plus q = omega int_laws

ascending-IsWhole : (xs : List StockChangeItem) → IsAscending xs → IsWhole xs xs
ascending-IsWhole [] h = tt
ascending-IsWhole (x ∷ xs) h = (
  ground (arith, requested_above x.stock_item_id xs h.0, +ℤ_zero x.quantity),
  IsWhole-cons x xs xs h.0 (ascending-IsWhole xs h.1),
)

decrement_ok :
    (w i : ℕ) (q : ℤ) (b : InventoryBalance) (rows : List InventoryBalance)
    → find_first (at w i) rows ≡ some b
    → q ≤ℤ b.quantity
    → decrement_balance w i q rows
      ≡ some (update_first (at w i) (λ c. record c { quantity = c.quantity -ℤ q }) rows)
unfolding decrement_balance
decrement_ok w i q b rows e h = ground arith

module _ (ctx : StockChangeContext) (type : MovementType) where
  -- A line that the stock covers.
  abbrev IsCovered : Database → StockChangeItem → Type 0
  IsCovered db x =
      IsActive ctx.store_id x.stock_item_id db
      × (x.quantity ≤ℤ on_hand ctx.warehouse_id x.stock_item_id db)

  fresh_key : (ms : List StockMovement) → find_first (has_key none) ms ≡ none
  fresh_key [] = refl
  fresh_key (m ∷ ms) = fresh_key ms

  create_movement-IsOk :
      (key : Option String) (item : ℕ) (delta before after : ℤ) (db : Database)
      → key ≡ none
      → IsOk (create_movement ctx type key item delta before after db)
  unfolding create_movement
  create_movement-IsOk key item delta before after db nokey =
      subst (λ k. IsOk (create_movement ctx type k item delta before after db)) (sym nokey)
        (rw (fresh_key db.movements, create_movement) (is_ok _))

  deduct_positive-IsOk :
      (lines : ℕ) (x : StockChangeItem) (db : Database)
      → ctx.idempotency_key ≡ none
      → pos 0 <ℤ x.quantity
      → IsCovered db x
      → IsOk (deduct_positive ctx type lines x db)
  unfolding deduct_positive
  deduct_positive-IsOk lines x db nokey more covered =
      let w = ctx.warehouse_id in
      let i = x.stock_item_id in
      let (s, active) = covered.0 in
      elim (Option-cases (find_first (at w i) db.balances)) [
        | inl missing ↦ absurd (short missing)
        | inr (b, e) ↦
            let lower : InventoryBalance → InventoryBalance =
              λ c. record c { quantity = c.quantity -ℤ x.quantity } in
            IsOk-bind _ s (or_fail-some _ _ s active) (
              IsOk-bind _ (update_first (at w i) lower db.balances)
                (or_fail-some _ _ _ (decrement_ok w i x.quantity b db.balances e (ground arith)))
                (IsOk-bind _ (lower b)
                  (or_fail-some _ _ _ (find_first-update w i lower b (λ c. refl) db.balances e))
                  (IsOk-call (create_movement-IsOk _ i _ _ _ _ (rw nokey)) λ r er. is_ok _)))
      ]
    where
      short : find_first (at ctx.warehouse_id x.stock_item_id) db.balances ≡ none → ⊥
      short e = ground arith

  deduct_item-IsOk :
      (lines : ℕ) (x : StockChangeItem) (db : Database)
      → ctx.idempotency_key ≡ none
      → pos 0 <ℤ x.quantity
      → IsCovered db x
      → IsOk (deduct_item ctx type lines x db)
  unfolding deduct_item
  deduct_item-IsOk lines x db nokey more covered =
      rw (more_than_nothing x.quantity more) (deduct_positive-IsOk lines x db nokey more covered)

  -- The lines above an item are covered after a round for it as they were before.
  still-IsCovered :
      (x : StockChangeItem) (ys : List StockChangeItem) (ms : List StockMovement)
      (db db' : Database)
      → IsAbove x.stock_item_id ys
      → db'.stock_items ≡ db.stock_items
      → Journal ms db db'
      → Takes ctx.warehouse_id (x ∷ []) ms
      → All (IsCovered db) ys
      → All (IsCovered db') ys
  still-IsCovered x [] ms db db' above same j takes c = tt
  still-IsCovered x (y ∷ ys) ms db db' above same j takes c = (
    ((c.0.0.0, rw same c.0.0.1), rw untouched c.0.1),
    still-IsCovered x ys ms db db' above.1 same j takes c.1,
  )
    where
      nothing : moved ctx.warehouse_id y.stock_item_id ms ≡ pos 0
      nothing = takes ctx.warehouse_id y.stock_item_id ∙ ground (arith, above.0, none_asked)
        where
          none_asked : pos 0 -ℤ (pos 0 +ℤ pos 0) ≡ pos 0
          none_asked = omega int_laws

      untouched :
          on_hand ctx.warehouse_id y.stock_item_id db' ≡ on_hand ctx.warehouse_id y.stock_item_id db
      untouched = Journal-on_hand _ _ j ∙ rw nothing (+ℤ_zero _)

  deduct_items-IsOk :
      (lines : ℕ) (xs : List StockChangeItem) (db : Database)
      → ctx.idempotency_key ≡ none
      → IsPositive xs
      → IsAscending xs
      → All (IsCovered db) xs
      → IsOk (deduct_items ctx type lines xs db)
  unfolding deduct_items
  deduct_items-IsOk lines [] db nokey p a c = is_ok _
  deduct_items-IsOk lines (x ∷ xs) db nokey p a c =
      IsOk-call (deduct_item-IsOk lines x db nokey p.0 c.0) λ r er.
        IsOk-call
          (deduct_items-IsOk lines xs r.1 nokey p.1 a.1 (
            still-IsCovered x xs r.0 db r.1 a.0
              (ap (λ d. d.stock_items) (Ensures-ok (deduct_item-rest ctx type lines x db) er))
              (Ensures-ok (deduct_item-Journal ctx type lines x db) er)
              (Ensures-ok (deduct_item-Takes ctx type lines x db p.0) er) c.1))
          λ s es. is_ok _

  IsCovered-lines :
      (all ys : List StockChangeItem) (db : Database)
      → IsPositive ys
      → IsWhole all ys
      → ((j : ℕ) → pos 0 <ℤ requested j all → IsActive ctx.store_id j db)
      → ((j : ℕ) → requested j all ≤ℤ on_hand ctx.warehouse_id j db)
      → All (IsCovered db) ys
  IsCovered-lines all [] db p whole active enough = tt
  IsCovered-lines all (y ∷ ys) db p whole active enough = (
    (active y.stock_item_id (rw whole.0 p.0), rw (← whole.0) (enough y.stock_item_id)),
    IsCovered-lines all ys db p.1 whole.1 active enough,
  )

  -- A deduction of positive quantities without an idempotency key succeeds whenever the items that
  -- it asks for are active in the store and the warehouse holds as much of each as the lines ask
  -- for altogether.
  pub atomic_deduct-IsOk :
      (items : List StockChangeItem) (db : Database)
      → ctx.idempotency_key ≡ none
      → IsPositive items
      → ((j : ℕ) → pos 0 <ℤ requested j items → IsActive ctx.store_id j db)
      → ((j : ℕ) → requested j items ≤ℤ on_hand ctx.warehouse_id j db)
      → IsOk (atomic_deduct ctx type items db)
  unfolding atomic_deduct
  atomic_deduct-IsOk items db nokey p active enough =
      let lines = normalize_items items in
      let sorted = normalize-IsAscending items in
      let positive = normalize-IsPositive items p in
      deduct_items-IsOk _ lines db nokey positive sorted (
        IsCovered-lines lines lines db positive (ascending-IsWhole lines sorted)
          (λ j h. active j (rw requested-normalize at h))
          (λ j. rw (requested-normalize j items) (enough j)))
