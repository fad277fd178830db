-- ===== src/Ledger/Balances.antt =====
-- The rows of `inventory_balances` by their unique key, warehouse and stock item, and what a write
-- to one row does to the quantity of every row.
use stock_pilot_be.Prelude.{
  ℕ, ◌≡◌, ◌&&◌, Bool, Option, none, some, List, [], ◌∷◌, arith, ◌==◌, if◌then◌else◌, Bool-cases,
  inl, inr,
}
use stock_pilot_be.Prelude.Int.{ℤ, pos}
use stock_pilot_be.Prelude.Rows.{find_first, update_first}
use stock_pilot_be.Schema.{InventoryBalance}

-- `where: { warehouseId_stockItemId }`
abbrev pub at : ℕ → ℕ → InventoryBalance → Bool
at warehouse item b = b.warehouse_id == warehouse && b.stock_item_id == item

abbrev pub quantity_of : Option InventoryBalance → ℤ
quantity_of none = pos 0
quantity_of (some b) = b.quantity

-- The stock on hand: a missing row counts as zero.
abbrev pub quantity_at : ℕ → ℕ → List InventoryBalance → ℤ
quantity_at w i rows = quantity_of (find_first (at w i) rows)

-- `upsert`: writes the row of the key, or adds one at the end.
abbrev pub upsert :
    ℕ
    → ℕ
    → InventoryBalance
    → (InventoryBalance → InventoryBalance)
    → List InventoryBalance
    → List InventoryBalance
upsert w i new f [] = new ∷ []
upsert w i new f (b ∷ rows) = if at w i b then f b ∷ rows else b ∷ upsert w i new f rows

-- A write that sets the quantity of one row.
pub quantity_at-update :
    (w i u j : ℕ) (f : InventoryBalance → InventoryBalance) (b : InventoryBalance)
    → ((x : InventoryBalance) → at u j (f x) ≡ at u j x)
    → (rows : List InventoryBalance) → find_first (at w i) rows ≡ some b
    → quantity_at u j (update_first (at w i) f rows)
      ≡ (if w == u && i == j then (f b).quantity else quantity_at u j rows)
quantity_at-update w i u j f b keeps [] e = cc
quantity_at-update w i u j f b keeps (x ∷ rows) e =
    ground (arith, keeps x, quantity_at-update w i u j f b keeps rows)

pub find_first-update :
    (w i : ℕ) (f : InventoryBalance → InventoryBalance) (b : InventoryBalance)
    → ((x : InventoryBalance) → at w i (f x) ≡ at w i x)
    → (rows : List InventoryBalance) → find_first (at w i) rows ≡ some b
    → find_first (at w i) (update_first (at w i) f rows) ≡ some (f b)
find_first-update w i f b keeps [] e = cc
find_first-update w i f b keeps (x ∷ rows) e =
    ground (arith, keeps x, find_first-update w i f b keeps rows)

-- The quantities after an upsert: the row's new one, or the new row's.
abbrev pub upserted :
    InventoryBalance → (InventoryBalance → InventoryBalance) → Option InventoryBalance → ℤ
upserted new f none = new.quantity
upserted new f (some b) = (f b).quantity

pub quantity_at-upsert :
    (w i u j : ℕ) (new : InventoryBalance) (f : InventoryBalance → InventoryBalance)
    → ((x : InventoryBalance) → at u j (f x) ≡ at u j x)
    → new.warehouse_id ≡ w
    → new.stock_item_id ≡ i
    → (rows : List InventoryBalance)
    → quantity_at u j (upsert w i new f rows) ≡ (
        if w == u && i == j
        then upserted new f (find_first (at w i) rows)
        else quantity_at u j rows)
quantity_at-upsert w i u j new f keeps ew ei [] = ground arith
quantity_at-upsert w i u j new f keeps ew ei (x ∷ rows) =
    ground (arith, keeps x, quantity_at-upsert w i u j new f keeps ew ei rows)

-- After an upsert the row is there.
pub find_first-upsert :
    (w i : ℕ) (new : InventoryBalance) (f : InventoryBalance → InventoryBalance)
    → ((x : InventoryBalance) → at w i (f x) ≡ at w i x)
    → new.warehouse_id ≡ w
    → new.stock_item_id ≡ i
    → (rows : List InventoryBalance)
    → (b : InventoryBalance) × (find_first (at w i) (upsert w i new f rows) ≡ some b)
find_first-upsert w i new f keeps ew ei [] = (new, ground arith)
find_first-upsert w i new f keeps ew ei (x ∷ rows) = elim (Bool-cases (at w i x)) [
  | inl e ↦ (f x, rw e (rw (keeps x, e)))
  | inr e ↦ let (b, h) = find_first-upsert w i new f keeps ew ei rows in (b, rw e (rw e h))
]
