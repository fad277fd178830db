-- ===== src/Ledger/Normalize.antt =====
-- `StockLedgerService.normalizeItems`: one line for each stock item, in ascending order of its id.
use stock_pilot_be.Prelude.{ℕ, ◌<◌, ◌≡◌, ◌≢◌, refl, List, [], ◌∷◌, arith, ◌==◌, if◌then◌else◌, All}
use stock_pilot_be.Prelude.Int.{ℤ, pos, ◌+ℤ◌, ◌<ℤ◌, int_laws}
use stock_pilot_be.Prelude.Sort.{insert_by, sort_by, All-insert_by, All-sort_by}

pub record StockChangeItem : Type 0 where
  pub stock_item_id : ℕ
  pub quantity : ℤ

-- `map.set(id, (map.get(id) || 0) + quantity)`: a new key goes behind the others.
unfoldable pub add_to : ℕ → ℤ → List StockChangeItem → List StockChangeItem
add_to i q [] = record { stock_item_id = i; quantity = pos 0 +ℤ q } ∷ []
add_to i q (x ∷ xs) =
    if x.stock_item_id == i then record x { quantity = x.quantity +ℤ q } ∷ xs else x ∷ add_to i q xs

unfoldable pub aggregate : List StockChangeItem → List StockChangeItem → List StockChangeItem
unfolding add_to
aggregate acc [] = acc
aggregate acc (x ∷ xs) = aggregate (add_to x.stock_item_id x.quantity acc) xs

unfoldable pub normalize_items : List StockChangeItem → List StockChangeItem
unfolding aggregate
normalize_items items = sort_by (λ x. x.stock_item_id) (aggregate [] items)

-- What the lines ask of one stock item altogether.
abbrev pub requested : ℕ → List StockChangeItem → ℤ
requested i [] = pos 0
requested i (x ∷ xs) = (if x.stock_item_id == i then x.quantity else pos 0) +ℤ requested i xs

requested-add_to :
    (i j : ℕ) (q : ℤ) (xs : List StockChangeItem)
    → requested i (add_to j q xs) ≡ (if j == i then q else pos 0) +ℤ requested i xs
unfolding add_to
requested-add_to i j q [] = grind int_laws
requested-add_to i j q (x ∷ xs) = grind (int_laws, requested-add_to i j q xs)

requested-aggregate :
    (i : ℕ) (acc xs : List StockChangeItem)
    → requested i (aggregate acc xs) ≡ requested i acc +ℤ requested i xs
unfolding aggregate
requested-aggregate i acc [] = grind int_laws
requested-aggregate i acc (x ∷ xs) = grind (
  int_laws,
  requested-aggregate i (add_to x.stock_item_id x.quantity acc) xs,
  requested-add_to i x.stock_item_id x.quantity acc,
)

requested-insert :
    (i : ℕ) (a : StockChangeItem) (xs : List StockChangeItem)
    → requested i (insert_by (λ x. x.stock_item_id) a xs) ≡ requested i (a ∷ xs)
requested-insert i a [] = refl
requested-insert i a (x ∷ xs) = grind (int_laws, requested-insert i a xs)

requested-sort :
    (i : ℕ) (xs : List StockChangeItem)
    → requested i (sort_by (λ x. x.stock_item_id) xs) ≡ requested i xs
requested-sort i [] = refl
requested-sort i (x ∷ xs) =
    grind (int_laws, requested-insert i x (sort_by (λ x. x.stock_item_id) xs), requested-sort i xs)

-- Normalising loses and adds nothing: of every stock item the normalised lines ask for what the
-- given lines ask for altogether.
pub requested-normalize :
    (i : ℕ) (items : List StockChangeItem) → requested i (normalize_items items) ≡ requested i items
unfolding normalize_items
requested-normalize i items =
    grind (int_laws, requested-sort i (aggregate [] items), requested-aggregate i [] items)

-- No line is for the item `i`.
abbrev pub IsAbsent : ℕ → List StockChangeItem → Type 0
IsAbsent i = All (λ x. x.stock_item_id ≢ i)

-- No item has two lines.
abbrev IsDistinct : List StockChangeItem → Type 0
IsDistinct [] = Unit
IsDistinct (x ∷ xs) = IsAbsent x.stock_item_id xs × IsDistinct xs

-- Every line is for an item above `n`.
abbrev pub IsAbove : ℕ → List StockChangeItem → Type 0
IsAbove n = All (λ x. n < x.stock_item_id)

-- The items strictly ascend: rows are locked in one global order.
abbrev pub IsAscending : List StockChangeItem → Type 0
IsAscending [] = Unit
IsAscending (x ∷ xs) = IsAbove x.stock_item_id xs × IsAscending xs

add_to-IsAbsent :
    (i j : ℕ) (q : ℤ) (xs : List StockChangeItem)
    → j ≢ i
    → IsAbsent i xs
    → IsAbsent i (add_to j q xs)
unfolding add_to
add_to-IsAbsent i j q [] ne h = (ne, tt)
add_to-IsAbsent i j q (x ∷ xs) ne h = ground (arith, add_to-IsAbsent i j q xs ne h.1)

add_to-IsDistinct :
    (j : ℕ) (q : ℤ) (xs : List StockChangeItem) → IsDistinct xs → IsDistinct (add_to j q xs)
unfolding add_to
add_to-IsDistinct j q [] h = (tt, tt)
add_to-IsDistinct j q (x ∷ xs) h =
    ground (arith, add_to-IsDistinct j q xs h.1, add_to-IsAbsent x.stock_item_id j q xs)

aggregate-IsDistinct :
    (acc xs : List StockChangeItem) → IsDistinct acc → IsDistinct (aggregate acc xs)
unfolding aggregate
aggregate-IsDistinct acc [] h = h
aggregate-IsDistinct acc (x ∷ xs) h =
    aggregate-IsDistinct (add_to x.stock_item_id x.quantity acc) xs
      (add_to-IsDistinct x.stock_item_id x.quantity acc h)

IsAbove-mono : (m n : ℕ) (xs : List StockChangeItem) → m < n → IsAbove n xs → IsAbove m xs
IsAbove-mono m n [] lt h = tt
IsAbove-mono m n (x ∷ xs) lt h = (omega arith, IsAbove-mono m n xs lt h.1)

insert-IsAscending :
    (a : StockChangeItem) (xs : List StockChangeItem)
    → IsAbsent a.stock_item_id xs
    → IsAscending xs
    → IsAscending (insert_by (λ x. x.stock_item_id) a xs)
insert-IsAscending a [] n h = (tt, tt)
insert-IsAscending a (x ∷ xs) n h = ground (
  arith,
  insert-IsAscending a xs n.1 h.1,
  All-insert_by (λ x. x.stock_item_id) (λ y. x.stock_item_id < y.stock_item_id) a xs,
  IsAbove-mono a.stock_item_id x.stock_item_id xs,
)

sort-IsAscending :
    (xs : List StockChangeItem) → IsDistinct xs → IsAscending (sort_by (λ x. x.stock_item_id) xs)
sort-IsAscending [] h = tt
sort-IsAscending (x ∷ xs) h =
    insert-IsAscending x (sort_by (λ x. x.stock_item_id) xs)
      (All-sort_by (λ x. x.stock_item_id) _ xs h.0) (sort-IsAscending xs h.1)

-- The normalised lines have strictly ascending item ids: each item once, and rows written in one
-- order.
pub normalize-IsAscending : (items : List StockChangeItem) → IsAscending (normalize_items items)
unfolding normalize_items
normalize-IsAscending items =
    sort-IsAscending (aggregate [] items) (aggregate-IsDistinct [] items tt)

-- Every line asks for more than nothing.
abbrev pub IsPositive : List StockChangeItem → Type 0
IsPositive = All (λ x. pos 0 <ℤ x.quantity)

add_to-IsPositive :
    (j : ℕ) (q : ℤ) (xs : List StockChangeItem)
    → pos 0 <ℤ q
    → IsPositive xs
    → IsPositive (add_to j q xs)
unfolding add_to
add_to-IsPositive j q [] p h = (grind int_laws, tt)
add_to-IsPositive j q (x ∷ xs) p h = grind (int_laws, add_to-IsPositive j q xs p h.1)

aggregate-IsPositive :
    (acc xs : List StockChangeItem) → IsPositive acc → IsPositive xs → IsPositive (aggregate acc xs)
unfolding aggregate
aggregate-IsPositive acc [] p h = p
aggregate-IsPositive acc (x ∷ xs) p h =
    aggregate-IsPositive (add_to x.stock_item_id x.quantity acc) xs
      (add_to-IsPositive x.stock_item_id x.quantity acc h.0 p) h.1

pub normalize-IsPositive :
    (items : List StockChangeItem) → IsPositive items → IsPositive (normalize_items items)
unfolding normalize_items
normalize-IsPositive items h =
    All-sort_by (λ x. x.stock_item_id) _ _ (aggregate-IsPositive [] items tt h)

-- A request with a line normalises to one with a line.
aggregate-ne : (acc xs : List StockChangeItem) → acc ≢ [] → aggregate acc xs ≢ []
unfolding aggregate
aggregate-ne acc [] h = h
aggregate-ne acc (x ∷ xs) h =
    aggregate-ne (add_to x.stock_item_id x.quantity acc) xs (added x.stock_item_id x.quantity acc)
  where
    added : (i : ℕ) (q : ℤ) (ys : List StockChangeItem) → add_to i q ys ≢ []
    added i q [] e = cc
    added i q (y ∷ ys) e = ground arith

insert-ne :
    (a : StockChangeItem) (xs : List StockChangeItem) → insert_by (λ x. x.stock_item_id) a xs ≢ []
insert-ne a [] e = cc
insert-ne a (x ∷ xs) e = ground arith

pub normalize-ne : (items : List StockChangeItem) → items ≢ [] → normalize_items items ≢ []
unfolding normalize_items
normalize-ne [] h = absurd (h refl)
normalize-ne (x ∷ xs) h = sorted (aggregate [] (x ∷ xs)) (aggregate-ne _ xs (λ e. cc))
  where
    sorted : (ys : List StockChangeItem) → ys ≢ [] → sort_by (λ x. x.stock_item_id) ys ≢ []
    sorted [] h = h
    sorted (y ∷ ys) h = insert-ne y (sort_by (λ x. x.stock_item_id) ys)
