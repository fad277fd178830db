-- ===== src/Orders/Columns.antt =====
-- The amounts of a draft order that its columns keep as they are: order.service.ts.
use stock_pilot_be.Prelude.{◌≡◌, refl, List, [], ◌∷◌, map, All, Bool-cases, inl, inr, ap, ◌∙◌}
use stock_pilot_be.Prelude.Int.{ℤ, pos, ◌+ℤ◌, ◌-ℤ◌, ◌*ℤ◌, ltb_ℤ}
use stock_pilot_be.Prelude.Rows.{All-find_first}
use stock_pilot_be.Prelude.Result.{Ensures, Ensures-bind, Ensures-call, returns, or_fail-eq-ok}
use stock_pilot_be.Schema.{StockItem}
use stock_pilot_be.Ledger.{StockChangeItem}
use stock_pilot_be.Orders.Draft.{Decimals, RawLine, raw_lines, subtotal_of, allocate, share}
use stock_pilot_be.Orders.Create.{in_columns}

-- The amount has two decimals: its column keeps it.
abbrev pub IsStored : Decimals → ℤ → Type 0
IsStored d a = d.column a ≡ a

-- Amounts with two decimals have sums, differences and multiples with two decimals, and so has what is
-- rounded to two. How many digits a column takes is left out.
pub record HasColumns (d : Decimals) : Type 0 where
  pub nothing : IsStored d (pos 0)
  pub sums : (a b : ℤ) → IsStored d a → IsStored d b → IsStored d (a +ℤ b)
  pub differences : (a b : ℤ) → IsStored d a → IsStored d b → IsStored d (a -ℤ b)
  pub multiples : (a q : ℤ) → IsStored d a → IsStored d (a *ℤ q)
  pub rounded : (a : ℤ) → IsStored d (d.round a)

module _ (d : Decimals) (columns : HasColumns d) where
  abbrev pub AreStored : List RawLine → Type 0
  AreStored = All (λ l. IsStored d l.line_subtotal)

  -- At prices from the table, the subtotals of the lines have two decimals.
  pub raw_lines-AreStored :
      (items : List StockItem) (xs : List StockChangeItem)
      → All (λ s. IsStored d s.selling_price) items
      → Ensures AreStored (raw_lines items xs)
  unfolding raw_lines
  raw_lines-AreStored items [] priced = returns tt
  raw_lines-AreStored items (x ∷ xs) priced = Ensures-bind λ s es.
      Ensures-call (raw_lines-AreStored items xs priced) λ rest stored. returns (
        columns.multiples s.selling_price x.quantity (
            All-find_first (λ s. IsStored d s.selling_price) _ items s priced
              (or_fail-eq-ok _ _ es)),
        stored,
      )

  pub subtotal_of-IsStored : (ls : List RawLine) → AreStored ls → IsStored d (subtotal_of ls)
  subtotal_of-IsStored [] stored = columns.nothing
  subtotal_of-IsStored (l ∷ ls) stored =
      columns.sums l.line_subtotal (subtotal_of ls) stored.0 (subtotal_of-IsStored ls stored.1)

  pub subtotal_of-columns :
      (ls : List RawLine) → AreStored ls → subtotal_of (map (in_columns d) ls) ≡ subtotal_of ls
  subtotal_of-columns [] stored = refl
  subtotal_of-columns (l ∷ ls) stored = rw (stored.0, subtotal_of-columns ls stored.1) refl

  module _ (subtotal discount tax total : ℤ) where
    share-IsStored : (l : RawLine) → IsStored d (share d subtotal discount tax total l)
    share-IsStored l = elim (Bool-cases (ltb_ℤ (pos 0) subtotal)) [
      | inl e ↦ rw e (columns.rounded _)
      | inr e ↦ rw e columns.nothing
    ]

    abbrev others : RawLine → RawLine → List RawLine → ℤ → List ℤ
    others l m ls allocated =
        allocate d subtotal discount tax total (allocated +ℤ share d subtotal discount tax total l)
          (m ∷ ls)

    -- The columns keep every amount that is allocated of a total with two decimals.
    pub allocate-columns :
        (allocated : ℤ) (ls : List RawLine)
        → IsStored d total
        → IsStored d allocated
        → map d.column (allocate d subtotal discount tax total allocated ls)
          ≡ allocate d subtotal discount tax total allocated ls
    unfolding allocate
    allocate-columns allocated [] t a = refl
    allocate-columns allocated (l ∷ []) t a =
        ap (λ q. q ∷ []) (columns.differences total allocated t a)
    allocate-columns allocated (l ∷ m ∷ ls) t a =
        let s = share-IsStored l in
        let rest =
          allocate-columns (allocated +ℤ share d subtotal discount tax total l) (m ∷ ls) t
            (columns.sums allocated _ a s) in
        ap (λ q. q ∷ map d.column (others l m ls allocated)) s
        ∙ ap (λ qs. share d subtotal discount tax total l ∷ qs) rest
