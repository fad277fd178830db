-- ===== src/Pos/Sale.antt =====
-- The lines of a sale at the counter: pos.service.ts.
use stock_pilot_be.Prelude.{
  ℕ, ◌≡◌, ◌&&◌, Option, none, some, List, [], ◌∷◌, map, ◌==◌, if◌then◌else◌, sym, ◌∙◌,
}
use stock_pilot_be.Prelude.Int.{ℤ, pos, ◌+ℤ◌, ◌-ℤ◌, ◌*ℤ◌, leb_ℤ, int_laws, +ℤ_assoc}
use stock_pilot_be.Prelude.Rows.{find_first}
use stock_pilot_be.Prelude.Result.{Result, ok, ◌>>=◌, or_fail, internal}
use stock_pilot_be.Schema.{StockItem}
use stock_pilot_be.Ledger.{StockChangeItem}
use stock_pilot_be.Orders.Draft.{Decimals, RawLine, sum_ℤ, IsExact}

-- `price` is the item's `price`, or its `unitPrice` where it has none.
pub record PosItem : Type 0 where
  pub stock_item_id : ℕ
  pub quantity : ℤ
  pub price : Option ℤ

abbrev pub pos_items : List PosItem → List StockChangeItem
pos_items = map (λ i. record { stock_item_id = i.stock_item_id; quantity = i.quantity })

-- `customPriceMap`: of several prices for one item the last holds; a negative one is passed over.
unfoldable pub custom_price : ℕ → Option ℤ → List PosItem → Option ℤ
custom_price id known [] = known
custom_price id known (i ∷ is) =
    custom_price id
      (elim i.price [
        | none ↦ known
        | some p ↦ if i.stock_item_id == id && leb_ℤ (pos 0) p then some p else known
      ])
      is

abbrev price_or : Option ℤ → ℤ → ℤ
price_or none listed = listed
price_or (some p) listed = p

unfoldable pub pos_lines :
    Decimals → List PosItem → List StockItem → List StockChangeItem → Result (List RawLine)
unfolding custom_price
pos_lines d asked items [] = ok []
pos_lines d asked items (x ∷ xs) = do
  s ← or_fail (find_first (λ s. s.id == x.stock_item_id) items) internal
  let unit_price = price_or (custom_price x.stock_item_id none asked) s.selling_price
  rest ← pos_lines d asked items xs
  ok (
      record {
        stock_item = s;
        quantity = x.quantity;
        unit_price = unit_price;
        cost_price = s.cost_price;
        line_subtotal = d.round (unit_price *ℤ x.quantity);
      }
      ∷ rest)

module _ (d : Decimals) (subtotal discount tax total : ℤ) where
  -- Unlike a draft's, a sale's share is worked out for a subtotal of zero too.
  abbrev pub pos_share : RawLine → ℤ
  pos_share l = d.round (
      l.line_subtotal
      -ℤ d.mul_div_round discount l.line_subtotal subtotal
      +ℤ d.mul_div_round tax l.line_subtotal subtotal)

  unfoldable pub pos_allocate : ℤ → List RawLine → List ℤ
  pos_allocate allocated [] = []
  pos_allocate allocated (l ∷ []) = d.round (total -ℤ allocated) ∷ []
  pos_allocate allocated (l ∷ m ∷ ls) =
      pos_share l ∷ pos_allocate (allocated +ℤ pos_share l) (m ∷ ls)

module _ (d : Decimals) (exact : IsExact d) (subtotal discount tax total : ℤ) where
  pub sum-pos_allocate :
      (allocated : ℤ) (l : RawLine) (ls : List RawLine)
      → allocated +ℤ sum_ℤ (pos_allocate d subtotal discount tax total allocated (l ∷ ls)) ≡ total
  unfolding pos_allocate
  sum-pos_allocate allocated l [] = rw (exact.rounded (total -ℤ allocated)) (omega int_laws)
  sum-pos_allocate allocated l (m ∷ ls) =
      sym (+ℤ_assoc allocated _ _)
      ∙ sum-pos_allocate (allocated +ℤ pos_share d subtotal discount tax total l) m ls
