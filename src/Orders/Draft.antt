-- ===== src/Orders/Draft.antt =====
-- `createDraftOrder`: the prices of an order's lines, and the split of its discount and tax over them.
-- Amounts are whole numbers of the smallest unit that the amounts use. The decimal library is a
-- parameter: what it does to divide and to round.
use stock_pilot_be.Prelude.{
  ◌≡◌, ◌≢◌, refl, true, List, [], ◌∷◌, map, arith, ◌==◌, if◌then◌else◌, ap, ◌∙◌, sym,
}
use stock_pilot_be.Prelude.Int.{ℤ, pos, ◌+ℤ◌, ◌-ℤ◌, ◌*ℤ◌, ◌<ℤ◌, ltb_ℤ, int_laws, +ℤ_assoc}
use stock_pilot_be.Prelude.Rows.{find_first}
use stock_pilot_be.Prelude.Result.{Result, ok, ◌>>=◌, or_fail, internal}
use stock_pilot_be.Schema.{StockItem}
use stock_pilot_be.Ledger.{StockChangeItem}

-- `a.mul(b).div(c).toDecimalPlaces(2)` and `a.toDecimalPlaces(2)`, and what a column `DECIMAL(15, 2)`
-- keeps of an amount that is stored. Sums, differences and products by a whole number are exact.
pub record Decimals : Type 0 where
  pub mul_div_round : ℤ → ℤ → ℤ → ℤ
  pub round : ℤ → ℤ
  pub column : ℤ → ℤ

pub record RawLine : Type 0 where
  pub stock_item : StockItem
  pub quantity : ℤ
  pub unit_price : ℤ
  pub cost_price : ℤ
  pub line_subtotal : ℤ

-- `itemMap.get(id)!` and the line's amounts, one line for each aggregated item.
unfoldable pub raw_lines : List StockItem → List StockChangeItem → Result (List RawLine)
raw_lines items [] = ok []
raw_lines items (x ∷ xs) = do
  s ← or_fail (find_first (λ s. s.id == x.stock_item_id) items) internal
  rest ← raw_lines items xs
  ok (
      record {
        stock_item = s;
        quantity = x.quantity;
        unit_price = s.selling_price;
        cost_price = s.cost_price;
        line_subtotal = s.selling_price *ℤ x.quantity;
      }
      ∷ rest)

-- `subtotalAmount` after the loop.
abbrev pub subtotal_of : List RawLine → ℤ
subtotal_of [] = pos 0
subtotal_of (l ∷ ls) = l.line_subtotal +ℤ subtotal_of ls

module _ (d : Decimals) (subtotal discount tax total : ℤ) where
  -- A line's share, but for the last line.
  abbrev pub share : RawLine → ℤ
  share l =
      if ltb_ℤ (pos 0) subtotal
      then d.round (
          l.line_subtotal
          -ℤ d.mul_div_round discount l.line_subtotal subtotal
          +ℤ d.mul_div_round tax l.line_subtotal subtotal)
      else pos 0

  -- The loop over the lines, with the sum allocated so far: the last line takes what is left.
  unfoldable pub allocate : ℤ → List RawLine → List ℤ
  allocate allocated [] = []
  allocate allocated (l ∷ []) = (total -ℤ allocated) ∷ []
  allocate allocated (l ∷ m ∷ ls) = share l ∷ allocate (allocated +ℤ share l) (m ∷ ls)

abbrev pub sum_ℤ : List ℤ → ℤ
sum_ℤ [] = pos 0
sum_ℤ (x ∷ xs) = x +ℤ sum_ℤ xs

module _ (d : Decimals) (subtotal discount tax total : ℤ) where
  -- What has been allocated and what is allocated make up the total.
  sum-allocate :
      (allocated : ℤ) (l : RawLine) (ls : List RawLine)
      → allocated +ℤ sum_ℤ (allocate d subtotal discount tax total allocated (l ∷ ls)) ≡ total
  unfolding allocate
  sum-allocate allocated l [] = omega int_laws
  sum-allocate allocated l (m ∷ ls) =
      sym (+ℤ_assoc allocated _ _)
      ∙ sum-allocate (allocated +ℤ share d subtotal discount tax total l) m ls

  -- However the decimals are rounded, the lines' refundable amounts add up to the order's total.
  pub sum-allocate_all :
      (ls : List RawLine)
      → ls ≢ []
      → sum_ℤ (allocate d subtotal discount tax total (pos 0) ls) ≡ total
  sum-allocate_all [] h = absurd (h refl)
  sum-allocate_all (l ∷ ls) h =
      zero_plus (sum_ℤ (allocate d subtotal discount tax total (pos 0) (l ∷ ls)))
      ∙ sum-allocate (pos 0) l ls
    where
      zero_plus : (q : ℤ) → q ≡ pos 0 +ℤ q
      zero_plus q = omega int_laws

-- Dividing up nothing gives nothing, and an amount with two decimals is its own rounding.
pub record IsExact (d : Decimals) : Type 0 where
  pub nothing : (b c : ℤ) → d.mul_div_round (pos 0) b c ≡ pos 0
  pub rounded : (a : ℤ) → d.round a ≡ a

module _ (d : Decimals) (exact : IsExact d) where
  share_plain :
      (subtotal total : ℤ) (l : RawLine)
      → pos 0 <ℤ subtotal
      → share d subtotal (pos 0) (pos 0) total l ≡ l.line_subtotal
  share_plain subtotal total l more =
      rw (positive subtotal more)
        (rw (exact.nothing l.line_subtotal subtotal, exact.rounded _) (omega int_laws))
    where
      positive : (q : ℤ) → pos 0 <ℤ q → ltb_ℤ (pos 0) q ≡ true
      positive q h = ground arith

  allocate_plain :
      (subtotal total allocated : ℤ) (l : RawLine) (ls : List RawLine)
      → pos 0 <ℤ subtotal
      → total ≡ allocated +ℤ subtotal_of (l ∷ ls)
      → allocate d subtotal (pos 0) (pos 0) total allocated (l ∷ ls)
        ≡ map (λ l. l.line_subtotal) (l ∷ ls)
  unfolding allocate
  allocate_plain subtotal total allocated l [] more e = ap (λ q. q ∷ []) (rw e (omega int_laws))
  allocate_plain subtotal total allocated l (m ∷ ls) more e =
      rw (share_plain subtotal total l more) (
        ap (λ qs. l.line_subtotal ∷ qs)
          (allocate_plain subtotal total (allocated +ℤ l.line_subtotal) m ls more
            (e ∙ sym (+ℤ_assoc allocated _ _))))

  -- Without a discount and a tax, and with a subtotal above zero, every line is refundable at its
  -- own subtotal, the last one too, if the decimals are exact on such amounts.
  pub allocate_undiscounted :
      (ls : List RawLine)
      → pos 0 <ℤ subtotal_of ls
      → allocate d (subtotal_of ls) (pos 0) (pos 0) (subtotal_of ls) (pos 0) ls
        ≡ map (λ l. l.line_subtotal) ls
  unfolding allocate
  allocate_undiscounted [] more = refl
  allocate_undiscounted (l ∷ ls) more =
      allocate_plain (subtotal_of (l ∷ ls)) (subtotal_of (l ∷ ls)) (pos 0) l ls more
        (zero_plus (subtotal_of (l ∷ ls)))
    where
      zero_plus : (q : ℤ) → q ≡ pos 0 +ℤ q
      zero_plus q = omega int_laws
