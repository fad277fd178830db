-- ===== src/Pos/Money.antt =====
-- The money of a sale at the counter: pos.service.ts.
use Prim.Native.String.{String}
use stock_pilot_be.Prelude.{
  ℕ, suc, ◌≡◌, ◌≢◌, refl, not, Bool, true, false, Option, List, [], ◌∷◌, ap, ◌∙◌, sym, Option-cases,
  inl, inr,
}
use stock_pilot_be.Prelude.Int.{ℤ, pos, ◌+ℤ◌, ◌-ℤ◌, ◌≤ℤ◌, ltb_ℤ-le, int_laws}
use stock_pilot_be.Prelude.Rows.{find_first}
use stock_pilot_be.Prelude.Result.{
  Result, ensure-eq-ok, Ensures, Ensures-bind, Ensures-call, returns, fails,
}
use stock_pilot_be.Schema.{
  Database, StockItem, Order, OrderItem, OrderStatus, Payment, PaymentMethod, PaymentStatus,
}
use stock_pilot_be.Ledger.{StockChangeItem}
use stock_pilot_be.Ledger.Normalize.{normalize-ne}
use stock_pilot_be.Orders.Draft.{Decimals, RawLine, subtotal_of, sum_ℤ, IsExact}
use stock_pilot_be.Orders.Create.{clashes, IsBalanced}
use stock_pilot_be.Orders.Balance.{
  Paired, none_left, one_more, new_items-refundable, new_items-subtotal,
}
use stock_pilot_be.Pos.{
  CreatePosSaleInput, store_sale, store_payment, is_paid_before, new_payment, confirmed, fulfilled,
  unique_is_conflict, cash_sale, create_cash_sale,
}
use stock_pilot_be.Pos.Sale.{
  PosItem, pos_items, pos_lines, pos_allocate, pos_share, sum-pos_allocate,
}

pub Ensures-unique {ℓ κ} :
    {A : Type ℓ} {P : A → Type κ} {m : Result A} → Ensures P m → Ensures P (unique_is_conflict m)
unfolding unique_is_conflict
Ensures-unique (returns p) = returns p
Ensures-unique fails = fails

pub pos_allocate-Paired :
    (d : Decimals) (subtotal discount tax total allocated : ℤ) (ls : List RawLine)
    → Paired ls (pos_allocate d subtotal discount tax total allocated ls)
unfolding pos_allocate
pos_allocate-Paired d subtotal discount tax total allocated [] = none_left
pos_allocate-Paired d subtotal discount tax total allocated (l ∷ []) = one_more none_left
pos_allocate-Paired d subtotal discount tax total allocated (l ∷ m ∷ ls) = one_more (
    pos_allocate-Paired d subtotal discount tax total
      (allocated +ℤ pos_share d subtotal discount tax total l) (m ∷ ls))

pub pos_lines-ne :
    (d : Decimals) (asked : List PosItem) (items : List StockItem) (xs : List StockChangeItem)
    → xs ≢ []
    → Ensures (λ ls. ls ≢ []) (pos_lines d asked items xs)
unfolding pos_lines
pos_lines-ne d asked items [] h = absurd (h refl)
pos_lines-ne d asked items (x ∷ xs) h =
    Ensures-bind λ s es. Ensures-bind λ rest er. returns (λ e. cc)

-- The order is balanced and fulfilled, and one payment has paid its total.
pub record IsSold (r : ((Order × List OrderItem) × Payment) × Database) : Type 0 where
  pub balanced : IsBalanced r.0.0.0 r.0.0.1
  pub status : r.0.0.0.status ≡ OrderStatus.fulfilled
  pub amount : r.0.1.amount ≡ r.0.0.0.total_amount
  pub paid : r.0.1.status ≡ PaymentStatus.paid

module _ (d : Decimals) (exact : IsExact d) where
  pub sum_of_all :
      (subtotal discount tax total : ℤ) (ls : List RawLine)
      → ls ≢ []
      → sum_ℤ (pos_allocate d subtotal discount tax total (pos 0) ls) ≡ total
  sum_of_all subtotal discount tax total [] h = absurd (h refl)
  sum_of_all subtotal discount tax total (l ∷ ls) h =
      zero_plus (sum_ℤ (pos_allocate d subtotal discount tax total (pos 0) (l ∷ ls)))
      ∙ sum-pos_allocate d exact subtotal discount tax total (pos 0) l ls
    where
      zero_plus : (q : ℤ) → q ≡ pos 0 +ℤ q
      zero_plus q = omega int_laws

  store_sale-IsBalanced :
      (now : ℕ) (number : String) (store user : ℕ) (discount tax total : ℤ) (key : Option String)
      (ls : List RawLine) (db : Database)
      → ls ≢ []
      → discount ≤ℤ subtotal_of ls
      → total ≡ subtotal_of ls -ℤ discount +ℤ tax
      → Ensures
          (λ r. IsBalanced r.0.0 r.0.1 × (r.0.0.total_amount ≡ total))
          (store_sale now number store user
            (subtotal_of ls)
            discount
            tax
            total
            key
            ls
            (pos_allocate d (subtotal_of ls) discount tax total (pos 0) ls)
            db)
  unfolding store_sale
  store_sale-IsBalanced now number store user discount tax total key ls db some_line within e =
      elim (Option-cases (find_first (clashes store number key) db.orders)) [
        | inr (old, clash) ↦ rw (clash, store_sale) fails
        | inl fresh ↦
            let pairs = pos_allocate-Paired d (subtotal_of ls) discount tax total (pos 0) ls in
            rw (fresh, store_sale)
              (returns (
                record {
                  total = e;
                  refundable =
                      ap sum_ℤ (new_items-refundable (suc db.next_id) store db.next_id pairs)
                      ∙ sum_of_all (subtotal_of ls) discount tax total ls some_line;
                  subtotals = new_items-subtotal (suc db.next_id) store db.next_id pairs;
                  discount = within;
                },
                refl,
              ))
      ]

store_payment-paid :
    (store : ℕ) (order : Order) (method : PaymentMethod) (total : ℤ) (key : Option String)
    (db : Database)
    → Ensures
        (λ r. (r.0.amount ≡ total) × (r.0.status ≡ PaymentStatus.paid))
        (store_payment store order method total key db)
unfolding store_payment
store_payment-paid store order method total key db =
    elim (Option-cases
      (find_first (is_paid_before (new_payment store order method total key db)) db.payments)) [
        | inr (old, clash) ↦ rw (clash, store_payment) fails
        | inl fresh ↦ rw (fresh, store_payment) (returns (refl, refl))
      ]

-- If the decimals are exact on amounts with two decimals, a sale of at least one item that succeeds is
-- fulfilled and balanced to the smallest unit: its total is the subtotal less the discount plus the
-- tax, its lines' subtotals and refundable amounts add up to the subtotal and the total, and the
-- payment, which is paid, is of the total.
pub create_cash_sale-IsSold :
    (d : Decimals) (now : ℕ) (number : String) (store user : ℕ) (input : CreatePosSaleInput)
    (key : Option String) (db : Database)
    → IsExact d
    → pos_items input.items ≢ []
    → Ensures IsSold (create_cash_sale d now number store user input key db)
unfolding create_cash_sale cash_sale confirmed fulfilled
create_cash_sale-IsSold d now number store user input key db exact asked = Ensures-unique (
    Ensures-bind λ w ew. Ensures-bind λ s es. Ensures-bind λ all_there ea.
      Ensures-call (pos_lines-ne d input.items _ _ (normalize-ne (pos_items input.items) asked))
        λ ls some_line. Ensures-bind λ within eh. Ensures-bind λ agreed eg.
          Ensures-call
            (store_sale-IsBalanced d exact now number store user (d.round input.discount_amount)
              (d.round input.tax_amount) _ key ls db some_line
              (ltb_ℤ-le (subtotal_of ls) (d.round input.discount_amount)
                (unflipped _ (ensure-eq-ok _ _ eh)))
              (exact.rounded _))
            λ o (balanced, total).
              Ensures-call (store_payment-paid store o.0.0 input.payment_method _ key o.1)
                λ p (amount, paid). Ensures-bind λ m em. returns (record {
                  balanced = record {
                    total = balanced.total;
                    refundable = balanced.refundable;
                    subtotals = balanced.subtotals;
                    discount = balanced.discount;
                  };
                  status = refl;
                  amount = amount ∙ sym total;
                  paid = paid;
                }))
  where
    unflipped : (b : Bool) → not b ≡ true → b ≡ false
    unflipped true h = cc
    unflipped false h = refl
