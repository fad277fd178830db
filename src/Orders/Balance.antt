-- ===== src/Orders/Balance.antt =====
-- The money and the stock of a new draft order: order.service.ts.
use Prim.Native.String.{String}
use stock_pilot_be.Prelude.{
  ℕ, suc, ◌≡◌, ◌≢◌, refl, not, Bool, true, false, List, [], ◌∷◌, map, ap, ◌∙◌, sym, All,
  Option-cases, inl, inr,
}
use stock_pilot_be.Prelude.Int.{ℤ, pos, ◌+ℤ◌, ◌-ℤ◌, ◌≤ℤ◌, ltb_ℤ-le}
use stock_pilot_be.Prelude.Rows.{find_first, All-filter_by}
use stock_pilot_be.Prelude.Result.{
  ensure-eq-ok, Ensures, Ensures-bind, Ensures-call, Ensures-both, returns, fails,
}
use stock_pilot_be.Schema.{Database, StockItem, Order, OrderItem, OrderStatus}
use stock_pilot_be.Ledger.{StockChangeItem, normalize_items}
use stock_pilot_be.Ledger.Normalize.{normalize-ne}
use stock_pilot_be.Ledger.Posting.{Keeps}
use stock_pilot_be.Orders.Draft.{
  Decimals, RawLine, raw_lines, subtotal_of, allocate, sum_ℤ, sum-allocate_all, share,
}
use stock_pilot_be.Orders.Create.{
  CreateOrderInput, clashes, new_items, store_order, create_draft_order, IsBalanced, in_columns,
  is_sellable,
}
use stock_pilot_be.Orders.Columns.{
  IsStored, HasColumns, AreStored, raw_lines-AreStored, subtotal_of-IsStored, subtotal_of-columns,
  allocate-columns,
}

-- There is an amount for each line.
pub data Paired : List RawLine → List ℤ → Type 0 where
  none_left : Paired [] []
  one_more :
      {l : RawLine} {ls : List RawLine} {q : ℤ} {qs : List ℤ}
      → Paired ls qs
      → Paired (l ∷ ls) (q ∷ qs)

allocate-Paired :
    (d : Decimals) (subtotal discount tax total allocated : ℤ) (ls : List RawLine)
    → Paired ls (allocate d subtotal discount tax total allocated ls)
unfolding allocate
allocate-Paired d subtotal discount tax total allocated [] = none_left
allocate-Paired d subtotal discount tax total allocated (l ∷ []) = one_more none_left
allocate-Paired d subtotal discount tax total allocated (l ∷ m ∷ ls) = one_more (
    allocate-Paired d subtotal discount tax total
      (allocated +ℤ share d subtotal discount tax total l) (m ∷ ls))

pub new_items-refundable :
    (id store order : ℕ) {ls : List RawLine} {qs : List ℤ}
    → Paired ls qs
    → map (λ i. i.refundable_amount) (new_items id store order ls qs) ≡ qs
unfolding new_items
new_items-refundable id store order none_left = refl
new_items-refundable id store order (one_more {q = q} p) =
    ap (λ qs. q ∷ qs) (new_items-refundable (suc id) store order p)

pub new_items-subtotal :
    (id store order : ℕ) {ls : List RawLine} {qs : List ℤ}
    → Paired ls qs
    → sum_ℤ (map (λ i. i.subtotal) (new_items id store order ls qs)) ≡ subtotal_of ls
unfolding new_items
new_items-subtotal id store order none_left = refl
new_items-subtotal id store order (one_more {l = l} p) =
    ap (λ q. l.line_subtotal +ℤ q) (new_items-subtotal (suc id) store order p)

columns-Paired :
    (d : Decimals) {ls : List RawLine} {qs : List ℤ}
    → Paired ls qs
    → Paired (map (in_columns d) ls) (map d.column qs)
columns-Paired d none_left = none_left
columns-Paired d (one_more p) = one_more (columns-Paired d p)

-- Every line found is a line of the order.
raw_lines-ne :
    (items : List StockItem) (xs : List StockChangeItem)
    → xs ≢ []
    → Ensures (λ ls. ls ≢ []) (raw_lines items xs)
unfolding raw_lines
raw_lines-ne items [] h = absurd (h refl)
raw_lines-ne items (x ∷ xs) h = Ensures-bind λ s es. Ensures-bind λ rest er. returns (λ e. cc)

module _ (d : Decimals) (now : ℕ) (number : String) (store user : ℕ) (input : CreateOrderInput)
    (db : Database) where
  -- What a stored draft is: balanced, a draft, and no change of the stock.
  abbrev pub IsDrafted : (Order × List OrderItem) × Database → Type 0
  IsDrafted r = IsBalanced r.0.0 r.0.1 × (r.0.0.status ≡ OrderStatus.draft) × Keeps db r.1

  store_order-Keeps :
      (subtotal total : ℤ) (ls : List RawLine) (amounts : List ℤ)
      → Ensures
          (λ r. (r.0.0.status ≡ OrderStatus.draft) × Keeps db r.1)
          (store_order d now number store user input subtotal total ls amounts db)
  unfolding store_order
  store_order-Keeps subtotal total ls amounts =
      elim (Option-cases (find_first (clashes store number input.client_request_key) db.orders)) [
        | inr (old, clash) ↦ rw (clash, store_order) fails
        | inl fresh ↦
            rw (fresh, store_order)
              (returns (refl, record { movements = refl; balances = λ u j. refl }))
      ]

  -- A draft that is created is in status draft, and the stock is untouched.
  pub create_draft_order-Keeps :
      Ensures
        (λ r. (r.0.0.status ≡ OrderStatus.draft) × Keeps db r.1)
        (create_draft_order d now number store user input db)
  unfolding create_draft_order
  create_draft_order-Keeps =
      Ensures-bind
        λ all_there ea. Ensures-bind λ ls el. Ensures-bind λ within ew. store_order-Keeps _ _ ls _

  module _ (columns : HasColumns d) (discounted : IsStored d input.discount_amount)
      (taxed : IsStored d input.tax_amount) where
    due : List RawLine → ℤ
    due ls = subtotal_of ls -ℤ input.discount_amount +ℤ input.tax_amount

    due-IsStored : (ls : List RawLine) → AreStored d columns ls → IsStored d (due ls)
    unfolding due
    due-IsStored ls stored =
        columns.sums _ input.tax_amount
          (columns.differences (subtotal_of ls) input.discount_amount
            (subtotal_of-IsStored d columns ls stored) discounted)
          taxed

    -- The amounts that the columns keep of a draft are those that were computed.
    columns-IsBalanced :
        (ls : List RawLine) (order : Order)
        → ls ≢ []
        → AreStored d columns ls
        → input.discount_amount ≤ℤ subtotal_of ls
        → order.subtotal_amount ≡ d.column (subtotal_of ls)
        → order.discount_amount ≡ d.column input.discount_amount
        → order.tax_amount ≡ d.column input.tax_amount
        → order.total_amount ≡ d.column (due ls)
        → IsBalanced order (
            new_items (suc db.next_id) store db.next_id (map (in_columns d) ls) (
              map d.column (
                allocate d
                  (subtotal_of ls)
                  input.discount_amount
                  input.tax_amount
                  (due ls)
                  (pos 0)
                  ls)))
    unfolding due
    columns-IsBalanced ls order some_line stored within s_is d_is t_is total_is =
        let subtotal = subtotal_of-IsStored d columns ls stored in
        let total = due-IsStored ls stored in
        let pairs = columns-Paired d (
          allocate-Paired d (subtotal_of ls) input.discount_amount input.tax_amount (due ls) (pos 0)
            ls) in
        record {
          total = total_is ∙ total ∙ sym (rw (s_is, d_is, t_is, subtotal, discounted, taxed) refl);
          refundable =
              ap sum_ℤ (
                new_items-refundable (suc db.next_id) store db.next_id pairs
                ∙ allocate-columns d columns (subtotal_of ls) input.discount_amount input.tax_amount
                    (due ls) (pos 0) ls total columns.nothing)
              ∙ sum-allocate_all d (subtotal_of ls) input.discount_amount input.tax_amount (due ls)
                  ls some_line
              ∙ sym (total_is ∙ total);
          subtotals =
              new_items-subtotal (suc db.next_id) store db.next_id pairs
              ∙ subtotal_of-columns d columns ls stored
              ∙ sym (s_is ∙ subtotal);
          discount = rw (s_is, d_is, subtotal, discounted) within;
        }

    store_order-IsDrafted :
        (ls : List RawLine)
        → ls ≢ []
        → AreStored d columns ls
        → input.discount_amount ≤ℤ subtotal_of ls
        → Ensures IsDrafted (
            store_order d now number store user input
              (subtotal_of ls)
              (due ls)
              ls
              (allocate d
                (subtotal_of ls)
                input.discount_amount
                input.tax_amount
                (due ls)
                (pos 0)
                ls)
              db)
    unfolding store_order
    store_order-IsDrafted ls some_line stored within =
        elim (Option-cases (find_first (clashes store number input.client_request_key) db.orders)) [
          | inr (old, clash) ↦ rw (clash, store_order) fails
          | inl fresh ↦
              rw (fresh, store_order)
                (returns (
                  columns-IsBalanced ls _ some_line stored within refl refl refl refl,
                  refl,
                  record { movements = refl; balances = λ u j. refl },
                ))
        ]

    -- Where the prices in the table, the discount and the tax have two decimals, which their columns keep,
    -- a draft of at least one line that is created is balanced to the smallest unit as it is stored,
    -- however the decimals divide: its total is the subtotal less the discount plus the tax, its lines'
    -- subtotals and refundable amounts add up to the subtotal and the total, and the discount is within
    -- the subtotal. It is in status draft, and the stock is untouched. Sums, differences and multiples of
    -- amounts with two decimals have two decimals, and so has what is rounded to two.
    pub create_draft_order-IsDrafted :
        All (λ s. IsStored d s.selling_price) db.stock_items
        → input.items ≢ []
        → Ensures IsDrafted (create_draft_order d now number store user input db)
    unfolding create_draft_order due
    create_draft_order-IsDrafted priced asked = Ensures-bind λ all_there ea.
        let found =
          All-filter_by (λ s. IsStored d s.selling_price)
            (is_sellable store (map (λ i. i.stock_item_id) (normalize_items input.items)))
            db.stock_items priced in
        Ensures-call
          (Ensures-both (raw_lines-ne _ _ (normalize-ne input.items asked))
            (raw_lines-AreStored d columns _ (normalize_items input.items) found))
          λ ls (some_line, stored). Ensures-bind λ within ew.
            store_order-IsDrafted ls some_line stored
              (ltb_ℤ-le (subtotal_of ls) input.discount_amount (unflipped _ (ensure-eq-ok _ _ ew)))
      where
        unflipped : (b : Bool) → not b ≡ true → b ≡ false
        unflipped true h = cc
        unflipped false h = refl
