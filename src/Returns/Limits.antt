-- ===== src/Returns/Limits.antt =====
-- What a return does to the lines of the order: return.service.ts.
use Prim.Native.String.{String}
use stock_pilot_be.Prelude.{
  ℕ, ◌≡◌, true, Option, some, List, [], ◌∷◌, ◌∙◌, subst, All, ap, sym, ◌==◌,
}
use stock_pilot_be.Prelude.Int.{
  ℤ, pos, ◌+ℤ◌, ◌-ℤ◌, ◌≤ℤ◌, ◌<ℤ◌, ltb_ℤ, leb_ℤ, int_laws, ltb_ℤ-lt, leb_ℤ-le,
}
use stock_pilot_be.Prelude.Rows.{find_first, All-update_first, some_injective}
use stock_pilot_be.Prelude.Result.{
  Ensures, Ensures-bind, Ensures-call, returns, or_fail-eq-ok, ensure-eq-ok,
}
use stock_pilot_be.Schema.{Database, OrderItem, Warehouse}
use stock_pilot_be.Orders.{items_of}
use stock_pilot_be.Orders.Draft.{Decimals}
use stock_pilot_be.Returns.{
  is_line, or_else, return_line, return_lines, restock_list, create_return,
}
use stock_pilot_be.Audit.{audit}
use stock_pilot_be.Prelude.Sort.{All-sort_by}
use stock_pilot_be.Returns.Refund.{refund_price, refund_price_bounds, refund_price_last}
use stock_pilot_be.Returns.Booking.{
  booked, book_return-eq-some, restock_returned-rest, store_return-order_items,
}
use stock_pilot_be.Returns.Request.{ReturnRequest, merge_requests-positive}

-- No more comes back than was bought, no more is refunded than was paid, and when all has come back
-- all is refunded.
pub record IsWithin (i : OrderItem) : Type 0 where
  pub returned_low : pos 0 ≤ℤ i.returned_quantity
  pub returned_high : i.returned_quantity ≤ℤ i.quantity
  pub refunded_low : pos 0 ≤ℤ i.refunded_amount
  pub refunded_high : i.refunded_amount ≤ℤ i.refundable_amount
  pub settled : i.returned_quantity ≡ i.quantity → i.refunded_amount ≡ i.refundable_amount

-- One booking keeps the limits of a line: its quantity and its price are what `return_line` checked.
book-IsWithin :
    (i : OrderItem) (q price : ℤ)
    → pos 0 <ℤ q
    → q ≤ℤ i.quantity -ℤ i.returned_quantity
    → pos 0 ≤ℤ price
    → price ≤ℤ i.refundable_amount -ℤ i.refunded_amount
    → (q ≡ i.quantity -ℤ i.returned_quantity → price ≡ i.refundable_amount -ℤ i.refunded_amount)
    → IsWithin i
    → IsWithin (record i {
      refunded_amount = i.refunded_amount +ℤ price;
      returned_quantity = i.returned_quantity +ℤ q;
    })
book-IsWithin i q price more enough low high last h = record {
  returned_low = low_sum i.returned_quantity q h.returned_low more;
  returned_high = high_sum q i.quantity i.returned_quantity enough;
  refunded_low = low_sums i.refunded_amount price h.refunded_low low;
  refunded_high = high_sum price i.refundable_amount i.refunded_amount high;
  settled = λ e.
      back price i.refundable_amount i.refunded_amount
        (last (left i.returned_quantity q i.quantity e));
}
  where
    low_sum : (a b : ℤ) → pos 0 ≤ℤ a → pos 0 <ℤ b → pos 0 ≤ℤ a +ℤ b
    low_sum a b ha hb = omega int_laws

    low_sums : (a b : ℤ) → pos 0 ≤ℤ a → pos 0 ≤ℤ b → pos 0 ≤ℤ a +ℤ b
    low_sums a b ha hb = omega int_laws

    left : (a b c : ℤ) → a +ℤ b ≡ c → b ≡ c -ℤ a
    left a b c e = grind int_laws

    back : (a b c : ℤ) → a ≡ b -ℤ c → c +ℤ a ≡ b
    back a b c e = grind int_laws

    high_sum : (a b c : ℤ) → a ≤ℤ b -ℤ c → c +ℤ a ≤ℤ b
    high_sum a b c h = omega int_laws

module _ (d : Decimals) (store : ℕ) (w : Warehouse) (order : ℕ) where
  return_line-IsWithin :
      (r : ReturnRequest) (db : Database)
      → pos 0 <ℤ r.quantity
      → All IsWithin db.order_items
      → Ensures (λ x. All IsWithin x.1.order_items) (return_line d store w order r db)
  unfolding return_line
  return_line-IsWithin r db more all = Ensures-bind λ line el. Ensures-bind λ u eu.
      Ensures-bind λ v ev. Ensures-bind λ rows er. returns (
        subst (All IsWithin)
          (sym
            (book_return-eq-some store order r.order_item_id line r.quantity _ db.order_items rows
              (or_fail-eq-ok _ _ er)).0)
          (All-update_first IsWithin (is_line store order r.order_item_id) _ db.order_items
            (λ i found.
              within i line (same_line i line found (or_fail-eq-ok _ _ el)) (ensure-eq-ok _ _ eu)
                (ensure-eq-ok _ _ ev))
            all))
    where
      same_line :
          (i line : OrderItem)
          → find_first (is_line store order r.order_item_id) db.order_items ≡ some i
          → or_else
              (find_first (is_line store order r.order_item_id) db.order_items)
              (find_first (λ i. i.id == r.order_item_id) (items_of order db))
            ≡ some line
          → line ≡ i
      same_line i line found e = sym (some_injective (rw found at e))

      within :
          (i line : OrderItem)
          → line ≡ i
          → ltb_ℤ (pos 0) (line.refundable_amount -ℤ line.refunded_amount) ≡ true
          → leb_ℤ r.quantity (line.quantity -ℤ line.returned_quantity) ≡ true
          → IsWithin i
          → IsWithin (booked i r.quantity (refund_price d line r.quantity))
      within i line same positive enough h =
          let more_left =
            ltb_ℤ-lt (pos 0) (i.refundable_amount -ℤ i.refunded_amount) (rw same at positive) in
          let bounds = refund_price_bounds d i r.quantity more_left in
          rw same (
            book-IsWithin i r.quantity (refund_price d i r.quantity) more
              (leb_ℤ-le r.quantity (i.quantity -ℤ i.returned_quantity) (rw same at enough)) bounds.0
              bounds.1 (refund_price_last d i r.quantity more_left) h)

  return_lines-IsWithin :
      (rs : List ReturnRequest) (db : Database)
      → All (λ r. pos 0 <ℤ r.quantity) rs
      → All IsWithin db.order_items
      → Ensures (λ x. All IsWithin x.1.order_items) (return_lines d store w order rs db)
  unfolding return_lines
  return_lines-IsWithin [] db more all = returns all
  return_lines-IsWithin (r ∷ rs) db more all =
      Ensures-call (return_line-IsWithin r db more.0 all) λ x first.
        Ensures-call (return_lines-IsWithin rs x.1 more.1 first) λ y second. returns second

-- A return of positive quantities that succeeds keeps, for every order line, the limits that no
-- more units have come back than were bought, that no more is refunded than was paid, and that
-- once all the units are back all of it is refunded. It does so however the decimals divide and
-- round.
pub create_return-IsWithin :
    (d : Decimals) (store user order : ℕ) (number : String) (key : Option String)
    (requests : List ReturnRequest) (db : Database)
    → All (λ r. pos 0 <ℤ r.quantity) requests
    → All IsWithin db.order_items
    → Ensures
        (λ r. All IsWithin r.1.order_items)
        (create_return d store user order number key requests db)
unfolding create_return audit
create_return-IsWithin d store user order number key requests db more all = Ensures-bind λ w ew.
    Ensures-bind λ o eo. Ensures-bind λ u eu.
      Ensures-call (merge_requests-positive requests more) λ merged positive.
        Ensures-call
          (return_lines-IsWithin d store w order _ db
            (All-sort_by (λ r. r.order_item_id) _ merged positive) all)
          λ x within.
            Ensures-call (restock_returned-rest store user w number key (restock_list x.0) x.1)
              λ y kept.
                Ensures-call (store_return-order_items store user order number key x.0 y.1)
                  λ z same.
                    returns
                      (subst (All IsWithin) (sym (same ∙ ap (λ d. d.order_items) kept)) within)
