-- ===== src/Returns/Money.antt =====
-- The money of a return: return.service.ts.
use Prim.Native.String.{String}
use stock_pilot_be.Prelude.{
  ℕ, ◌≡◌, refl, Bool, Option, some, List, [], ◌∷◌, ◌∙◌, ap, sym, Option-cases, Bool-cases, inl, inr,
}
use stock_pilot_be.Prelude.Int.{ℤ, pos, ◌+ℤ◌, int_laws}
use stock_pilot_be.Prelude.Result.{
  Ensures, Ensures-bind, Ensures-call, Ensures-both, returns, fails, or_fail-eq-ok,
}
use stock_pilot_be.Prelude.Rows.{find_first, update_first}
use stock_pilot_be.Schema.{Database, Warehouse, OrderItem, ReturnItem}
use stock_pilot_be.Orders.Draft.{Decimals}
use stock_pilot_be.Audit.{audit}
use stock_pilot_be.Returns.{
  is_line, is_taken, return_line, return_lines, restock_list, store_return, create_return,
  total_refund,
}
use stock_pilot_be.Returns.Booking.{
  booked, book_return-eq-some, restock_returned-rest, store_return-order_items,
}
use stock_pilot_be.Returns.Request.{ReturnRequest}

-- What has been refunded for all the order lines.
abbrev pub refunded_of : List OrderItem → ℤ
refunded_of [] = pos 0
refunded_of (i ∷ is) = i.refunded_amount +ℤ refunded_of is

refunded-update_first :
    (p : OrderItem → Bool) (q price : ℤ) (rows : List OrderItem) (i : OrderItem)
    → find_first p rows ≡ some i
    → refunded_of (update_first p (λ i. booked i q price) rows) ≡ price +ℤ refunded_of rows
refunded-update_first p q price [] i h = cc
refunded-update_first p q price (r ∷ rows) i h = elim (Bool-cases (p r)) [
  | inl e ↦ rw e (omega int_laws)
  | inr e ↦ rw e (rw (refunded-update_first p q price rows i (rw e at h)) (omega int_laws))
]

module _ (d : Decimals) (store : ℕ) (w : Warehouse) (order : ℕ) where
  return_line-refunded :
      (r : ReturnRequest) (db : Database)
      → Ensures
          (λ x. refunded_of x.1.order_items ≡ x.0.refund_price +ℤ refunded_of db.order_items)
          (return_line d store w order r db)
  unfolding return_line
  return_line-refunded r db = Ensures-bind λ line el. Ensures-bind λ u eu. Ensures-bind λ v ev.
      Ensures-bind λ rows er.
        let b =
          book_return-eq-some store order r.order_item_id line r.quantity _ db.order_items rows
            (or_fail-eq-ok _ _ er) in
        returns (
          ap refunded_of b.0
          ∙ refunded-update_first (is_line store order r.order_item_id) r.quantity _ db.order_items
              b.1 b.2)

  return_lines-refunded :
      (rs : List ReturnRequest) (db : Database)
      → Ensures
          (λ x. refunded_of x.1.order_items ≡ total_refund x.0 +ℤ refunded_of db.order_items)
          (return_lines d store w order rs db)
  unfolding return_lines
  return_lines-refunded [] db = returns (omega int_laws)
  return_lines-refunded (r ∷ rs) db = Ensures-call (return_line-refunded r db) λ x first.
      Ensures-call (return_lines-refunded rs x.1)
        λ y second. returns (second ∙ rw first (omega int_laws))

store_return-total :
    (store user order : ℕ) (number : String) (key : Option String) (items : List ReturnItem)
    (db : Database)
    → Ensures
        (λ r. r.0.total_refund_amount ≡ total_refund items)
        (store_return store user order number key items db)
unfolding store_return
store_return-total store user order number key items db =
    elim (Option-cases (find_first (is_taken store number key) db.return_orders)) [
      | inl free ↦ rw (free, store_return) (returns refl)
      | inr (old, clash) ↦ rw (clash, store_return) fails
    ]

-- The total of a return that succeeds is what its items refund altogether, and the refunded
-- amounts of all the order lines have grown by it.
pub create_return-refunded :
    (d : Decimals) (store user order : ℕ) (number : String) (key : Option String)
    (requests : List ReturnRequest) (db : Database)
    → Ensures
        (λ r.
          (r.0.0.total_refund_amount ≡ total_refund r.0.1)
          × (refunded_of r.1.order_items ≡ r.0.0.total_refund_amount +ℤ refunded_of db.order_items))
        (create_return d store user order number key requests db)
unfolding create_return audit
create_return-refunded d store user order number key requests db = Ensures-bind λ w ew.
    Ensures-bind λ o eo. Ensures-bind λ u eu. Ensures-bind λ merged em.
      Ensures-call (return_lines-refunded d store w order _ db) λ x lines.
        Ensures-call (restock_returned-rest store user w number key (restock_list x.0) x.1)
          λ y kept.
            Ensures-call
              (Ensures-both (store_return-total store user order number key x.0 y.1)
                (store_return-order_items store user order number key x.0 y.1))
              λ z (total, same). returns (
                total,
                ap refunded_of (same ∙ ap (λ d. d.order_items) kept)
                    ∙ lines
                    ∙ ap (λ q. q +ℤ refunded_of db.order_items) (sym total),
              )
