-- ===== src/Tests/Refunds.antt =====
-- The theorems on returns, applied to the shop.
use stock_pilot_be.Prelude.{ℕ, ◌≡◌, none, arith, All, ◌≢◌}
use stock_pilot_be.Prelude.Int.{ℤ, pos, ◌+ℤ◌, ◌≤ℤ◌, ◌<ℤ◌}
use stock_pilot_be.Prelude.Result.{Ensures}
use stock_pilot_be.Returns.{create_return, total_refund}
use stock_pilot_be.Returns.Limits.{IsWithin, create_return-IsWithin}
use stock_pilot_be.Returns.Money.{refunded_of, create_return-refunded}
use stock_pilot_be.Tests.Shop.{shop, sold, plain, return_requests}

two_units : All (λ r. pos 0 <ℤ r.quantity) return_requests
two_units = (omega arith, (omega arith, tt))

sold-IsWithin :
    (id order item : ℕ) (q total : ℤ)
    → pos 0 <ℤ q
    → pos 0 ≤ℤ total
    → IsWithin (sold id order item q total)
sold-IsWithin id order item q total hq ht = record {
  returned_low = omega arith;
  returned_high = omega arith;
  refunded_low = omega arith;
  refunded_high = ht;
  settled = λ e. absurd (none_back q hq e);
}
  where
    none_back : (q : ℤ) → pos 0 <ℤ q → pos 0 ≢ q
    none_back q h e = ground arith

shop-IsWithin : All IsWithin shop.order_items
shop-IsWithin = (
  sold-IsWithin 101 100 10 (pos 2) (pos 2_000) (omega arith) (omega arith),
  (sold-IsWithin 201 200 11 (pos 3) (pos 2_500) (omega arith) (omega arith), tt),
)

create_return-IsWithin_example :
    Ensures
      (λ r. All IsWithin r.1.order_items)
      (create_return plain 1 5 200 "RET" none return_requests shop)
create_return-IsWithin_example =
    create_return-IsWithin plain 1 5 200 "RET" none return_requests shop two_units shop-IsWithin

create_return-refunded_example :
    Ensures
      (λ r.
        (r.0.0.total_refund_amount ≡ total_refund r.0.1)
        × (refunded_of r.1.order_items ≡ r.0.0.total_refund_amount +ℤ refunded_of shop.order_items))
      (create_return plain 1 5 200 "RET" none return_requests shop)
create_return-refunded_example =
    create_return-refunded plain 1 5 200 "RET" none return_requests shop
