-- ===== src/Returns/Refund.antt =====
-- The money for the units of one line that come back: return.service.ts.
use stock_pilot_be.Prelude.{◌≡◌, arith, if◌then◌else◌}
use stock_pilot_be.Prelude.Int.{ℤ, pos, ◌-ℤ◌, ◌≤ℤ◌, ◌<ℤ◌, ltb_ℤ, leb_ℤ, eqb_ℤ}
use stock_pilot_be.Schema.{OrderItem}
use stock_pilot_be.Orders.Draft.{Decimals}

-- `Prisma.Decimal.min`
abbrev pub min_ℤ : ℤ → ℤ → ℤ
min_ℤ a b = if leb_ℤ a b then a else b

-- The last units take what is left to refund; others take their share, at most what is left.
unfoldable pub item_refund_price : Decimals → OrderItem → ℤ → ℤ
item_refund_price d line q =
    if eqb_ℤ q (line.quantity -ℤ line.returned_quantity)
    then line.refundable_amount -ℤ line.refunded_amount
    else min_ℤ
        (if ltb_ℤ (pos 0) line.quantity
          then d.mul_div_round line.refundable_amount q line.quantity
          else pos 0)
        (line.refundable_amount -ℤ line.refunded_amount)

-- `if (itemRefundPrice.lt(0))`
unfoldable pub refund_price : Decimals → OrderItem → ℤ → ℤ
unfolding item_refund_price
refund_price d line q =
    if ltb_ℤ (item_refund_price d line q) (pos 0) then pos 0 else item_refund_price d line q

module _ (d : Decimals) (line : OrderItem) (q : ℤ) where
  abbrev left : ℤ
  left = line.refundable_amount -ℤ line.refunded_amount

  -- A refund is never negative, and never more than what is left, however the decimals round.
  pub refund_price_bounds :
      pos 0 <ℤ left → (pos 0 ≤ℤ refund_price d line q) × (refund_price d line q ≤ℤ left)
  unfolding refund_price
  refund_price_bounds h = ground arith

  -- Whoever returns the last units is refunded all that is left.
  pub refund_price_last :
      pos 0 <ℤ left → q ≡ line.quantity -ℤ line.returned_quantity → refund_price d line q ≡ left
  unfolding refund_price
  refund_price_last h e = ground (arith, e)
