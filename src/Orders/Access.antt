-- ===== src/Orders/Access.antt =====
-- Who may handle an order: `cancelOrder` and `getOrderById` of order.service.ts. Times are
-- milliseconds since 1970; Vietnam is seven hours ahead of UTC.
use stock_pilot_be.Prelude.{ℕ, ◌+◌, ◌*◌, ◌/◌, ◌≤◌, ◌||◌, ◌≡◌, ◌↔◌, Bool, true, ◌==◌, leb, arith}
use stock_pilot_be.Schema.{Order, Role, admin, shop_owner, warehouse_staff}

abbrev pub day_ms : ℕ
day_ms = 86_400_000

abbrev pub vn_offset_ms : ℕ
vn_offset_ms = 25_200_000

-- `order.createdAt >= startOfToday`, both sides moved by the offset: `startOfToday` is the last
-- midnight in Vietnam, so moved by the offset it is a multiple of a day.
unfoldable pub is_today : ℕ → ℕ → Bool
is_today now created = leb ((now + vn_offset_ms) / day_ms * day_ms) (created + vn_offset_ms)

-- Staff handle today's orders and their own; every other role handles all.
unfoldable pub may_handle : ℕ → Role → ℕ → Order → Bool
unfolding is_today
may_handle now warehouse_staff user order =
    is_today now order.created_at || order.created_by_id == user
may_handle now admin user order = true
may_handle now shop_owner user order = true

-- An order counts as today's exactly when the day of its creation in Vietnam is not before the
-- present day in Vietnam.
pub is_today_iff :
    (now created : ℕ)
    → (is_today now created ≡ true)
      ↔ ((now + vn_offset_ms) / day_ms ≤ (created + vn_offset_ms) / day_ms)
unfolding is_today
is_today_iff now created = (λ h. grind arith, λ h. grind arith)
