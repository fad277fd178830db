-- ===== src/Orders/Status.antt =====
-- The statuses of an order, and the moves between them that order.service.ts makes.
use stock_pilot_be.Prelude.{◌||◌, Bool, true, false}
use stock_pilot_be.Schema.{OrderStatus}

abbrev pub is_draft : OrderStatus → Bool
is_draft s = elim s [ OrderStatus.draft ↦ true | _ ↦ false ]

abbrev pub is_confirmed : OrderStatus → Bool
is_confirmed s = elim s [ OrderStatus.confirmed ↦ true | _ ↦ false ]

abbrev pub is_fulfilled : OrderStatus → Bool
is_fulfilled s = elim s [ OrderStatus.fulfilled ↦ true | _ ↦ false ]

abbrev pub is_canceled : OrderStatus → Bool
is_canceled s = elim s [ OrderStatus.canceled ↦ true | _ ↦ false ]

-- The order's goods have left the warehouse.
abbrev pub holds_stock : OrderStatus → Bool
holds_stock s = is_confirmed s || is_fulfilled s
